-- ===== src/Shutdown/Tests.antt =====
-- A ping is answered, stdin ends, and main shuts the dashboard down and returns.
use jig_mcp.Prelude.{
  here, next, ◌==◌, ◌+◌, ℕ, Str, lit, none, List, [], ◌∷◌, true, sum_by, ◌≡◌, refl, map,
}
use jig_mcp.Audit.Writer.{nil}
use jig_mcp.Audit.Writer
use jig_mcp.Stdio.{Stdio, started}
use jig_mcp.Stdio
use jig_mcp.Stdio.Answers.{id_weight, line_weight}
use jig_mcp.Stdio.Callers.{process_request-id}
use jig_mcp.Stdio.Sample.{server, clock, params_of, world, ping, decode, encode, run, response}
use jig_mcp.Tools.Sample.{sample}
use jig_mcp.Shutdown.{
  reading, exited, Process, work, end_of_input, drained, stop, waited, close_log, Reach, in_flight,
  stop_servers,
}
use jig_mcp.Shutdown.Ends.{exited-IsStopped}
use jig_mcp.Shutdown.Completes.{main_completes}
use jig_mcp.Shutdown.Orderly.{exited-answers}

-- A server is the number of listeners that it has open.
abbrev shut_server : ℕ → ℕ
shut_server n = 0

abbrev pings : List Str
pings = lit "ping" ∷ []

abbrev log : Writer.World
log = record {
  writer = record { file = nil; root = nil; log_dir = []; warn_last = none };
  disk = λ d n. none;
}

abbrev first : Process ℕ
first = record {
  phase = reading;
  stdio = started pings world;
  servers = 1 ∷ [];
  audit = log;
  orderly = true;
}

abbrev served : Stdio
served = record {
  input = [];
  workers = [];
  world = (run true Stdio.stdio_ctx ping world).0;
  written = response ∷ [];
  failed = [];
}

abbrev last : Process ℕ
last = record { phase = exited; stdio = served; servers = 0 ∷ []; audit = log; orderly = true }

ends : Reach shut_server run decode encode first last
unfolding started ◌==◌ in_flight stop_servers sum_by Writer.close
ends =
    next
      (next
        (next
          (next
            (next
              (next
                (next
                  (next (next here (work refl (Stdio.read (lit "ping") [] refl)))
                    (work refl (Stdio.accept [] [] (lit "ping") ping refl refl)))
                  (work refl (Stdio.respond [] [] ping true refl)))
                (work refl (Stdio.write [] [] response (lit "{}") refl refl)))
              (end_of_input refl refl))
            (drained refl refl))
          (stop refl))
        (waited refl refl))
      (close_log refl)

exited-IsStopped_example :
    (last.servers ≡ map shut_server first.servers) × (last.audit.writer.file ≡ nil)
exited-IsStopped_example = exited-IsStopped shut_server run decode encode refl ends refl

exited-answers_example :
    sum_by (id_weight (λ id. true)) last.stdio.written
      + sum_by (id_weight (λ id. true)) last.stdio.failed
    ≡ sum_by (line_weight run decode encode (λ id. true)) pings
exited-answers_example =
    exited-answers shut_server run decode encode pings world
      (process_request-id sample server clock params_of) (λ id. true) refl refl ends refl refl

main_completes_example :
    (q : Process ℕ) × Reach shut_server run decode encode first q
    × (q.phase ≡ exited)
    × (q.orderly ≡ first.orderly)
main_completes_example = main_completes shut_server run decode encode first
