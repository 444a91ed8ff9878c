-- ===== src/Shutdown/Ends.antt =====
-- What holds when main has returned, and that it does return.
use jig_mcp.Prelude.{run_keeps, ap, subst, sym, ℕ, ◌+◌, Str, Bool, map, ◌≡◌, refl}
use jig_mcp.Prelude.Result.{Result}
use jig_mcp.Auth.Caller.{Context}
use jig_mcp.Audit.Writer.{nil}
use jig_mcp.Audit.Writer
use jig_mcp.Server.Call.{World}
use jig_mcp.Server.{Request, Response}
use jig_mcp.Stdio.{Stdio}
use jig_mcp.Stdio
use jig_mcp.Stdio.Progress.{steps_left}
use jig_mcp.Shutdown.{
  Phase, reading, draining, stopping, waiting, closing, exited, Process, stop_servers, Step, work,
  end_of_input, signal, drained, drain_expired, stop, waited, wait_expired, close_log, Reach,
}

abbrev phases_left : Phase → ℕ
phases_left reading = 5
phases_left draining = 4
phases_left stopping = 3
phases_left waiting = 2
phases_left closing = 1
phases_left exited = 0

module _ {ℓ} {Http : Type ℓ} (shutdown : Http → Http)
    (process : Bool → Context → Request → World → World × Response) (decode : Str → Result Request)
    (encode : Response → Result Str) where
  -- The servers of the start, each shut down once main is past that.
  abbrev ServersAt : Phase → Process Http → Process Http → Type ℓ
  ServersAt waiting p q = q.servers ≡ map shutdown p.servers
  ServersAt closing p q = q.servers ≡ map shutdown p.servers
  ServersAt exited p q = (q.servers ≡ map shutdown p.servers) × (q.audit.writer.file ≡ nil)
  ServersAt _ p q = q.servers ≡ p.servers

  Step-ServersAt :
      (p : Process Http) {q r : Process Http}
      → ServersAt q.phase p q
      → Step shutdown process decode encode q r
      → ServersAt r.phase p r
  unfolding stop_servers Writer.close
  Step-ServersAt p {q} h (work {t} running st) = at_phase t q.phase h
    where
      at_phase :
          (t : Stdio) (ph : Phase) → ServersAt ph p q → ServersAt ph p (record q { stdio = t })
      at_phase t reading g = g
      at_phase t draining g = g
      at_phase t stopping g = g
      at_phase t waiting g = g
      at_phase t closing g = g
      at_phase t exited g = g
  Step-ServersAt p {q} h (end_of_input e empty) = subst (λ ph. ServersAt ph p q) e h
  Step-ServersAt p {q} h (signal e) = subst (λ ph. ServersAt ph p q) e h
  Step-ServersAt p {q} h (drained e empty) = subst (λ ph. ServersAt ph p q) e h
  Step-ServersAt p {q} h (drain_expired e) = subst (λ ph. ServersAt ph p q) e h
  Step-ServersAt p {q} h (stop e) = ap (map shutdown) (subst (λ ph. ServersAt ph p q) e h)
  Step-ServersAt p {q} h (waited e none_left) = subst (λ ph. ServersAt ph p q) e h
  Step-ServersAt p {q} h (wait_expired e) = subst (λ ph. ServersAt ph p q) e h
  Step-ServersAt p {q} h (close_log e) = (subst (λ ph. ServersAt ph p q) e h, refl)

  -- Whenever main returns from the stdio loop, after a signal, the end of stdin or an expired grace period:
  -- the audit log is closed, and each HTTP server that there was has been shut down.
  pub exited-IsStopped :
      {p q : Process Http}
      → p.phase ≡ reading
      → Reach shutdown process decode encode p q
      → q.phase ≡ exited
      → (q.servers ≡ map shutdown p.servers) × (q.audit.writer.file ≡ nil)
  exited-IsStopped {p} {q} start r e =
      subst (λ ph. ServersAt ph p q) e
        (run_keeps (λ t. ServersAt t.phase p t) (λ t u st h. Step-ServersAt p h st) r
          (subst (λ ph. ServersAt ph p p) (sym start) refl))

  abbrev left : Process Http → ℕ
  left p = steps_left p.stdio + phases_left p.phase

  -- A step of main or of its goroutines that is neither a signal nor the end of a grace period.
  abbrev pub OrderlyStep : Process Http → Type ℓ
  OrderlyStep p =
      (q : Process Http) × Step shutdown process decode encode p q × (q.orderly ≡ p.orderly)
