-- ===== src/Shutdown/Orderly.antt =====
-- A shutdown in which no signal comes and no grace period expires.
use jig_mcp.Prelude.{
  here, next, run_keeps, sym, ◌+◌, subst, Str, Option, List, [], Bool, true, sum_by, ◌≡◌, arith,
}
use jig_mcp.Prelude.Result.{Result}
use jig_mcp.Auth.Caller.{Context}
use jig_mcp.Server.Call.{World}
use jig_mcp.Server.{Request, Response}
use jig_mcp.Stdio.{Stdio, started, accepted, IsDone, stdio_ctx}
use jig_mcp.Stdio
use jig_mcp.Stdio.Answers.{id_weight, line_weight, answers_lem}
use jig_mcp.Stdio.Progress.{steps_left-IsDone, Step-decreases}
use jig_mcp.Shutdown.{
  Phase, reading, draining, stopping, waiting, closing, exited, Process, stop_servers, Step, work,
  end_of_input, signal, drained, drain_expired, stop, waited, wait_expired, close_log, Reach,
}

module _ {ℓ} {Http : Type ℓ} (shutdown : Http → Http)
    (process : Bool → Context → Request → World → World × Response) (decode : Str → Result Request)
    (encode : Response → Result Str) where
  -- What the phase tells of the loop and its goroutines, as long as all is orderly.
  abbrev Served : Phase → Stdio → Type 0
  Served reading s = Unit
  Served draining s = s.input ≡ []
  Served _ s = IsDone s

  Step-input : {s t : Stdio} → Stdio.Step process decode encode s t → s.input ≡ [] → t.input ≡ []
  Step-input (Stdio.read line rest e) empty = absurd cc
  Step-input (Stdio.ignore before after line e dropped) empty = empty
  Step-input (Stdio.accept before after line req e taken) empty = empty
  Step-input (Stdio.respond before after req acquired e) empty = empty
  Step-input (Stdio.write before after resp out e encoded) empty = empty
  Step-input (Stdio.give_up before after resp reason e encoded) empty = empty

  IsDone-no_step : {s t : Stdio} → Stdio.Step process decode encode s t → ¬ IsDone s
  IsDone-no_step {s} st done = omega (
    arith,
    Step-decreases process decode encode st,
    steps_left-IsDone process decode encode s done,
  )

  work-Served :
      {s t : Stdio} (ph : Phase) → Stdio.Step process decode encode s t → Served ph s → Served ph t
  work-Served reading st h = tt
  work-Served draining st h = Step-input st h
  work-Served stopping st h = absurd (IsDone-no_step st h)
  work-Served waiting st h = absurd (IsDone-no_step st h)
  work-Served closing st h = absurd (IsDone-no_step st h)
  work-Served exited st h = absurd (IsDone-no_step st h)

  module _ (input : List Str) (w : World) where
    -- The loop runs as without main, and if all is orderly, no phase is left too early.
    record Inv (p : Process Http) : Type 0 where
      reached : Stdio.Reach process decode encode (started input w) p.stdio
      served : p.orderly ≡ true → Served p.phase p.stdio

    Step-Inv : {p q : Process Http} → Inv p → Step shutdown process decode encode p q → Inv q
    unfolding stop_servers
    Step-Inv {p} h (work running st) = record {
      reached = next h.reached st;
      served = λ o. work-Served p.phase st (h.served o);
    }
    Step-Inv h (end_of_input e empty) = record { reached = h.reached; served = λ o. empty }
    Step-Inv h (signal e) = record { reached = h.reached; served = λ o. absurd cc }
    Step-Inv {p} h (drained e none_left) = record {
      reached = h.reached;
      served = λ o. record {
        at_end = subst (λ ph. Served ph p.stdio) e (h.served o);
        all_returned = none_left;
      };
    }
    Step-Inv h (drain_expired e) = record { reached = h.reached; served = λ o. absurd cc }
    Step-Inv {p} h (stop e) = record {
      reached = h.reached;
      served = λ o. subst (λ ph. Served ph p.stdio) e (h.served o);
    }
    Step-Inv {p} h (waited e none_left) = record {
      reached = h.reached;
      served = λ o. subst (λ ph. Served ph p.stdio) e (h.served o);
    }
    Step-Inv h (wait_expired e) = record { reached = h.reached; served = λ o. absurd cc }
    Step-Inv {p} h (close_log e) = record {
      reached = h.reached;
      served = λ o. subst (λ ph. Served ph p.stdio) e (h.served o);
    }

    -- If main returns without a signal and before a grace period expires, then for every set of request
    -- ids, as many responses with these ids were written, or could not be encoded, as stdin had requests
    -- with them: no request that was read is lost, and none is answered twice.
    pub exited-answers :
        (keeps_id : (acquired : Bool) (ctx : Context) (req : Request) (v : World)
          → (process acquired ctx req v).1.id ≡ req.id)
        (weigh : Option Str → Bool) {p q : Process Http}
        → p.stdio ≡ started input w
        → p.phase ≡ reading
        → Reach shutdown process decode encode p q
        → q.phase ≡ exited
        → q.orderly ≡ true
        → sum_by (id_weight weigh) q.stdio.written + sum_by (id_weight weigh) q.stdio.failed
          ≡ sum_by (line_weight process decode encode weigh) input
    exited-answers keeps_id weigh {p} {q} start first r returned orderly =
        let inv =
          run_keeps Inv (λ t u st h. Step-Inv h st) r
            (record {
              reached =
                  subst (Stdio.Reach process decode encode (started input w)) (sym start) here;
              served = λ o. subst (λ ph. Served ph p.stdio) (sym first) tt;
            }) in
        answers_lem process decode encode weigh keeps_id input w inv.reached
          (subst (λ ph. Served ph q.stdio) returned (inv.served orderly))
