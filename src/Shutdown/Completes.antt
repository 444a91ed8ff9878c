-- ===== src/Shutdown/Completes.antt =====
-- Main can always come to its end.
use jig_mcp.Prelude.{
  inr, inl, Bool-cases, false, ◌∙◌, Str, Bool, true, ◌≡◌, refl, ap, sum_by, here, next, Run-append,
}
use jig_mcp.Prelude.Result.{Result}
use jig_mcp.Auth.Caller.{Context}
use jig_mcp.Server.Call.{World}
use jig_mcp.Server.{Request, Response}
use jig_mcp.Stdio.{Stdio, IsDone}
use jig_mcp.Stdio
use jig_mcp.Stdio.Progress.{finish}
use jig_mcp.Shutdown.{
  Phase, reading, draining, stopping, waiting, closing, exited, is_running, Process, in_flight,
  stop_servers, Step, work, end_of_input, drained, stop, waited, close_log, Reach,
}

module _ {ℓ} {Http : Type ℓ} (shutdown : Http → Http)
    (process : Bool → Context → Request → World → World × Response) (decode : Str → Result Request)
    (encode : Response → Result Str) where
  -- A run to the end, in which nothing expires and no signal comes.
  abbrev Ends : Process Http → Type ℓ
  Ends p =
      (q : Process Http) × Reach shutdown process decode encode p q
      × (q.phase ≡ exited)
      × (q.orderly ≡ p.orderly)

  -- A step that keeps `orderly`, then such a run.
  first_step :
      {p q : Process Http}
      → Step shutdown process decode encode p q
      → q.orderly ≡ p.orderly
      → Ends q
      → Ends p
  first_step st same (r, run, at_end, orderly) =
      (r, Run-append (next here st) run, at_end, orderly ∙ same)

  from_closing : (p : Process Http) → p.phase ≡ closing → Ends p
  from_closing p e = (_, next here (close_log e), refl, refl)

  from_waiting : (p : Process Http) → p.phase ≡ waiting → IsDone p.stdio → Ends p
  unfolding in_flight sum_by
  from_waiting p e done =
      first_step (waited e (ap (sum_by _) done.all_returned)) refl
        (from_closing (record p { phase = closing }) refl)

  from_stopping : (p : Process Http) → p.phase ≡ stopping → IsDone p.stdio → Ends p
  unfolding stop_servers
  from_stopping p e done =
      first_step (stop e) refl
        (from_waiting (record (stop_servers shutdown p) { phase = waiting }) refl done)

  from_draining : (p : Process Http) → p.phase ≡ draining → IsDone p.stdio → Ends p
  from_draining p e done =
      first_step (drained e done.all_returned) refl
        (from_stopping (record p { phase = stopping }) refl done)

  from_done : (p : Process Http) (ph : Phase) → p.phase ≡ ph → IsDone p.stdio → Ends p
  from_done p reading e done =
      first_step (end_of_input e done.at_end) refl
        (from_draining (record p { phase = draining }) refl done)
  from_done p draining e done = from_draining p e done
  from_done p stopping e done = from_stopping p e done
  from_done p waiting e done = from_waiting p e done
  from_done p closing e done = from_closing p e
  from_done p exited e done = (p, here, e, refl)

  lift_run :
      (p : Process Http) {t : Stdio}
      → is_running p.phase ≡ true
      → Stdio.Reach process decode encode p.stdio t
      → Reach shutdown process decode encode p (record p { stdio = t })
  lift_run p running here = here
  lift_run p running (next r st) = next (lift_run p running r) (work running st)

  -- From every state, in whatever phase and with whatever lines and goroutines left, main can come to its
  -- end without a signal or an expired grace period on the way.
  pub main_completes :
      (p : Process Http)
      → (q : Process Http) × Reach shutdown process decode encode p q
        × (q.phase ≡ exited)
        × (q.orderly ≡ p.orderly)
  main_completes p = elim (Bool-cases (is_running p.phase)) [
    | inl running ↦
        let (t, r, done) = finish process decode encode p.stdio in
        let (q, run, at_end, orderly) = from_done (record p { stdio = t }) p.phase refl done in
        (q, Run-append (lift_run p running r) run, at_end, orderly)
    | inr over ↦ (p, here, has_exited p.phase refl over, refl)
  ]
    where
      has_exited : (ph : Phase) → p.phase ≡ ph → is_running p.phase ≡ false → p.phase ≡ exited
      has_exited exited e over = e
      has_exited reading e over = absurd cc
      has_exited draining e over = absurd cc
      has_exited stopping e over = absurd cc
      has_exited waiting e over = absurd cc
      has_exited closing e over = absurd cc
