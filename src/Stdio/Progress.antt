-- ===== src/Stdio/Progress.antt =====
-- The loop and its goroutines come to an end.
use jig_mcp.Prelude.{
  here, next, ap, ◌⊎◌, zero, ℕ, suc, ◌+◌, ◌*◌, ◌≤◌, ◌<◌, Str, List, [], ◌∷◌, Bool, true, sum_by,
  sum_by-append, sum_by-snoc, sum_by-middle, sum_by_of_eq, length, Option-cases, ◌≡◌, refl, inl,
  inr, arith,
}
use jig_mcp.Prelude.Result.{Result, ok, err}
use jig_mcp.Auth.Caller.{Context}
use jig_mcp.Server.Call.{World}
use jig_mcp.Server.{Request, Response}
use jig_mcp.Stdio.{
  stdio_ctx, Worker, Stdio, queued, serving, answered, accepted, Step, read, ignore, accept,
  respond, write, give_up, Reach, started, IsDone,
}

-- The steps that a line and a goroutine have still before them, at most.
abbrev line_steps : Str → ℕ
line_steps line = 4

abbrev worker_steps : Worker → ℕ
worker_steps (queued line) = 3
worker_steps (serving req) = 2
worker_steps (answered resp) = 1

pub steps_left : Stdio → ℕ
steps_left s = sum_by line_steps s.input + sum_by worker_steps s.workers

module _ (process : Bool → Context → Request → World → World × Response)
    (decode : Str → Result Request) (encode : Response → Result Str) where
  pub Step-decreases : {s t : Stdio} → Step process decode encode s t → steps_left t < steps_left s
  unfolding steps_left sum_by
  Step-decreases {s} (read line rest e) = omega (
    arith,
    sum_by_of_eq line_steps s.input [] line rest e,
    sum_by-snoc worker_steps s.workers (queued line),
  )
  Step-decreases {s} (ignore before after line e dropped) = omega (
    arith,
    sum_by_of_eq worker_steps s.workers before (queued line) after e,
    sum_by-append worker_steps before after,
  )
  Step-decreases {s} (accept before after line req e taken) = omega (
    arith,
    sum_by_of_eq worker_steps s.workers before (queued line) after e,
    sum_by-middle worker_steps before (serving req) after,
  )
  Step-decreases {s} (respond before after req acquired e) = omega (
    arith,
    sum_by_of_eq worker_steps s.workers before (serving req) after e,
    sum_by-middle worker_steps before (answered (process acquired stdio_ctx req s.world).1) after,
  )
  Step-decreases {s} (write before after resp out e encoded) = omega (
    arith,
    sum_by_of_eq worker_steps s.workers before (answered resp) after e,
    sum_by-append worker_steps before after,
  )
  Step-decreases {s} (give_up before after resp reason e encoded) = omega (
    arith,
    sum_by_of_eq worker_steps s.workers before (answered resp) after e,
    sum_by-append worker_steps before after,
  )

  sum_by-line_steps : (ls : List Str) → sum_by line_steps ls ≡ 4 * length ls
  unfolding sum_by
  sum_by-line_steps [] = refl
  sum_by-line_steps (l ∷ ls) = omega (arith, sum_by-line_steps ls)

  pub steps_left-started :
      (input : List Str) (w : World) → steps_left (started input w) ≡ 4 * length input
  unfolding steps_left started sum_by
  steps_left-started input w = omega (arith, sum_by-line_steps input)

  pub steps_left-IsDone : (s : Stdio) → IsDone s → steps_left s ≡ 0
  unfolding steps_left sum_by
  steps_left-IsDone s done =
      omega (arith, ap (sum_by line_steps) done.at_end, ap (sum_by worker_steps) done.all_returned)

  worker_step :
      (s : Stdio) (w : Worker) (ws : List Worker)
      → s.workers ≡ w ∷ ws
      → (t : Stdio) × Step process decode encode s t
  worker_step s (queued line) ws e = elim (Option-cases (accepted process decode encode line)) [
    | inl dropped ↦ (_, ignore [] ws line e dropped)
    | inr (req, taken) ↦ (_, accept [] ws line req e taken)
  ]
  worker_step s (serving req) ws e = (_, respond [] ws req true e)
  worker_step s (answered resp) ws e = by_encoding (encode resp) refl
    where
      by_encoding :
          (r : Result Str) → encode resp ≡ r → (t : Stdio) × Step process decode encode s t
      by_encoding (ok out) f = (_, write [] ws resp out e f)
      by_encoding (err reason) f = (_, give_up [] ws resp reason e f)

  -- Done, or one step further.
  pub can_step : (s : Stdio) → IsDone s ⊎ ((t : Stdio) × Step process decode encode s t)
  can_step s = by_input s.input s.workers refl refl
    where
      by_input :
          (ls : List Str) (ws : List Worker)
          → s.input ≡ ls
          → s.workers ≡ ws
          → IsDone s ⊎ ((t : Stdio) × Step process decode encode s t)
      by_input (l ∷ ls) ws e f = inr (_, read l ls e)
      by_input [] [] e f = inl (record { at_end = e; all_returned = f })
      by_input [] (w ∷ ws) e f = inr (worker_step s w ws f)

  finish_within :
      (fuel : ℕ) {s u : Stdio}
      → Reach process decode encode u s
      → steps_left s ≤ fuel
      → (t : Stdio) × Reach process decode encode u t × IsDone t
  finish_within zero {s} r h = elim (can_step s) [
    | inl done ↦ (s, r, done)
    | inr (t, st) ↦ absurd (omega (arith, h, Step-decreases st))
  ]
  finish_within (suc fuel) {s} r h = elim (can_step s) [
    | inl done ↦ (s, r, done)
    | inr (t, st) ↦ finish_within fuel (next r st) (omega (arith, h, Step-decreases st))
  ]

  -- From every state the loop and all its goroutines can run to their end.
  pub finish : (s : Stdio) → (t : Stdio) × Reach process decode encode s t × IsDone t
  finish s = finish_within (steps_left s) here (omega arith)
