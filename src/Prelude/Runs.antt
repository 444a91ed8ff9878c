-- ===== src/Prelude/Runs.antt =====
-- Runs of a step relation, what they keep, and what bounds their length.
use Prim.Native.Nat.{ℕ, ◌+◌, ◌≤◌, ◌<◌}
use native.Mathlib.Omega.{arith}

-- Any number of steps, one after the other.
pub data Run {ℓ κ} {A : Type ℓ} (Step : A → A → Type κ) (s : A) : A → Type (ℓ ⊔ κ) where
  here : Run Step s s
  next : {t u : A} → Run Step s t → Step t u → Run Step s u

module _ {ℓ κ} {A : Type ℓ} {Step : A → A → Type κ} where
  -- What every step keeps, every run keeps.
  pub run_keeps {ι} :
      (P : A → Type ι) → ((t u : A) → Step t u → P t → P u) → {s t : A} → Run Step s t → P s → P t
  run_keeps P keeps here p = p
  run_keeps P keeps (next r st) p = keeps _ _ st (run_keeps P keeps r p)

  -- One run after another.
  pub Run-append : {s t u : A} → Run Step s t → Run Step t u → Run Step s u
  Run-append r here = r
  Run-append r (next q st) = next (Run-append r q) st

  abbrev pub run_length : {s t : A} → Run Step s t → ℕ
  run_length here = 0
  run_length (next r st) = run_length r + 1

  -- A number that every step lowers bounds the length of every run.
  pub run_length_bounded :
      (left : A → ℕ)
      → ((t u : A) → Step t u → left u < left t)
      → {s t : A} (r : Run Step s t) → run_length r + left t ≤ left s
  run_length_bounded left lowers here = omega arith
  run_length_bounded left lowers (next r st) =
      omega (arith, run_length_bounded left lowers r, lowers _ _ st)
