-- ===== src/Prelude/Split.antt =====
-- Laws of splitting, cutting and trimming a text.
use Prim.Native.Nat.{ℕ}
use mathlib.Core.Path.{◌≡◌, refl}
use mathlib.Core.Logic.{◌≢◌, inl, inr}
use mathlib.Core.List.{List, [], ◌∷◌, ◌++◌}
use mathlib.Core.Bool.{true, false, ◌||◌}
use mathlib.Core.Option.{some}
use native.Mathlib.Omega.{arith}
use jig_mcp.Prelude.Tests.{eqb, Bool-cases, Option-cases}
use jig_mcp.Prelude.Lists.{All}
use jig_mcp.Prelude.Text.{has_prefix, Str, has_byte, split, push_front, cut}

module _ (sep : ℕ) where
  pub split_of_no_sep : (s : Str) → has_byte sep s ≡ false → split sep s ≡ s ∷ []
  unfolding split has_byte
  split_of_no_sep [] h = refl
  split_of_no_sep (a ∷ s) h = ground (arith, split_of_no_sep s)

  pub split-append :
      (s t : Str) → has_byte sep s ≡ false → split sep (s ++ sep ∷ t) ≡ s ∷ split sep t
  unfolding split has_byte
  split-append [] t h = ground arith
  split-append (a ∷ s) t h = ground (arith, split-append s t)

  push_front-All :
      (a : ℕ) (ps : List Str)
      → eqb a sep ≡ false
      → All (λ p. has_byte sep p ≡ false) ps
      → All (λ p. has_byte sep p ≡ false) (push_front a ps)
  unfolding has_byte
  push_front-All a [] e h = ground arith
  push_front-All a (p ∷ ps) e h = ground arith

  pub split-All_no_sep : (s : Str) → All (λ p. has_byte sep p ≡ false) (split sep s)
  unfolding split has_byte
  split-All_no_sep [] = (refl, tt)
  split-All_no_sep (a ∷ s) = elim (Bool-cases (eqb a sep)) [
    | inl e ↦ rw e (refl, split-All_no_sep s)
    | inr e ↦ rw e (push_front-All a (split sep s) e (split-All_no_sep s))
  ]

  pub cut-append : (l r : Str) → has_byte sep l ≡ false → cut sep (l ++ sep ∷ r) ≡ some (l, r)
  unfolding cut has_byte
  cut-append [] r h = ground arith
  cut-append (a ∷ l) r h = ground (arith, cut-append l r)

  pub cut_sound :
      (s l r : Str) → cut sep s ≡ some (l, r) → (s ≡ l ++ sep ∷ r) × (has_byte sep l ≡ false)
  unfolding cut has_byte
  cut_sound [] l r h = absurd (ground arith)
  cut_sound (a ∷ s) [] r h = elim (Option-cases (cut sep s)) [
    | inl e ↦ ground arith
    | inr (p, e) ↦ ground arith
  ]
  cut_sound (a ∷ s) (b ∷ l) r h = ground (arith, cut_sound s l r)

module _ (c : ℕ) where
  pub has_byte-append : (s t : Str) → has_byte c (s ++ t) ≡ (has_byte c s || has_byte c t)
  unfolding has_byte
  has_byte-append [] t = refl
  has_byte-append (a ∷ s) t = ground (arith, has_byte-append s t)

pub append-ne-nil : (s : Str) (c : ℕ) (t : Str) → s ++ (c ∷ t) ≢ []
append-ne-nil [] c t h = cc
append-ne-nil (a ∷ s) c t h = cc

-- strings.HasPrefix holds exactly if the text is the prefix and a rest.
pub has_prefix_sound : (s p : Str) → has_prefix s p ≡ true → (rest : Str) × (s ≡ p ++ rest)
unfolding has_prefix
has_prefix_sound s [] h = (s, refl)
has_prefix_sound [] (b ∷ p) h = cc
has_prefix_sound (a ∷ s) (b ∷ p) h =
    let (rest, e) = has_prefix_sound s p (ground arith) in (rest, ground arith)

pub has_prefix-append : (p rest : Str) → has_prefix (p ++ rest) p ≡ true
unfolding has_prefix
has_prefix-append [] rest = refl
has_prefix-append (a ∷ p) rest = ground (arith, has_prefix-append p rest)
