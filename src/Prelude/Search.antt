-- ===== src/Prelude/Search.antt =====
-- Finding a text in a text: what the test `contains` decides.
use mathlib.Core.Path.{◌≡◌, refl}
use mathlib.Core.Logic.{◌↔◌, inl, inr}
use mathlib.Core.Bool.{true}
use mathlib.Core.List.{[], ◌∷◌, ◌++◌}
use native.Mathlib.Omega.{arith}
use jig_mcp.Prelude.Tests.{Bool-cases}
use jig_mcp.Prelude.Text.{Str, has_prefix, contains}
use jig_mcp.Prelude.Split.{has_prefix_sound, has_prefix-append}

-- `p` stands somewhere in `s`.
abbrev pub Occurs : Str → Str → Type 0
Occurs p s = (before : Str) × (after : Str) × (s ≡ before ++ (p ++ after))

contains-has_prefix : (s p : Str) → has_prefix s p ≡ true → contains s p ≡ true
unfolding contains
contains-has_prefix [] p e = e
contains-has_prefix (a ∷ s) p e = rw e refl

contains-append : (before p after : Str) → contains (before ++ (p ++ after)) p ≡ true
unfolding contains
contains-append [] p after = contains-has_prefix (p ++ after) p (has_prefix-append p after)
contains-append (a ∷ before) p after = ground (arith, contains-append before p after)

pub contains_sound : (s p : Str) → contains s p ≡ true → Occurs p s
unfolding contains
contains_sound [] p e = let (after, q) = has_prefix_sound [] p e in ([], after, q)
contains_sound (a ∷ s) p e = elim (Bool-cases (has_prefix (a ∷ s) p)) [
  | inl here ↦ let (after, q) = has_prefix_sound (a ∷ s) p here in ([], after, q)
  | inr later ↦
      let (before, after, q) = contains_sound s p (ground (arith, e, later)) in
      (a ∷ before, after, λ i. a ∷ q i)
]

pub contains_iff : (s p : Str) → (contains s p ≡ true) ↔ Occurs p s
contains_iff s p = (contains_sound s p, λ (before, after, q). rw q (contains-append before p after))
