-- ===== src/Prelude/Sort.antt =====
-- A stable insertion sort, the meaning of sort.Slice, sort.SliceStable and sort.Strings, and Go's order on
-- strings.
use Prim.Native.Nat.{suc}
use mathlib.Core.Path.{◌≡◌, refl, ◌∙◌}
use mathlib.Core.Logic.{inl, inr}
use mathlib.Core.Bool.{Bool, true, false, ◌&&◌, ◌||◌}
use mathlib.Core.List.{List, [], ◌∷◌, Perm}
use mathlib.Core.List.Perm
use native.Mathlib.Omega.{arith}
use jig_mcp.Prelude.Lists.{length}
use jig_mcp.Prelude.Tests.{Bool-cases, ltb, eqb, if◌then◌else◌}
use jig_mcp.Prelude.Text.{Str}

-- Go's < on strings.
unfoldable pub less : Str → Str → Bool
less [] [] = false
less [] (b ∷ t) = true
less (a ∷ s) [] = false
less (a ∷ s) (b ∷ t) = ltb a b || (eqb a b && less s t)

pub less_asymm : (s t : Str) → less s t ≡ true → less t s ≡ false
unfolding less
less_asymm [] [] h = refl
less_asymm [] (b ∷ t) h = refl
less_asymm (a ∷ s) [] h = cc
less_asymm (a ∷ s) (b ∷ t) h = ground (arith, less_asymm s t)

pub less_irrefl : (s : Str) → less s s ≡ false
unfolding less
less_irrefl [] = refl
less_irrefl (a ∷ s) = ground (arith, less_irrefl s)

-- `before` is the test that the sort is given.
module _ {ℓ} {A : Type ℓ} (before : A → A → Bool) where
  unfoldable pub insert_sorted : A → List A → List A
  insert_sorted a [] = a ∷ []
  insert_sorted a (b ∷ bs) =
      let rest = insert_sorted a bs in if before b a then b ∷ rest else a ∷ b ∷ bs

  unfoldable pub sort_by : List A → List A
  sort_by [] = []
  sort_by (a ∷ as_rest) = insert_sorted a (sort_by as_rest)

  -- Nothing comes before what stands in front of it.
  abbrev pub IsSortedBy : List A → Type 0
  IsSortedBy [] = Unit
  IsSortedBy (a ∷ []) = Unit
  IsSortedBy (a ∷ b ∷ bs) = (before b a ≡ false) × IsSortedBy (b ∷ bs)

  insert_sorted-perm : (a : A) (bs : List A) → Perm (insert_sorted a bs) (a ∷ bs)
  unfolding insert_sorted
  insert_sorted-perm a [] = Perm.refl (a ∷ [])
  insert_sorted-perm a (b ∷ bs) = elim (Bool-cases (before b a)) [
    | inl h ↦ rw h (Perm.trans (Perm.cons b (insert_sorted-perm a bs)) (Perm.swap a b bs))
    | inr h ↦ rw h (Perm.refl (a ∷ b ∷ bs))
  ]

  pub sort_by-perm : (xs : List A) → Perm (sort_by xs) xs
  unfolding sort_by
  sort_by-perm [] = Perm.refl []
  sort_by-perm (a ∷ xs) =
      Perm.trans (insert_sorted-perm a (sort_by xs)) (Perm.cons a (sort_by-perm xs))

  length-insert_sorted : (a : A) (bs : List A) → length (insert_sorted a bs) ≡ suc (length bs)
  unfolding insert_sorted
  length-insert_sorted a [] = refl
  length-insert_sorted a (b ∷ bs) = ground (arith, length-insert_sorted a bs)

  pub length-sort_by : (xs : List A) → length (sort_by xs) ≡ length xs
  unfolding sort_by
  length-sort_by [] = refl
  length-sort_by (a ∷ xs) = omega (arith, length-insert_sorted a (sort_by xs), length-sort_by xs)

  module _ (asymm : (a b : A) → before a b ≡ true → before b a ≡ false) where
    insert_sorted-IsSortedBy :
        (a : A) (bs : List A) → IsSortedBy bs → IsSortedBy (insert_sorted a bs)
    unfolding insert_sorted
    insert_sorted-IsSortedBy a [] h = tt
    insert_sorted-IsSortedBy a (b ∷ []) h = elim (Bool-cases (before b a)) [
      | inl e ↦ rw e (asymm b a e, tt)
      | inr e ↦ rw e (e, tt)
    ]
    insert_sorted-IsSortedBy a (b ∷ c ∷ bs) (bc, h) = elim (Bool-cases (before b a)) [
      | inl e ↦ elim (Bool-cases (before c a)) [
        | inl f ↦ rw (e, f) (bc, rw f at (insert_sorted-IsSortedBy a (c ∷ bs) h))
        | inr f ↦ rw (e, f) (asymm b a e, (f, h))
      ]
      | inr e ↦ rw e (e, (bc, h))
    ]

    pub sort_by-IsSortedBy : (xs : List A) → IsSortedBy (sort_by xs)
    unfolding sort_by
    sort_by-IsSortedBy [] = tt
    sort_by-IsSortedBy (a ∷ xs) = insert_sorted-IsSortedBy a (sort_by xs) (sort_by-IsSortedBy xs)

-- The elements that pass a test, in their order.
abbrev pub select {ℓ} : {A : Type ℓ} → (A → Bool) → List A → List A
select same [] = []
select same (a ∷ xs) = if same a then a ∷ select same xs else select same xs

-- Elements of which none comes before another keep their order.
module _ {ℓ} {A : Type ℓ} (before : A → A → Bool) (same : A → Bool)
    (level : (a b : A) → same a ≡ true → same b ≡ true → before a b ≡ false) where
  insert_sorted-select :
      (a : A) (bs : List A) → select same (insert_sorted before a bs) ≡ select same (a ∷ bs)
  unfolding insert_sorted
  insert_sorted-select a [] = refl
  insert_sorted-select a (b ∷ bs) = ground (arith, level b a, insert_sorted-select a bs)

  pub sort_by-select : (xs : List A) → select same (sort_by before xs) ≡ select same xs
  unfolding sort_by
  sort_by-select [] = refl
  sort_by-select (a ∷ xs) =
      insert_sorted-select a (sort_by before xs) ∙ ground (arith, sort_by-select xs)
