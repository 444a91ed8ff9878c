-- ===== src/Prelude/Lists.antt =====
-- Lists measured by native numbers, and predicates on lists by recursion.
use Prim.Native.Nat.{ℕ, zero, suc, ◌+◌, ◌≤◌, min}
use mathlib.Core.Path.{◌≡◌, refl}
use mathlib.Core.Logic.{◌⊎◌, inl, inr}
use mathlib.Core.List.{List, [], ◌∷◌, ◌++◌}
use mathlib.Core.Bool.{Bool, true, false, ◌&&◌, ◌||◌}
use native.Mathlib.Omega.{arith}

module _ {ℓ} {A : Type ℓ} where
  abbrev pub length : List A → ℕ
  length [] = 0
  length (x ∷ xs) = suc (length xs)

  abbrev pub take : ℕ → List A → List A
  take zero xs = []
  take (suc n) [] = []
  take (suc n) (x ∷ xs) = x ∷ take n xs

  abbrev pub drop : ℕ → List A → List A
  drop zero xs = xs
  drop (suc n) [] = []
  drop (suc n) (x ∷ xs) = drop n xs

  abbrev pub any : (A → Bool) → List A → Bool
  any p [] = false
  any p (x ∷ xs) = p x || any p xs

  abbrev pub all : (A → Bool) → List A → Bool
  all p [] = true
  all p (x ∷ xs) = p x && all p xs

  abbrev pub is_empty : List A → Bool
  is_empty [] = true
  is_empty (_ ∷ _) = false

  pub length-append : (xs ys : List A) → length (xs ++ ys) ≡ length xs + length ys
  length-append [] ys = omega arith
  length-append (x ∷ xs) ys = omega (arith, length-append xs ys)

  pub length-take : (n : ℕ) (xs : List A) → length (take n xs) ≡ min n (length xs)
  length-take zero xs = omega arith
  length-take (suc n) [] = omega arith
  length-take (suc n) (x ∷ xs) = omega (arith, length-take n xs)

  pub take-length_le : (n : ℕ) (xs : List A) → length xs ≤ n → take n xs ≡ xs
  take-length_le zero [] h = refl
  take-length_le zero (x ∷ xs) h = absurd (omega arith)
  take-length_le (suc n) [] h = refl
  take-length_le (suc n) (x ∷ xs) h = λ i. x ∷ take-length_le n xs (omega arith) i

  pub take-append-drop : (n : ℕ) (xs : List A) → take n xs ++ drop n xs ≡ xs
  take-append-drop zero xs = refl
  take-append-drop (suc n) [] = refl
  take-append-drop (suc n) (x ∷ xs) = λ i. x ∷ take-append-drop n xs i

module _ {ℓ κ} {A : Type ℓ} (P : A → Type κ) where
  abbrev pub All : List A → Type κ
  All [] = Unit
  All (x ∷ xs) = P x × All xs

  pub All-append : (xs ys : List A) → All xs → All ys → All (xs ++ ys)
  All-append [] ys hx hy = hy
  All-append (x ∷ xs) ys (p, hx) hy = (p, All-append xs ys hx hy)

  -- An element apart from the others, and one put between them.
  pub All-take_out :
      (before : List A) (x : A) (after : List A)
      → All (before ++ (x ∷ after))
      → P x × All (before ++ after)
  All-take_out [] x after (p, h) = (p, h)
  All-take_out (b ∷ before) x after (q, h) =
      let (p, rest) = All-take_out before x after h in (p, (q, rest))

  pub All-put_in :
      (before : List A) (x : A) (after : List A)
      → P x
      → All (before ++ after)
      → All (before ++ (x ∷ after))
  All-put_in [] x after p h = (p, h)
  All-put_in (b ∷ before) x after p (q, h) = (q, All-put_in before x after p h)

module _ {ℓ} {A : Type ℓ} (P : A → Type 0) where
  abbrev pub Any : List A → Type 0
  Any [] = ⊥
  Any (x ∷ xs) = P x ⊎ Any xs

  pub Any-append_left : (xs ys : List A) → Any xs → Any (xs ++ ys)
  Any-append_left [] ys h = absurd h
  Any-append_left (x ∷ xs) ys (inl p) = inl p
  Any-append_left (x ∷ xs) ys (inr h) = inr (Any-append_left xs ys h)

  pub Any-append_right : (xs ys : List A) → Any ys → Any (xs ++ ys)
  Any-append_right [] ys h = h
  Any-append_right (x ∷ xs) ys h = inr (Any-append_right xs ys h)

pub All-imp {ℓ κ ι} :
    {A : Type ℓ} (P : A → Type κ) (Q : A → Type ι) (xs : List A)
    → ((x : A) → P x → Q x)
    → All P xs
    → All Q xs
All-imp P Q [] f h = tt
All-imp P Q (x ∷ xs) f (p, h) = (f x p, All-imp P Q xs f h)

-- The sum of the weights of the elements.
module _ {ℓ} {A : Type ℓ} (weight : A → ℕ) where
  unfoldable pub sum_by : List A → ℕ
  sum_by [] = 0
  sum_by (x ∷ xs) = weight x + sum_by xs

  pub sum_by-append : (xs ys : List A) → sum_by (xs ++ ys) ≡ sum_by xs + sum_by ys
  unfolding sum_by
  sum_by-append [] ys = omega arith
  sum_by-append (x ∷ xs) ys = omega (arith, sum_by-append xs ys)

  pub sum_by-snoc : (xs : List A) (x : A) → sum_by (xs ++ (x ∷ [])) ≡ sum_by xs + weight x
  unfolding sum_by
  sum_by-snoc xs x = omega (arith, sum_by-append xs (x ∷ []))

  -- The weight of the element in the middle, apart.
  pub sum_by-middle :
      (before : List A) (x : A) (after : List A)
      → sum_by (before ++ (x ∷ after)) ≡ sum_by before + (weight x + sum_by after)
  unfolding sum_by
  sum_by-middle before x after = sum_by-append before (x ∷ after)

  pub sum_by_of_eq :
      (xs before : List A) (x : A) (after : List A)
      → xs ≡ before ++ (x ∷ after)
      → sum_by xs ≡ sum_by before + (weight x + sum_by after)
  sum_by_of_eq xs before x after e = rw e (sum_by-middle before x after)
