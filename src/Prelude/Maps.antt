-- ===== src/Prelude/Maps.antt =====
-- Go's map[string]V as an association list. The order of its entries stands for the order in which
-- a `range` loop happens to visit the map.
use mathlib.Core.Path.{sym, subst, ◌≡◌, refl, ◌∙◌}
use mathlib.Core.Bool.{false}
use mathlib.Core.Logic.{inl, inr}
use mathlib.Core.List.{List, [], ◌∷◌, map}
use mathlib.Core.Option.{some-injective, Option, none, some}
use native.Mathlib.Omega.{arith}
use mathlib.Core.Option
use jig_mcp.Prelude.Lists.{All}
use jig_mcp.Prelude.Tests.{if◌then◌else◌, Bool-cases}
use jig_mcp.Prelude.Text.{eq_sound, Str, ◌==◌, eq_iff}

pub eq_sym_false : (j k : Str) → (j == k) ≡ false → (k == j) ≡ false
eq_sym_false j k h = ground (arith, eq_iff j k, eq_iff k j)

abbrev pub Map {ℓ} : Type ℓ → Type ℓ
Map V = List (Str × V)

module _ {ℓ} {V : Type ℓ} where
  -- The entry of a key is the first one that names it.
  unfoldable pub lookup : Str → Map V → Option V
  lookup key [] = none
  lookup key ((name, value) ∷ rest) = if name == key then some value else lookup key rest

  -- The entry of a key is replaced in its place; a new key goes to the end.
  unfoldable pub insert : Str → V → Map V → Map V
  insert key value [] = (key, value) ∷ []
  insert key value ((name, old) ∷ rest) =
      if name == key then (key, value) ∷ rest else (name, old) ∷ insert key value rest

  unfoldable pub delete : Str → Map V → Map V
  delete k [] = []
  delete k ((j, w) ∷ m) = let rest = delete k m in if j == k then rest else (j, w) ∷ rest

  abbrev pub keys : Map V → List Str
  keys m = map (λ e. e.0) m

  pub lookup-insert :
      (key other : Str) (value : V) (rest : Map V)
      → lookup other (insert key value rest)
        ≡ (if key == other then some value else lookup other rest)
  unfolding lookup insert
  lookup-insert key other value [] = refl
  lookup-insert key other value ((name, old) ∷ rest) = ground (
    arith,
    eq_iff key other,
    eq_iff name key,
    eq_iff name other,
    lookup-insert key other value rest,
  )

  pub lookup-delete :
      (k j : Str) (m : Map V) → lookup j (delete k m) ≡ (if k == j then none else lookup j m)
  unfolding lookup delete
  lookup-delete k j [] = ground arith
  lookup-delete k j ((i, w) ∷ m) =
      ground (arith, eq_iff k j, eq_iff i k, eq_iff i j, lookup-delete k j m)

pub ruleset map_laws = (lookup-insert, lookup-delete)

-- What all entries of a map have.
module _ {ℓ κ} {V : Type ℓ} (P : Str → V → Type κ) where
  abbrev pub AllEntries : Map V → Type κ
  AllEntries m = All (λ e. P e.0 e.1) m

  pub AllEntries-insert :
      (k : Str) (v : V) (m : Map V) → P k v → AllEntries m → AllEntries (insert k v m)
  unfolding insert
  AllEntries-insert k v [] p h = (p, tt)
  AllEntries-insert k v ((j, w) ∷ m) p (q, h) = elim (Bool-cases (j == k)) [
    | inl e ↦ rw e (p, h)
    | inr e ↦ rw e (q, AllEntries-insert k v m p h)
  ]

  pub AllEntries-lookup : (k : Str) {v : V} (m : Map V) → AllEntries m → lookup k m ≡ some v → P k v
  unfolding lookup
  AllEntries-lookup k [] h e = absurd cc
  AllEntries-lookup k {v} ((j, w) ∷ m) (q, h) e = elim (Bool-cases (j == k)) [
    | inl here ↦
        subst (P k) (some-injective w v (rw here at e)) (subst (λ x. P x w) (eq_sound j k here) q)
    | inr there ↦ AllEntries-lookup k m h (rw there at e)
  ]

  pub AllEntries-map :
      (f : V → V) (m : Map V)
      → ((k : Str) (v : V) → P k v → P k (f v))
      → AllEntries m
      → AllEntries (map (λ e. (e.0, f e.1)) m)
  AllEntries-map f [] step h = tt
  AllEntries-map f ((k, v) ∷ m) step (p, h) = (step k v p, AllEntries-map f m step h)

pub lookup-map {ℓ} :
    {V : Type ℓ} (f : V → V) (k : Str) (m : Map V)
    → lookup k (map (λ e. (e.0, f e.1)) m) ≡ Option.map f (lookup k m)
unfolding lookup
lookup-map f k [] = refl
lookup-map f k ((j, v) ∷ m) = ground (arith, lookup-map f k m)

-- What the entry of a key has.
module _ {ℓ κ} {V : Type ℓ} (P : V → Type κ) where
  abbrev pub HasAt : Str → Map V → Type (ℓ ⊔ κ)
  HasAt k m = (v : V) × (lookup k m ≡ some v) × P v

  pub HasAt-insert :
      (j : Str) (w : V) (k : Str) (m : Map V)
      → ((v : V) → lookup j m ≡ some v → P v → P w)
      → HasAt k m
      → HasAt k (insert j w m)
  HasAt-insert j w k m keeps (v, there, p) = elim (Bool-cases (j == k)) [
    | inl same ↦ (
      w,
      lookup-insert j k w m ∙ rw same refl,
      keeps v (subst (λ i. lookup i m ≡ some v) (sym ((eq_iff j k).0 same)) there) p,
    )
    | inr other ↦ (v, lookup-insert j k w m ∙ rw other there, p)
  ]

  pub HasAt-map :
      (f : V → V) (k : Str) (m : Map V)
      → ((v : V) → P v → P (f v))
      → HasAt k m
      → HasAt k (map (λ e. (e.0, f e.1)) m)
  HasAt-map f k m keeps (v, there, p) = (f v, lookup-map f k m ∙ rw there refl, keeps v p)

-- The keys of a map are distinct, as those of a Go map are.
module _ {ℓ} {V : Type ℓ} where
  abbrev pub IsMap : Map V → Type ℓ
  IsMap [] = Unit
  IsMap ((k, v) ∷ m) = (lookup k m ≡ none) × IsMap m

module _ {ℓ} {V : Type ℓ} where
  pub insert-IsMap : (k : Str) (v : V) (m : Map V) → IsMap m → IsMap (insert k v m)
  unfolding insert lookup
  insert-IsMap k v [] h = (refl, tt)
  insert-IsMap k v ((j, w) ∷ m) (fresh, h) = elim (Bool-cases (j == k)) [
    | inl e ↦ rw e (rw ((eq_iff j k).0 e) at fresh, h)
    | inr e ↦ rw e (lookup-insert k j v m ∙ cc (fresh, eq_sym_false j k e), insert-IsMap k v m h)
  ]

  pub delete-IsMap : (k : Str) (m : Map V) → IsMap m → IsMap (delete k m)
  unfolding delete lookup
  delete-IsMap k [] h = tt
  delete-IsMap k ((j, w) ∷ m) (fresh, h) = elim (Bool-cases (j == k)) [
    | inl e ↦ rw e (delete-IsMap k m h)
    | inr e ↦ rw e (lookup-delete k j m ∙ cc (fresh, eq_sym_false j k e), delete-IsMap k m h)
  ]
