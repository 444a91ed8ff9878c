-- ===== src/Server/Listing.antt =====
-- The answer to "tools/list".
use mathlib.Core.List.{Perm}
use jig_mcp.Prelude.{
  Str, Map, none, [], ◌∷◌, ◌++◌, ◌==◌, false, ◌≡◌, ◌∙◌, refl, ap, sym, append_assoc, append-nil,
  subst, lookup, insert, map, IsSortedBy, All, eq_iff, Bool-cases, inl, inr, arith,
}
use jig_mcp.Tools.Registry.{Tool, Registry, copy_from, get_tools, tool_definition}
use jig_mcp.Server.{definitions, list_tools}
use jig_mcp.Server.Sort.{by_name, sort_by_name-IsSortedBy, sort_by_name-perm}

-- Every name is bound once, as in a Go map.
abbrev pub IsMap : Map Tool → Type 0
IsMap [] = Unit
IsMap ((k, t) ∷ m) = (lookup k m ≡ none) × IsMap m

abbrev Absent : Map Tool → Map Tool → Type 0
Absent acc m = All (λ (e : Str × Tool). lookup e.0 acc ≡ none) m

insert_new :
    (k : Str) (t : Tool) (acc : Map Tool)
    → lookup k acc ≡ none
    → insert k t acc ≡ acc ++ ((k, t) ∷ [])
unfolding insert lookup
insert_new k t [] h = refl
insert_new k t ((j, u) ∷ acc) h = elim (Bool-cases (j == k)) [
  | inl same ↦ absurd (ground (arith, same, h))
  | inr other ↦
      rw other (ap (λ (m : Map Tool). (j, u) ∷ m) (insert_new k t acc (ground (arith, other, h))))
]

-- A name that is bound neither in the first map nor by the new pair.
lookup-snoc :
    (j k : Str) (t : Tool) (acc : Map Tool)
    → lookup j acc ≡ none
    → (k == j) ≡ false
    → lookup j (acc ++ ((k, t) ∷ [])) ≡ none
unfolding lookup
lookup-snoc j k t [] h other = ground (arith, other)
lookup-snoc j k t ((i, u) ∷ acc) h other = ground (arith, h, lookup-snoc j k t acc)

-- The names of `m` are other than `k`, and stay absent when `k` is added.
Absent-snoc :
    (k : Str) (t : Tool) (acc m : Map Tool)
    → lookup k m ≡ none
    → Absent acc m
    → Absent (acc ++ ((k, t) ∷ [])) m
unfolding lookup
Absent-snoc k t acc [] e h = tt
Absent-snoc k t acc ((j, u) ∷ m) e (h, hs) = elim (Bool-cases (j == k)) [
  | inl same ↦ absurd (ground (arith, same, e))
  | inr other ↦ (
    lookup-snoc j k t acc h (not_same j other),
    Absent-snoc k t acc m (ground (arith, other, e)) hs,
  )
]
  where
    not_same : (i : Str) → (i == k) ≡ false → (k == i) ≡ false
    not_same i other = ground (arith, other, eq_iff i k, eq_iff k i)

copy_from-append : (acc m : Map Tool) → IsMap m → Absent acc m → copy_from acc m ≡ acc ++ m
unfolding copy_from
copy_from-append acc [] d h = sym (append-nil acc)
copy_from-append acc ((k, t) ∷ m) (e, d) (h, hs) =
    ap (λ (a : Map Tool). copy_from a m) (insert_new k t acc h)
    ∙ copy_from-append (acc ++ ((k, t) ∷ [])) m d (Absent-snoc k t acc m e hs)
    ∙ append_assoc acc ((k, t) ∷ []) m

none_bound : (m : Map Tool) → Absent [] m
unfolding lookup
none_bound [] = tt
none_bound (e ∷ m) = (refl, none_bound m)

get_tools-same : (r : Registry) → IsMap r.tools → get_tools r ≡ r.tools
unfolding get_tools
get_tools-same r d = copy_from-append [] r.tools d (none_bound r.tools)

-- For a registry that binds each name once: the list of tools is sorted by name and holds the definition of
-- every registered tool exactly once, and nothing else.
pub list_tools_lem :
    (r : Registry)
    → IsMap r.tools
    → IsSortedBy by_name (list_tools r)
      × Perm (list_tools r) (map (λ (e : Str × Tool). tool_definition e.1) r.tools)
unfolding list_tools
list_tools_lem r d = (
  sort_by_name-IsSortedBy (definitions (get_tools r)),
  subst (λ (m : Map Tool). Perm (list_tools r) (definitions m)) (get_tools-same r d)
      (sort_by_name-perm (definitions (get_tools r))),
)
