-- ===== src/Dashboard/Routes/Tools.antt =====
-- The list of tools that the dashboard shows.
use mathlib.Core.List.{Perm}
use mathlib.Core.List.Perm
use jig_mcp.Prelude.{
  insert, eq_iff, eq_sym_false, Str, Map, Option, none, some, List, [], ◌∷◌, map, ◌==◌, eq_refl,
  lookup, IsMap, insert-IsMap, less, less_asymm, sort_by, insert_sorted, IsSortedBy,
  sort_by-IsSortedBy, ◌≡◌, refl, ◌∙◌, ap, inl, inr, Bool-cases, arith,
}
use jig_mcp.Config.{ToolConfig}
use jig_mcp.Tools.Registry.{Tool, Registry, get_tools, get_config, copy_from}
use jig_mcp.Dashboard.Routes.{add_config, config_at, configs_of, api_tools}

-- The configurations of the tools of a map, each once.
abbrev pub all_configs : Map Tool → List ToolConfig
all_configs [] = []
all_configs ((name, t) ∷ m) = add_config (get_config t) (all_configs m)

add_config-perm :
    (o : Option ToolConfig) {xs ys : List ToolConfig}
    → Perm xs ys
    → Perm (add_config o xs) (add_config o ys)
add_config-perm none p = p
add_config-perm (some c) p = Perm.cons c p

add_config-swap :
    (o p : Option ToolConfig) (xs : List ToolConfig)
    → Perm (add_config o (add_config p xs)) (add_config p (add_config o xs))
add_config-swap none p xs = Perm.refl (add_config p xs)
add_config-swap (some c) none xs = Perm.refl (c ∷ xs)
add_config-swap (some c) (some d) xs = Perm.swap d c xs

module _ (m : Map Tool) where
  configs_of-insert_sorted :
      (n : Str) (ns : List Str)
      → Perm (configs_of m (insert_sorted less n ns)) (configs_of m (n ∷ ns))
  unfolding configs_of insert_sorted
  configs_of-insert_sorted n [] = Perm.refl (configs_of m (n ∷ []))
  configs_of-insert_sorted n (k ∷ ns) = elim (Bool-cases (less k n)) [
    | inl h ↦ rw h (
        Perm.trans (add_config-perm (config_at (lookup k m)) (configs_of-insert_sorted n ns))
          (add_config-swap (config_at (lookup k m)) (config_at (lookup n m)) (configs_of m ns)))
    | inr h ↦ rw h (Perm.refl (configs_of m (n ∷ k ∷ ns)))
  ]

  configs_of-sort_by : (ns : List Str) → Perm (configs_of m (sort_by less ns)) (configs_of m ns)
  unfolding configs_of sort_by
  configs_of-sort_by [] = Perm.refl []
  configs_of-sort_by (n ∷ ns) =
      Perm.trans (configs_of-insert_sorted n (sort_by less ns))
        (add_config-perm (config_at (lookup n m)) (configs_of-sort_by ns))

-- An entry that no name asks for is not seen.
configs_of-cons :
    (k : Str) (t : Tool) (m rest : Map Tool)
    → lookup k rest ≡ none
    → configs_of ((k, t) ∷ m) (map (λ e. e.0) rest) ≡ configs_of m (map (λ e. e.0) rest)
unfolding configs_of lookup
configs_of-cons k t m [] absent = refl
configs_of-cons k t m ((j, u) ∷ rest) absent = elim (Bool-cases (k == j)) [
  | inl same ↦ absurd (ground (arith, absent, same, eq_iff k j, eq_refl j))
  | inr other ↦
      let absent_rest : lookup k rest ≡ none = ground (arith, absent, eq_sym_false k j other) in
      rw other (ap (add_config (config_at (lookup j m))) (configs_of-cons k t m rest absent_rest))
]

configs_of-keys : (m : Map Tool) → IsMap m → configs_of m (map (λ e. e.0) m) ≡ all_configs m
unfolding configs_of lookup
configs_of-keys [] h = refl
configs_of-keys ((k, t) ∷ m) (fresh, h) =
    rw (eq_refl k)
      (ap (add_config (get_config t)) (configs_of-cons k t m m fresh ∙ configs_of-keys m h))

copy_from-IsMap : (snapshot m : Map Tool) → IsMap snapshot → IsMap (copy_from snapshot m)
unfolding copy_from
copy_from-IsMap snapshot [] h = h
copy_from-IsMap snapshot ((k, v) ∷ m) h =
    copy_from-IsMap (insert k v snapshot) m (insert-IsMap k v snapshot h)

-- The dashboard shows the configuration of every registered tool that has one, exactly once, in the order
-- of the names.
api_tools_lem :
    (r : Registry)
    → (names : List Str) × IsSortedBy less names
      × (api_tools r ≡ configs_of (get_tools r) names)
      × Perm (api_tools r) (all_configs (get_tools r))
unfolding api_tools get_tools
api_tools_lem r = (
  sort_by less (map (λ e. e.0) (get_tools r)),
  sort_by-IsSortedBy less less_asymm (map (λ e. e.0) (get_tools r)),
  refl,
  rw (configs_of-keys (get_tools r) (copy_from-IsMap [] r.tools tt)) at
      (configs_of-sort_by (get_tools r) (map (λ e. e.0) (get_tools r))),
)
