-- ===== src/Tools/Registry/Laws.antt =====
-- The registry as a finite map from names to tools.
use jig_mcp.Prelude.{
  Str, Map, Option, none, some, List, [], ◌∷◌, if◌then◌else◌, ◌==◌, eq_iff, lookup, insert,
  lookup-insert, lookup-delete, insert-IsMap, delete-IsMap, IsMap, ◌≡◌, refl, arith, ◌∙◌,
}
use jig_mcp.Tools.Registry.{
  Tool, Registry, new_registry, copy_from, get_tools, get_tool_by_name, register_tool, remove_tool,
  replace_all,
}

-- An operation that changes the registry.
pub data Op : Type 0 where
  register : Str → Tool → Op
  remove : Str → Op
  replace : Map Tool → Op

unfoldable pub apply : Registry → Op → Registry
apply r (register n t) = register_tool r n t
apply r (remove n) = remove_tool r n
apply r (replace m) = (replace_all r m).0

unfoldable pub run_ops : Registry → List Op → Registry
run_ops r [] = r
run_ops r (o ∷ os) = run_ops (apply r o) os

-- What a name is bound to after the operations, if it was bound to `t` before.
unfoldable pub bound : Str → Option Tool → List Op → Option Tool
bound k t [] = t
bound k t (register n u ∷ os) = bound k (if n == k then some u else t) os
bound k t (remove n ∷ os) = bound k (if n == k then none else t) os
bound k t (replace m ∷ os) = bound k (lookup k m) os

-- The maps that the operations bring have distinct keys.
abbrev pub BringsMaps : List Op → Type 0
BringsMaps [] = Unit
BringsMaps (register n u ∷ os) = BringsMaps os
BringsMaps (remove n ∷ os) = BringsMaps os
BringsMaps (replace m ∷ os) = IsMap m × BringsMaps os

get-run_ops :
    (r : Registry) (os : List Op) (k : Str)
    → get_tool_by_name (run_ops r os) k ≡ bound k (lookup k r.tools) os
unfolding run_ops apply bound get_tool_by_name register_tool remove_tool replace_all
get-run_ops r [] k = refl
get-run_ops r (register n u ∷ os) k =
    get-run_ops (register_tool r n u) os k ∙ rw (lookup-insert n k u r.tools)
get-run_ops r (remove n ∷ os) k =
    get-run_ops (remove_tool r n) os k ∙ rw (lookup-delete n k r.tools)
get-run_ops r (replace m ∷ os) k = get-run_ops (record { tools = m }) os k

run_ops-IsMap :
    (r : Registry) (os : List Op) → IsMap r.tools → BringsMaps os → IsMap (run_ops r os).tools
unfolding run_ops apply register_tool remove_tool replace_all
run_ops-IsMap r [] h b = h
run_ops-IsMap r (register n u ∷ os) h b =
    run_ops-IsMap (register_tool r n u) os (insert-IsMap n u r.tools h) b
run_ops-IsMap r (remove n ∷ os) h b =
    run_ops-IsMap (remove_tool r n) os (delete-IsMap n r.tools h) b
run_ops-IsMap r (replace m ∷ os) h (m_map, b) = run_ops-IsMap (record { tools = m }) os m_map b

abbrev first_of_two : Option Tool → Option Tool → Option Tool
first_of_two (some t) u = some t
first_of_two none u = u

lookup-copy_from :
    (k : Str) (snapshot m : Map Tool)
    → IsMap m
    → lookup k (copy_from snapshot m) ≡ first_of_two (lookup k m) (lookup k snapshot)
unfolding copy_from lookup
lookup-copy_from k snapshot [] h = refl
lookup-copy_from k snapshot ((j, v) ∷ m) (fresh, h) =
    ground (
      arith,
      lookup-copy_from k (insert j v snapshot) m h,
      lookup-insert j k v snapshot,
      eq_iff j k,
    )

lookup-get_tools :
    (r : Registry) (k : Str) → IsMap r.tools → lookup k (get_tools r) ≡ get_tool_by_name r k
unfolding get_tools get_tool_by_name lookup
lookup-get_tools r k h = ground (arith, lookup-copy_from k [] r.tools h)

-- After any sequence of registrations, removals and replacements of the map, a name is bound to what
-- the last operation about it left, and the snapshot of all tools binds every name to the same tool.
pub registry_refines :
    (os : List Op) (k : Str)
    → BringsMaps os
    → (get_tool_by_name (run_ops new_registry os) k ≡ bound k none os)
      × (lookup k (get_tools (run_ops new_registry os)) ≡ bound k none os)
unfolding lookup
registry_refines os k b = (
  get-run_ops new_registry os k,
  lookup-get_tools (run_ops new_registry os) k (run_ops-IsMap new_registry os tt b)
      ∙ get-run_ops new_registry os k,
)
