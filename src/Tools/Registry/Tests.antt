-- ===== src/Tools/Registry/Tests.antt =====
-- The registry under a sequence of operations.
use jig_mcp.Prelude.{lit, none, List, [], ◌∷◌, ◌≡◌, lookup}
use jig_mcp.Tools.Sample.{blank_config}
use jig_mcp.Tools.Registry.{Tool, new_registry, get_tools, get_tool_by_name}
use jig_mcp.Tools.Registry.Laws.{Op, run_ops, bound, registry_refines}

abbrev ops : List Op
ops =
    Op.register (lit "a") (Tool.http blank_config)
    ∷ Op.register (lit "b") (Tool.external blank_config)
    ∷ Op.remove (lit "a")
    ∷ []

registry_refines_example :
    (get_tool_by_name (run_ops new_registry ops) (lit "b") ≡ bound (lit "b") none ops)
    × (lookup (lit "b") (get_tools (run_ops new_registry ops)) ≡ bound (lit "b") none ops)
registry_refines_example = registry_refines ops (lit "b") tt
