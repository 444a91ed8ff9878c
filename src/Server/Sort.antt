-- ===== src/Server/Sort.antt =====
-- The sort of the tool definitions by name. sort.Slice leaves the order of equal names open; tools of one
-- registry that were loaded from manifests and scripts have distinct names.
use mathlib.Core.List.{Perm}
use jig_mcp.Prelude.{
  List, Bool, less, less_asymm, sort_by, sort_by-perm, IsSortedBy, sort_by-IsSortedBy,
}
use jig_mcp.Tools.Base.{ToolDef}

abbrev pub by_name : ToolDef → ToolDef → Bool
by_name d e = less d.name e.name

unfoldable pub sort_by_name : List ToolDef → List ToolDef
sort_by_name = sort_by by_name

pub sort_by_name-IsSortedBy : (ds : List ToolDef) → IsSortedBy by_name (sort_by_name ds)
unfolding sort_by_name
sort_by_name-IsSortedBy ds = sort_by-IsSortedBy by_name (λ d e. less_asymm d.name e.name) ds

pub sort_by_name-perm : (ds : List ToolDef) → Perm (sort_by_name ds) ds
unfolding sort_by_name
sort_by_name-perm ds = sort_by-perm by_name ds
