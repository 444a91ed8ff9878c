-- ===== src/Tools/Registry.antt =====
-- internal/tools/registry.go, the tool types behind common.Tool, and the call of a tool's Handle. The
-- mutex makes each operation on the registry one step.
pub mod Laws
mod Tests
use jig_mcp.Prelude.{
  ℕ, Str, lit, Map, Option, none, some, List, [], ◌∷◌, map, Bool, true, false, if◌then◌else◌, ◌==◌,
  lookup, insert, delete,
}
use jig_mcp.Value.{Value, text_at}
use jig_mcp.Config.{ToolConfig, TerminalConfig}
use jig_mcp.Tools.Runtime.{Runtime, Command, HttpCall}
use jig_mcp.Tools.Base.{ToolDef, definition, error_result}
use jig_mcp.Tools.Terminal
use jig_mcp.Tools.External
use jig_mcp.Tools.Http

-- `other` is any further implementation of the interface; its Handle panics where it gives `none`.
pub data Tool : Type 0 where
  external http terminal : ToolConfig → Tool
  other : ToolDef → (Map Value → Option Value) → Tool

unfoldable pub tool_definition : Tool → ToolDef
unfolding definition
tool_definition (external c) = definition c
tool_definition (http c) = definition c
tool_definition (terminal c) = definition c
tool_definition (other d h) = d

unfoldable pub get_config : Tool → Option ToolConfig
get_config (external c) = some c
get_config (http c) = some c
get_config (terminal c) = some c
get_config (other d h) = none

pub data Effect : Type 0 where
  ran : Command → Effect
  sent : HttpCall → Effect

abbrev pub terminal_result : List Command × Value → List Effect × Option Value
terminal_result (cs, v) = (map ran cs, some v)

abbrev pub http_result : List HttpCall × Value → List Effect × Option Value
http_result (cs, v) = (map sent cs, some v)

-- A terminal tool without a terminal section dereferences nil as soon as there is a command.
abbrev pub run_terminal :
    Runtime → ToolConfig → Option TerminalConfig → Map Value → List Effect × Option Value
run_terminal rt c (some t) args = terminal_result (Terminal.handle rt c t args)
run_terminal rt c none args =
    if text_at (lit "command") args == []
    then ([], some (error_result (lit "missing mandatory parameter: command")))
    else ([], none)

-- tool.Handle(args): the effects, and the result or `none` for a panic.
unfoldable pub run_tool : Runtime → Tool → Map Value → List Effect × Option Value
run_tool rt (external c) args = terminal_result (External.handle rt c args)
run_tool rt (http c) args = http_result (Http.handle rt c args)
run_tool rt (terminal c) args = run_terminal rt c c.terminal args
run_tool rt (other d h) args = ([], h args)

pub record Registry : Type 0 where
  pub tools : Map Tool

abbrev pub new_registry : Registry
new_registry = record { tools = [] }

-- The loop that copies the map.
unfoldable pub copy_from : Map Tool → Map Tool → Map Tool
copy_from snapshot [] = snapshot
copy_from snapshot ((k, v) ∷ m) = copy_from (insert k v snapshot) m

unfoldable pub get_tools : Registry → Map Tool
get_tools r = copy_from [] r.tools

unfoldable pub get_tool_by_name : Registry → Str → Option Tool
get_tool_by_name r name = lookup name r.tools

unfoldable pub register_tool : Registry → Str → Tool → Registry
register_tool r name tool = record { tools = insert name tool r.tools }

unfoldable pub remove_tool : Registry → Str → Registry
remove_tool r name = record { tools = delete name r.tools }

-- The new registry, and the old map.
unfoldable pub replace_all : Registry → Map Tool → Registry × Map Tool
replace_all r new_tools = (record { tools = new_tools }, r.tools)

unfoldable pub restore_all : Registry → Map Tool → Registry
restore_all r old = record { tools = old }
