-- ===== src/Config/Tests.antt =====
-- Manifests that are accepted and rejected, and a script that describes itself.
use jig_mcp.Prelude.{
  Str, lit, Option, none, some, List, [], ◌∷◌, Bool, true, false, ◌≡◌, ◌↔◌, refl, All, contains,
  contains_any, has_byte, has_prefix, ◌==◌,
}
use jig_mcp.Prelude.Int.{pos}
use jig_mcp.Prelude.Result.{Result, ok}
use jig_mcp.Config.{ToolConfig, PlatformConfig}
use jig_mcp.Config.Validate.{
  validate_tool_config, validate_platforms, validate_platform_config, validate_args, first_metachar,
  command_metachar, or_empty,
}
use jig_mcp.Config.Validate.Laws.{HasKind, IsSafe, validate_tool_config_iff}
use jig_mcp.Config.Load.{DirEntry, Metadata, Probe, load_manifests, load_entries}
use jig_mcp.Config.Load.Laws.{IsLoaded, load_manifests-IsLoaded}

abbrev runs : Str → ToolConfig
runs program = record {
  name = lit "t";
  description = lit "a tool";
  input_schema = none;
  platforms = some ((lit "linux", record { command = program; args = [] }) ∷ []);
  http = none;
  timeout = [];
  max_memory_mb = pos 0;
  max_cpu_percent = pos 0;
  sandbox = none;
  terminal = none;
}

rejected :
    validate_tool_config (runs (lit "ls;rm")) ≡ some (command_metachar (lit "linux") (lit ";"))
unfolding validate_tool_config validate_platforms validate_platform_config first_metachar contains
    has_prefix
rejected = refl

validate_tool_config_iff_example : (validate_tool_config (runs (lit "ls")) ≡ none) ↔ (
    HasKind (runs (lit "ls"))
    × All (λ (e : Str × PlatformConfig). IsSafe e.1) (or_empty (runs (lit "ls")).platforms))
validate_tool_config_iff_example = validate_tool_config_iff (runs (lit "ls"))

abbrev decode : Str → Result ToolConfig
decode s = ok (runs s)

abbrev tools_dir : Option (List DirEntry)
tools_dir = some (
    record { name = lit "a"; is_dir = true; content = some (lit "ls") }
    ∷ record { name = lit "README.md"; is_dir = false; content = none }
    ∷ record { name = lit "b"; is_dir = true; content = some (lit "ls;rm") }
    ∷ [])

load_manifests-IsLoaded_example : All IsLoaded (load_manifests decode tools_dir)
load_manifests-IsLoaded_example = load_manifests-IsLoaded decode tools_dir

loads_one :
    load_manifests decode tools_dir
    ≡ record { config = runs (lit "ls"); type = lit "external" } ∷ []
unfolding load_manifests load_entries validate_tool_config validate_platforms
    validate_platform_config validate_args first_metachar contains contains_any has_byte has_prefix
loads_one = refl

abbrev shell_ext : Str → Str
shell_ext name = lit ".sh"

abbrev same_path : Str → Str
same_path name = name

abbrev answers : Str → List Str → Probe
answers program args = Probe.output (lit "{}")

abbrev describe : Str → Result Metadata
describe out =
    ok (record { name = lit "disk"; description = lit "disk use"; input_schema = some [] })

abbrev taken : Str → Bool
taken name = name == lit "t"

abbrev scripts_dir : Option (List DirEntry)
scripts_dir = some (record { name = lit "disk.sh"; is_dir = false; content = none } ∷ [])
