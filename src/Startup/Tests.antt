-- ===== src/Startup/Tests.antt =====
-- A start with one manifest and one script.
use jig_mcp.Prelude.{
  Str, lit, Option, none, some, List, [], ◌∷◌, Bool, true, false, ◌≡◌, refl, ◌==◌, lookup, insert,
  to_lower,
}
use jig_mcp.Prelude.Int.{ℤ, pos}
use jig_mcp.Prelude.Result.{Result, ok}
use jig_mcp.Value.{Value}
use jig_mcp.Config.{ToolConfig, HttpConfig}
use jig_mcp.Config.Validate.{validate_tool_config, validate_platforms}
use jig_mcp.Config.Load.{
  DirEntry, Metadata, Probe, load_manifests, load_entries, probe_scripts, probe_entries,
  script_command,
}
use jig_mcp.Tools.Sample.{sample, blank_config}
use jig_mcp.Tools.Registry.{Tool, register_tool, get_tool_by_name, run_tool}
use jig_mcp.Startup.{Flags, register_manifests, register_scripts, is_existing, load_tools, tool_of}
use jig_mcp.Startup.Loaded.{load_tools-returns}

abbrev env : Str → Str
env k = lit "70000"

abbrev scan : Str → Option ℤ
scan s = some (pos 70000)

abbrev flags : Flags
flags = record { transport = lit "stdio"; sse_port = pos 3001; config_dir = [] }

abbrev base : Str → Str
base p = lit "bin"

abbrev dir : Str → Str
dir p = lit "/opt/jig"

abbrev join : Str → Str → Str
join a b = a

abbrev exists : Str → Bool
exists p = p == lit "/opt/jig"

abbrev http : HttpConfig
http = record { url = []; method = []; headers = []; query_params = []; allowed_url_prefixes = [] }

abbrev decode : Str → Result ToolConfig
decode s = ok (record blank_config { http = some http })

abbrev tools_dir : Option (List DirEntry)
tools_dir = some (record { name = lit "a"; is_dir = true; content = some [] } ∷ [])

abbrev shell_ext : Str → Str
shell_ext name = lit ".sh"

abbrev same_path : Str → Str
same_path name = name

abbrev answers : Str → List Str → Probe
answers program args = Probe.output (lit "{}")

abbrev describe : Str → Result Metadata
describe out = ok (record { name = lit "t"; description = lit "disk use"; input_schema = some [] })

abbrev scripts_dir : Option (List DirEntry)
scripts_dir = some (record { name = lit "disk.sh"; is_dir = false; content = none } ∷ [])

load_tools-returns_example :
    (v : Value) × ((run_tool sample (Tool.http (record blank_config { http = some http })) []).1
      ≡ some v)
unfolding load_tools get_tool_by_name load_manifests load_entries is_existing ◌==◌
    validate_tool_config validate_platforms register_manifests register_scripts register_tool
    tool_of lookup insert probe_scripts probe_entries to_lower script_command
load_tools-returns_example =
    load_tools-returns decode shell_ext same_path answers describe tools_dir scripts_dir sample
      (lit "t") (Tool.http (record blank_config { http = some http })) [] refl
