-- ===== src/Startup.antt =====
-- cmd/jig-mcp/main.go: the settings of the environment, the configuration directory and the loading of the
-- tools. `env` is os.Getenv and `scan` the result of fmt.Sscanf with %d, `none` for an error.
pub mod Laws
pub mod Loaded
pub mod Main
mod Tests
use jig_mcp.Prelude.{
  Str, lit, Map, Option, none, some, List, [], ◌∷◌, Bool, true, false, not, ◌||◌, if◌then◌else◌,
  ◌==◌, lookup, insert, ℕ, trim_space,
}
use jig_mcp.Prelude.Int.{ℤ, pos, leb_ℤ}
use jig_mcp.Prelude.Result.{Result}
use jig_mcp.Config.{ToolConfig}
use jig_mcp.Config.Load.{LoadedTool, DirEntry, Metadata, Probe, load_manifests, probe_scripts}
use jig_mcp.Tools.Registry.{Tool, Registry, new_registry, register_tool}

module _ (env : Str → Str) (scan : Str → Option ℤ) where
  abbrev pub slots_or_default : Option ℤ → ℤ
  slots_or_default none = pos 8
  slots_or_default (some n) = if leb_ℤ (pos 1) n then n else pos 8

  -- toolSemaphoreSize after initToolSemaphore.
  unfoldable pub init_tool_semaphore : ℤ
  init_tool_semaphore =
      let v = env (lit "JIG_MAX_CONCURRENT_TOOLS") in
      if v == [] then pos 8 else slots_or_default (scan v)

  abbrev pub port_or_default : Option ℤ → ℤ
  port_or_default none = pos 3001
  port_or_default (some n) =
      if not (leb_ℤ (pos 1) n) || not (leb_ℤ n (pos 65535)) then pos 3001 else n

-- The flags that the environment overrides.
pub record Flags : Type 0 where
  pub transport : Str
  pub sse_port : ℤ
  pub config_dir : Str

module _ (env : Str → Str) (scan : Str → Option ℤ) where
  unfoldable pub apply_env_overrides : Flags → Flags
  apply_env_overrides f =
      let t = env (lit "JIG_TRANSPORT") in
      let p = env (lit "JIG_SSE_PORT") in
      let c = env (lit "JIG_CONFIG_DIR") in
      record {
        transport = if t == [] then f.transport else t;
        sse_port = if p == [] then f.sse_port else port_or_default env scan (scan p);
        config_dir = if trim_space c == [] then f.config_dir else c;
      }

-- filepath.Base, filepath.Dir and filepath.Join; `exists` is os.Stat without an error.
module _ (base dir : Str → Str) (join : Str → Str → Str) (exists : Str → Bool) where
  abbrev pub legacy_dir : Str → Str
  legacy_dir binary_dir = if exists (join binary_dir (lit "tools")) then binary_dir else []

  unfoldable pub detect_config_dir : Str → Str → Str
  detect_config_dir explicit_dir binary_dir =
      if not (trim_space explicit_dir == [])
      then explicit_dir
      else if base binary_dir == lit "bin"
      then (if exists (join (dir binary_dir) (lit "tools"))
          then dir binary_dir
          else legacy_dir binary_dir)
      else legacy_dir binary_dir

-- The tool of a manifest.
unfoldable pub tool_of : LoadedTool → Tool
tool_of lt =
    if lt.type == lit "http"
    then Tool.http lt.config
    else if lt.type == lit "terminal"
    then Tool.terminal lt.config
    else Tool.external lt.config

unfoldable pub register_manifests : Registry → List LoadedTool → Registry
register_manifests r [] = r
register_manifests r (lt ∷ lts) =
    register_manifests (register_tool r lt.config.name (tool_of lt)) lts

unfoldable pub register_scripts : Registry → List LoadedTool → Registry
register_scripts r [] = r
register_scripts r (lt ∷ lts) =
    register_scripts (register_tool r lt.config.name (Tool.external lt.config)) lts

-- existingNames after the loop.
unfoldable pub is_existing : List LoadedTool → Str → Bool
is_existing [] name = false
is_existing (lt ∷ lts) name = (lt.config.name == name) || is_existing lts name

module _ (decode : Str → Result ToolConfig) (file_ext path_of : Str → Str)
    (run : Str → List Str → Probe) (decode_meta : Str → Result Metadata) where
  -- The entries of tools/ and of scripts/, `none` for a directory that cannot be read.
  unfoldable pub load_tools : Option (List DirEntry) → Option (List DirEntry) → Registry
  load_tools tools scripts =
      let manifest_tools = load_manifests decode tools in
      register_scripts (register_manifests new_registry manifest_tools)
        (probe_scripts file_ext path_of run decode_meta (is_existing manifest_tools) scripts)
