-- ===== src/Config/Load.antt =====
-- LoadManifests and ProbeScripts of internal/config/config.go. The directory, the files and the probed
-- processes are values: what reading, decoding and running them gives.
pub mod Laws
use jig_mcp.Prelude.{
  Str, lit, Map, Option, none, some, List, [], ◌∷◌, ◌++◌, Bool, true, false, not, ◌||◌,
  if◌then◌else◌, ◌==◌, to_lower,
}
use jig_mcp.Prelude.Result.{Result, ok, err}
use jig_mcp.Prelude.Int.{pos}
use jig_mcp.Value.{Value}
use jig_mcp.Config.{ToolConfig, PlatformConfig, TerminalConfig, HttpConfig}
use jig_mcp.Config.Validate.{validate_tool_config, Violation, is_nil}

pub record LoadedTool : Type 0 where
  pub config : ToolConfig
  pub type : Str

-- `content` is what opening manifest.yaml in the directory gives, `none` if it fails.
pub record DirEntry : Type 0 where
  pub name : Str
  pub is_dir : Bool
  pub content : Option Str

abbrev pub terminal_tool : ToolConfig → TerminalConfig → Option LoadedTool
terminal_tool tc t =
    if not t.enabled then none else some (record { config = tc; type = lit "terminal" })

abbrev pub classify_by : ToolConfig → Option HttpConfig → Option TerminalConfig → Option LoadedTool
classify_by tc (some h) t = some (record { config = tc; type = lit "http" })
classify_by tc none (some t) = terminal_tool tc t
classify_by tc none none = some (record { config = tc; type = lit "external" })

abbrev pub classify : ToolConfig → Option LoadedTool
classify tc = classify_by tc tc.http tc.terminal

abbrev pub if_valid : ToolConfig → Option Violation → Option LoadedTool
if_valid tc none = classify tc
if_valid tc (some v) = none

abbrev pub load_decoded : Result ToolConfig → Option LoadedTool
load_decoded (err e) = none
load_decoded (ok tc) = if_valid tc (validate_tool_config tc)

abbrev pub add_tool : Option LoadedTool → List LoadedTool → List LoadedTool
add_tool none tools = tools
add_tool (some t) tools = t ∷ tools

-- `decode` is the YAML decoder.
module _ (decode : Str → Result ToolConfig) where
  abbrev pub load_content : Option Str → Option LoadedTool
  load_content none = none
  load_content (some s) = load_decoded (decode s)

  unfoldable pub load_entries : List DirEntry → List LoadedTool
  load_entries [] = []
  load_entries (e ∷ es) =
      let rest = load_entries es in
      if not e.is_dir then rest else add_tool (load_content e.content) rest

  -- The entries of tools/, `none` if it cannot be read.
  unfoldable pub load_manifests : Option (List DirEntry) → List LoadedTool
  load_manifests none = []
  load_manifests (some es) = load_entries es

-- mcpMetadata; a nil inputSchema is `none`.
pub record Metadata : Type 0 where
  pub name : Str
  pub description : Str
  pub input_schema : Option (Map Value)

pub data Probe : Type 0 where
  timed_out : Probe
  failed : Probe
  output : Str → Probe

-- The program and the arguments that run a script of this extension.
unfoldable pub script_command : Str → Str → Option PlatformConfig
script_command ext path =
    if ext == lit ".ps1"
    then some (record {
      command = lit "powershell";
      args = lit "-ExecutionPolicy" ∷ lit "Bypass" ∷ lit "-File" ∷ path ∷ [];
    })
    else if ext == lit ".sh"
    then some (record { command = lit "bash"; args = path ∷ [] })
    else none

unfoldable pub script_platforms : Str → PlatformConfig → Map PlatformConfig
script_platforms ext pc =
    if ext == lit ".ps1"
    then (lit "windows", pc) ∷ []
    else (lit "linux", pc) ∷ (lit "darwin", pc) ∷ []

abbrev pub script_tool : Str → PlatformConfig → Metadata → LoadedTool
script_tool ext pc meta = record {
  config = record {
    name = meta.name;
    description = meta.description;
    input_schema = meta.input_schema;
    platforms = some (script_platforms ext pc);
    http = none;
    timeout = [];
    max_memory_mb = pos 0;
    max_cpu_percent = pos 0;
    sandbox = none;
    terminal = none;
  };
  type = lit "external";
}

-- `file_ext` is filepath.Ext, `path_of` the name joined to the scripts directory, `run` the outcome of the
-- process within the timeout, `decode_meta` json.Unmarshal, and `existing` the map of the names in use.
module _ (file_ext path_of : Str → Str) (run : Str → List Str → Probe)
    (decode_meta : Str → Result Metadata) (existing : Str → Bool) where
  abbrev pub if_usable : Str → PlatformConfig → Result Metadata → Option LoadedTool
  if_usable ext pc (err e) = none
  if_usable ext pc (ok meta) =
      if (meta.name == []) || ((meta.description == []) || is_nil meta.input_schema)
      then none
      else if existing meta.name
      then none
      else some (script_tool ext pc meta)

  abbrev pub if_output : Str → PlatformConfig → Probe → Option LoadedTool
  if_output ext pc timed_out = none
  if_output ext pc failed = none
  if_output ext pc (output out) = if_usable ext pc (decode_meta out)

  abbrev pub probe_command : Str → Option PlatformConfig → Option LoadedTool
  probe_command ext none = none
  probe_command ext (some pc) =
      if_output ext pc (run pc.command (pc.args ++ (lit "--mcp-metadata" ∷ [])))

  abbrev pub probe_script : Str → Option LoadedTool
  probe_script name =
      let ext = to_lower (file_ext name) in probe_command ext (script_command ext (path_of name))

  unfoldable pub probe_entries : List DirEntry → List LoadedTool
  probe_entries [] = []
  probe_entries (e ∷ es) =
      let rest = probe_entries es in if e.is_dir then rest else add_tool (probe_script e.name) rest

  unfoldable pub probe_scripts : Option (List DirEntry) → List LoadedTool
  probe_scripts none = []
  probe_scripts (some es) = probe_entries es
