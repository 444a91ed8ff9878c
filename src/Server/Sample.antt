-- ===== src/Server/Sample.antt =====
-- A server with a tool that answers and one that panics, for the tests.
use jig_mcp.Prelude.{Str, lit, some, none, [], ◌∷◌, true}
use jig_mcp.Prelude.Result.{Result, ok}
use jig_mcp.Value.{text}
use jig_mcp.Tools.Base.{ToolDef}
use jig_mcp.Tools.Registry.{Tool}
use jig_mcp.Server.Call.{Server, World, Clock, Params}

abbrev pub echo_def : ToolDef
echo_def = record { name = lit "echo"; description = lit "echoes"; input_schema = none }

abbrev pub crash_def : ToolDef
crash_def = record { name = lit "crash"; description = lit "panics"; input_schema = none }

abbrev pub echo : Tool
echo = Tool.other echo_def (λ args. some (text (lit "hi")))

abbrev pub crash : Tool
crash = Tool.other crash_def (λ args. none)

abbrev pub server : Server
server = record {
  registry = record { tools = (lit "echo", echo) ∷ (lit "crash", crash) ∷ [] };
  has_semaphore = true;
  semaphore_size = 8;
  version = lit "dev";
  has_callback = true;
}

abbrev pub world : World
world = record { in_use = 2; audit_log = []; metrics = []; effects = [] }

abbrev pub clock : Clock
clock = record { now = lit "now"; duration_ms = 3 }

-- The raw parameters are the tool's name here.
abbrev pub decode : Str → Result Params
decode raw = ok (record { name = raw; arguments = [] })
