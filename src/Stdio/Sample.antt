-- ===== src/Stdio/Sample.antt =====
-- A ping and a broken line, and their processing, for the tests.
use jig_mcp.Prelude.{Str, lit, some, List, [], ◌∷◌, Bool, true}
use jig_mcp.Prelude.Result.{Result, ok, err}
use jig_mcp.Auth.Caller.{Context}
use jig_mcp.Tools.Sample.{sample}
use jig_mcp.Server.Call.{Server, World, Clock, Params}
use jig_mcp.Server.{Request, Response}
use jig_mcp.Stdio.{stdio_ctx}
use jig_mcp.Stdio.Callers.{run_request}

abbrev pub server : Server
server = record {
  registry = record { tools = [] };
  has_semaphore = true;
  semaphore_size = 8;
  version = lit "dev";
  has_callback = true;
}

abbrev pub clock : Clock
clock = record { now = lit "now"; duration_ms = 3 }

abbrev pub params_of : Str → Result Params
params_of raw = err (lit "no call")

abbrev pub world : World
world = record { in_use = 0; audit_log = []; metrics = []; effects = [] }

abbrev pub ping : Request
ping = record { id = some (lit "1"); method = lit "ping"; params = [] }

abbrev pub decode : Str → Result Request
decode [] = err (lit "unexpected end of JSON input")
decode (c ∷ cs) = ok ping

abbrev pub encode : Response → Result Str
encode r = ok (lit "{}")

abbrev pub input : List Str
input = lit "ping" ∷ [] ∷ []

abbrev pub run : Bool → Context → Request → World → World × Response
run = run_request sample server clock params_of

abbrev pub response : Response
response = (run true stdio_ctx ping world).1
