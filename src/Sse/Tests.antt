-- ===== src/Sse/Tests.antt =====
-- A stream that is opened, gets a message and is shut down, and a request at /message without a token.
use jig_mcp.Prelude.{Str, lit, none, some, [], ◌∷◌, true, refl}
use jig_mcp.Prelude.Result.{Result, ok}
use jig_mcp.Value.{text}
use jig_mcp.Http.{HttpRequest, HttpReply}
use jig_mcp.Auth.Caller.{background}
use jig_mcp.Auth.Tokens.{TokenRegistry}
use jig_mcp.Tools.Sample.{sample}
use jig_mcp.Tools.Base.{ToolDef}
use jig_mcp.Tools.Registry.{Tool}
use jig_mcp.Server.Call.{Server, Clock, Params}
use jig_mcp.Server.Caller.{OnlyCaller}
use jig_mcp.Server.{Request, Response, process_request}
use jig_mcp.Sse.{Session, State, new_session}
use jig_mcp.Sse.Routes.{serve}
use jig_mcp.Sse.Callers.{serve-OnlyCaller}

abbrev with_hi : Session
with_hi = record new_session { messages = lit "hi" ∷ [] }

abbrev post_query : Str → Str
post_query k = lit "s1"

abbrev post : HttpRequest
post = record {
  method = lit "POST";
  authorization = [];
  query = post_query;
  remote_addr = lit "10.0.0.7:5000";
  body = lit "echo";
  ctx = background;
}

abbrev echo_def : ToolDef
echo_def = record { name = lit "echo"; description = lit "echoes"; input_schema = none }

abbrev server : Server
server = record {
  registry = record {
    tools = (lit "echo", Tool.other echo_def (λ args. some (text (lit "hi")))) ∷ [];
  };
  has_semaphore = true;
  semaphore_size = 8;
  version = lit "dev";
  has_callback = true;
}

abbrev clock : Clock
clock = record { now = lit "now"; duration_ms = 3 }

abbrev params_of : Str → Result Params
params_of raw = ok (record { name = raw; arguments = [] })

abbrev decode : Str → Result Request
decode body = ok (record { id = some (lit "1"); method = lit "tools/call"; params = body })

abbrev encode : Response → Result Str
encode r = ok (lit "{}")

abbrev keep_reply : HttpReply → HttpReply
keep_reply r = r

abbrev keep_text : Str → Str
keep_text s = s

abbrev state : State
state = record {
  sessions = (lit "s1", new_session) ∷ [];
  world = record { in_use = 0; audit_log = []; metrics = []; effects = [] };
}

abbrev locked : TokenRegistry
locked = record { entries = record { name = lit "ann"; token = lit "s3" } ∷ [] }

serve-OnlyCaller_example :
    OnlyCaller
      (lit "unknown")
      (serve
        (process_request sample server clock params_of true)
        decode
        encode
        keep_reply
        keep_text
        (lit "dev")
        locked
        true
        true
        true
        true
        (lit "s2")
        (lit "/message")
        post
        state).0.world
serve-OnlyCaller_example =
    serve-OnlyCaller sample server clock params_of true decode encode true true keep_reply keep_text
      (lit "dev") locked true true (lit "s2") (lit "/message") post state refl tt
