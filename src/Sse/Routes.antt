-- ===== src/Sse/Routes.antt =====
-- internal/sse/sse.go: the routes of StartSSEServer.
use jig_mcp.Prelude.{Str, lit, Option, none, some, [], ◌∷◌, ◌++◌, Bool, if◌then◌else◌, ◌==◌}
use jig_mcp.Prelude.Result.{Result}
use jig_mcp.Prelude.Int.{ℤ}
use jig_mcp.Http.{HttpRequest, HttpReply, HttpServer}
use jig_mcp.Auth.Caller.{Context}
use jig_mcp.Auth.Tokens.{TokenRegistry}
use jig_mcp.Auth.Middleware.{authenticate}
use jig_mcp.Server.Call.{World}
use jig_mcp.Server.{Request, Response}
use jig_mcp.Sse.{State, open_stream, handle_message, reply_of}

-- `none` is a reply that stays open as a stream.
abbrev pub Handler : Type 0
Handler = HttpRequest → State → State × Option HttpReply

-- The server of StartSSEServer. `decimal` is the verb %d.
abbrev pub sse_server : (ℤ → Str) → ℤ → HttpServer
sse_server decimal port = record {
  addr = lit ":" ++ decimal port;
  read_header_timeout = 10;
  read_timeout = 30;
  write_timeout = none;
  idle_timeout = 120;
}

abbrev pub health : (Str → Str) → Str → State → State × Option HttpReply
health quote version st = (
  st,
  some (record {
    status = 200;
    header = (lit "Content-Type", lit "application/json") ∷ [];
    body = lit "{\"status\":\"ok\",\"version\":" ++ (quote version ++ lit "}");
  }),
)

abbrev pub reject : HttpReply → State → State × Option HttpReply
reject reply st = (st, some reply)

-- `on_timeout` is what http.TimeoutHandler makes of the reply of the handler, which it does not stop, and
-- `quote` is the verb %q.
module _ (process : Context → Request → World → World × Response) (decode : Str → Result Request)
    (encode : Response → Result Str) (on_timeout : HttpReply → HttpReply) (quote : Str → Str)
    (version : Str) (tr : TokenRegistry) (flushes reads read_ok room : Bool) (id : Str) where
  abbrev timed : State × HttpReply → State × Option HttpReply
  timed (st, reply) = (st, some (on_timeout reply))

  -- The mux: the path of the request, then the handler.
  unfoldable pub serve : Str → HttpRequest → State → State × Option HttpReply
  serve path r st =
      if path == lit "/health"
      then health quote version st
      else if path == lit "/sse"
      then authenticate reject tr (λ r2. open_stream flushes reads id) r st
      else if path == lit "/message"
      then timed (handle_message process decode encode read_ok room r st)
      else (st, some (reply_of 404 (lit "404 page not found")))
