-- ===== src/Sse/Callers.antt =====
-- The callers that the requests over HTTP leave in the audit log.
use jig_mcp.Prelude.{
  if_has, Str, lit, Option, none, some, [], Bool, not, ◌==◌, ◌≡◌, length, ltb, take,
}
use jig_mcp.Prelude.Result.{Result, ok, err}
use jig_mcp.Http.{HttpRequest, HttpReply}
use jig_mcp.Auth.Caller.{Context, background, caller_from}
use jig_mcp.Auth.Tokens.{TokenRegistry}
use jig_mcp.Tools.Runtime.{Runtime}
use jig_mcp.Server.Call.{Server, World, Clock, Params}
use jig_mcp.Server.Caller.{OnlyCaller, process_request-OnlyCaller}
use jig_mcp.Server.{Request, Response, process_request}
use jig_mcp.Sse.{
  Session, State, find_session, handle_message, send_response, buffer_size, process_decoded,
  with_session, is_notification, max_body_size, open_stream,
}
use jig_mcp.Auth.Middleware.Laws.{authenticate_has}
use jig_mcp.Sse.Routes.{serve, reject}

module _ (rt : Runtime) (s : Server) (clock : Clock) (params_of : Str → Result Params)
    (acquired : Bool) (decode : Str → Result Request) (encode : Response → Result Str)
    (read_ok room : Bool) where
  -- The server's requests, as the handlers call them.
  abbrev run : Context → Request → World → World × Response
  run = process_request rt s clock params_of acquired

  abbrev OnlyUnknown : State → Type 0
  OnlyUnknown st = OnlyCaller (lit "unknown") st.world

  run-OnlyUnknown :
      (ctx : Context) (req : Request) (w : World)
      → ctx ≡ background
      → OnlyCaller (lit "unknown") w
      → OnlyCaller (lit "unknown") (run ctx req w).0
  unfolding caller_from
  run-OnlyUnknown ctx req w fresh h =
      rw fresh (process_request-OnlyCaller rt s clock params_of acquired background req w h)

  send_response-OnlyUnknown :
      (id : Str) (sess : Session) (st : State) (r : Result Str)
      → OnlyUnknown st
      → OnlyUnknown (send_response run decode encode read_ok room id sess st r).0
  send_response-OnlyUnknown id sess st (err e) h = h
  send_response-OnlyUnknown id sess st (ok m) h =
      if_has (λ (x : State × HttpReply). OnlyUnknown x.0) (ltb (length sess.messages) buffer_size) h
        (if_has (λ (x : State × HttpReply). OnlyUnknown x.0) room h h)

  process_decoded-OnlyUnknown :
      (r : HttpRequest) (id : Str) (sess : Session) (st : State) (q : Result Request)
      → r.ctx ≡ background
      → OnlyUnknown st
      → OnlyUnknown (process_decoded run decode encode read_ok room r id sess st q).0
  process_decoded-OnlyUnknown r id sess st (err e) fresh h = h
  process_decoded-OnlyUnknown r id sess st (ok req) fresh h =
      if_has (λ (x : State × HttpReply). OnlyUnknown x.0) (is_notification req.id) h
        (send_response-OnlyUnknown id sess (record st { world = (run r.ctx req st.world).0 })
          (encode (run r.ctx req st.world).1) (run-OnlyUnknown r.ctx req st.world fresh h))

  with_session-OnlyUnknown :
      (r : HttpRequest) (id : Str) (st : State) (o : Option Session)
      → r.ctx ≡ background
      → OnlyUnknown st
      → OnlyUnknown (with_session run decode encode read_ok room r id st o).0
  with_session-OnlyUnknown r id st none fresh h = h
  with_session-OnlyUnknown r id st (some sess) fresh h =
      if_has (λ (x : State × HttpReply). OnlyUnknown x.0) (not read_ok) h
        (process_decoded-OnlyUnknown r id sess st (decode (take max_body_size r.body)) fresh h)

  handle_message-OnlyUnknown :
      (r : HttpRequest) (st : State)
      → r.ctx ≡ background
      → OnlyUnknown st
      → OnlyUnknown (handle_message run decode encode read_ok room r st).0
  unfolding handle_message
  handle_message-OnlyUnknown r st fresh h =
      if_has (λ (x : State × HttpReply). OnlyUnknown x.0) (not (r.method == lit "POST")) h
        (if_has (λ (x : State × HttpReply). OnlyUnknown x.0) (r.query (lit "session_id") == []) h
          (with_session-OnlyUnknown r (r.query (lit "session_id")) st
            (find_session (r.query (lit "session_id")) st) fresh h))

  -- Whatever tokens are configured and whatever token a request carries: if every entry of the audit log has
  -- the caller "unknown", this still holds after a request that comes in over HTTP, on any route, with a
  -- context that has no caller yet.
  pub serve-OnlyCaller :
      (on_timeout : HttpReply → HttpReply) (quote : Str → Str) (version : Str) (tr : TokenRegistry)
      (flushes reads : Bool) (id path : Str) (r : HttpRequest) (st : State)
      → r.ctx ≡ background
      → OnlyCaller (lit "unknown") st.world
      → OnlyCaller
          (lit "unknown")
          (serve run decode encode on_timeout quote version tr flushes reads read_ok room id path r
            st).0.world
  unfolding serve open_stream
  serve-OnlyCaller on_timeout quote version tr flushes reads id path r st fresh h =
      if_has logs (path == lit "/health") h (
        if_has logs (path == lit "/sse")
          (authenticate_has reject tr (λ r2. open_stream flushes reads id) (λ f. logs (f st))
            (λ reply. h) (λ r2. open_stream-OnlyUnknown) r)
          (if_has logs (path == lit "/message") (handle_message-OnlyUnknown r st fresh h) h))
    where
      logs : State × Option HttpReply → Type 0
      logs x = OnlyUnknown x.0

      open_stream-OnlyUnknown : logs (open_stream flushes reads id st)
      open_stream-OnlyUnknown = if_has logs (not flushes) h (if_has logs (not reads) h h)
