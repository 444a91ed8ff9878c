-- ===== src/Sse.antt =====
-- internal/sse/sse.go: the sessions, handleSSE, handleMessage, CloseAllSessions, and the routes of
-- StartSSEServer. A session stands in one store with the flag `registered` for its place in the map
-- `sessions`, since the goroutine of its stream holds it beyond its removal from the map.
pub mod Sessions
pub mod Stream
pub mod Message
pub mod Isolation
pub mod Routes
pub mod Traffic
mod Callers
mod Tests
use jig_mcp.Prelude.{
  ℕ, ◌*◌, ◌^◌, Str, lit, Map, Option, none, some, List, [], ◌∷◌, ◌++◌, map, Bool, true, false, not,
  ◌&&◌, if◌then◌else◌, ◌==◌, lookup, insert, length, take, ltb,
}
use jig_mcp.Prelude.Result.{Result, ok, err}
use jig_mcp.Http.{HttpRequest, HttpReply}
use jig_mcp.Auth.Caller.{Context}
use jig_mcp.Server.Call.{World}
use jig_mcp.Server.{Request, Response}

abbrev pub buffer_size : ℕ
buffer_size = 100

abbrev pub max_body_size : ℕ
max_body_size = 2 ^ 20

-- `messages` is the channel's buffer, `done` the closed channel, `written` the payloads that
-- the stream has sent, without the lines of the events around them.
pub record Session : Type 0 where
  pub messages : List Str
  pub done : Bool
  pub registered : Bool
  pub written : List Str

pub record State : Type 0 where
  pub sessions : Map Session
  pub world : World

abbrev pub shutdown_message : Str
shutdown_message = lit "{\"jsonrpc\":\"2.0\",\"method\":\"notifications/shutdown\"}"

-- A send that does not wait: only into a buffer with room.
abbrev pub try_send : Str → Session → Session
try_send m s =
    if ltb (length s.messages) buffer_size
    then record s { messages = s.messages ++ (m ∷ []) }
    else s

abbrev pub new_session : Session
new_session = record { messages = []; done = false; registered = true; written = [] }

-- What handleSSE sets before anything else.
abbrev pub stream_header : Map Str
stream_header =
    (lit "Content-Type", lit "text/event-stream")
    ∷ (lit "Cache-Control", lit "no-cache")
    ∷ (lit "Connection", lit "keep-alive")
    ∷ []

abbrev pub internal_error : Str → HttpReply
internal_error msg = record { status = 500; header = stream_header; body = msg }

-- handleSSE up to its loop, with a fresh random id; `reads` says whether the random source gave one.
-- The reply is what is written in place of a stream.
unfoldable pub open_stream : Bool → Bool → Str → State → State × Option HttpReply
open_stream flushes reads id st =
    if not flushes
    then (st, some (internal_error (lit "Streaming unsupported!")))
    else if not reads
    then (st, some (internal_error (lit "internal error generating session")))
    else (record st { sessions = insert id new_session st.sessions }, none)

-- One message of the loop, also of the drain after `done`.
abbrev pub deliver_from : Session → List Str → Session
deliver_from s [] = s
deliver_from s (m ∷ ms) = record s { messages = ms; written = s.written ++ (m ∷ []) }

unfoldable pub deliver : Session → Session
deliver s = deliver_from s s.messages

-- The end of the stream: the deferred removal from the map.
unfoldable pub leave : Session → Session
leave s = record s { registered = false }

-- The body of the loop of CloseAllSessions, over the sessions in the map.
unfoldable pub close_session : Session → Session
close_session s =
    if s.registered
    then record (try_send shutdown_message s) { done = true; registered = false }
    else s

abbrev pub map_sessions : (Session → Session) → Map Session → Map Session
map_sessions f [] = []
map_sessions f ((k, s) ∷ m) = (k, f s) ∷ map_sessions f m

unfoldable pub close_all_sessions : State → State
close_all_sessions st = record st { sessions = map_sessions close_session st.sessions }

abbrev pub if_registered : Option Session → Option Session
if_registered none = none
if_registered (some s) = if s.registered then some s else none

-- sessions[id] with its ok value.
unfoldable pub find_session : Str → State → Option Session
find_session id st = if_registered (lookup id st.sessions)

abbrev pub reply_of : ℕ → Str → HttpReply
reply_of status body = record { status = status; header = []; body = body }

abbrev pub accepted : HttpReply
accepted = reply_of 202 []

-- The raw id is missing or the JSON null.
abbrev pub is_notification : Option Str → Bool
is_notification none = true
is_notification (some id) = id == lit "null"

-- `process` is ProcessRequest, `decode` and `encode` are json.Unmarshal and json.Marshal, `read_ok` says
-- whether the body could be read, and `room` whether a full buffer gets room before the timeout.
module _ (process : Context → Request → World → World × Response) (decode : Str → Result Request)
    (encode : Response → Result Str) (read_ok room : Bool) where
  -- The send of the response to the session, which other goroutines may meanwhile have emptied.
  abbrev pub send_response : Str → Session → State → Result Str → State × HttpReply
  send_response id s st (err e) = (st, reply_of 500 (lit "Internal server error"))
  send_response id s st (ok m) =
      if ltb (length s.messages) buffer_size
      then (
        record st {
          sessions = insert id (record s { messages = s.messages ++ (m ∷ []) }) st.sessions;
        },
        accepted,
      )
      else if room
      then (
        record st {
          sessions =
              insert id (record (deliver s) { messages = (deliver s).messages ++ (m ∷ []) })
                st.sessions;
        },
        accepted,
      )
      else (st, reply_of 503 (lit "Session buffer full or timed out"))

  abbrev pub answer : Str → Session → State → World × Response → State × HttpReply
  answer id s st (w, resp) = send_response id s (record st { world = w }) (encode resp)

  abbrev pub process_decoded :
      HttpRequest → Str → Session → State → Result Request → State × HttpReply
  process_decoded r id s st (err e) = (st, reply_of 400 (lit "Invalid JSON-RPC request"))
  process_decoded r id s st (ok req) =
      let done = answer id s st (process r.ctx req st.world) in
      if is_notification req.id then (st, accepted) else done

  abbrev pub with_session : HttpRequest → Str → State → Option Session → State × HttpReply
  with_session r id st none = (st, reply_of 404 (lit "Invalid session_id"))
  with_session r id st (some s) =
      if not read_ok
      then (st, reply_of 500 (lit "Failed to read body"))
      else process_decoded r id s st (decode (take max_body_size r.body))

  unfoldable pub handle_message : HttpRequest → State → State × HttpReply
  handle_message r st =
      let id = r.query (lit "session_id") in
      if not (r.method == lit "POST")
      then (st, reply_of 405 (lit "Method not allowed"))
      else if id == []
      then (st, reply_of 400 (lit "Missing session_id"))
      else with_session r id st (find_session id st)
