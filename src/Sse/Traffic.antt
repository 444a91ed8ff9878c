-- ===== src/Sse/Traffic.antt =====
-- The SSE transport with its goroutines in any interleaving: a stream for each session (the loop of
-- handleSSE), and a handler for each request to /message. The locks of the map and of the components make
-- each access one step; a channel operation is one step, and so is ProcessRequest. The steps of a tool call
-- are in Server/Calls.
pub mod Tracked
pub mod Handlers
pub mod Kept
pub mod Clients
pub mod Answers
pub mod Matched
pub mod Accepted
pub mod Closing
mod Tests
use jig_mcp.Prelude.{
  ℕ, ◌<◌, Str, lit, Map, Option, none, some, List, [], ◌∷◌, ◌++◌, Bool, true, false, not, ◌&&◌,
  if◌then◌else◌, ◌==◌, ◌≡◌, lookup, insert, length, take, ltb, Run, map,
}
use jig_mcp.Prelude.Result.{Result, ok, err}
use jig_mcp.Http.{HttpRequest, HttpReply}
use jig_mcp.Auth.Caller.{Context}
use jig_mcp.Server.Call.{World}
use jig_mcp.Server.{Request, Response}
use jig_mcp.Sse.{
  Session, buffer_size, max_body_size, new_session, deliver, leave, close_session, reply_of,
  accepted, is_notification, internal_error,
}
use jig_mcp.Sse.Sessions.{sent_by_close}
use jig_mcp.Sse.Stream.{session_id, Event, endpoint, message, keep_alive}

-- Where the stream of a session is: in its loop, in the loop after `done`, returned.
pub data Phase : Type 0 where
  looping draining over : Phase

-- A session with its stream. `events` is what the stream has written, and `sent` the messages that were put
-- into the channel, which no code reads.
pub record Conn : Type 0 where
  pub session : Session
  pub phase : Phase
  pub events : List Event
  pub sent : List Str

-- After the first event.
abbrev pub new_conn : Str → Conn
new_conn id = record {
  session = new_session;
  phase = looping;
  events = endpoint id ∷ [];
  sent = [];
}

abbrev pub taken : Str → Conn → Conn
taken m c = record c { session = deliver c.session; events = c.events ++ (message m ∷ []) }

abbrev pub returned : Conn → Conn
returned c = record c { session = leave c.session; phase = over }

-- A step of the stream.
pub data Move (c : Conn) : Conn → Type 0 where
  receive :
      (m : Str) (ms : List Str)
      → c.phase ≡ looping
      → c.session.messages ≡ m ∷ ms
      → Move c (taken m c)
  tick : c.phase ≡ looping → Move c (record c { events = c.events ++ (keep_alive ∷ []) })
  see_done : c.phase ≡ looping → c.session.done ≡ true → Move c (record c { phase = draining })
  drain :
      (m : Str) (ms : List Str)
      → c.phase ≡ draining
      → c.session.messages ≡ m ∷ ms
      → Move c (taken m c)
  drained : c.phase ≡ draining → c.session.messages ≡ [] → Move c (returned c)
  client_gone : c.phase ≡ looping → Move c (returned c)

-- What CloseAllSessions does with a session.
abbrev pub closed : Conn → Conn
closed c = record c { session = close_session c.session; sent = sent_by_close c.session c.sent }

abbrev pub put_in : Str → Conn → Conn
put_in m c = record c {
  session = record c.session { messages = c.session.messages ++ (m ∷ []) };
  sent = c.sent ++ (m ∷ []);
}

-- A handler that has not returned: before the map, before the body, in ProcessRequest, with the response, in
-- the select. The text is the session's id.
pub data Handler : Type 0 where
  arrived : HttpRequest → Handler
  admitted : HttpRequest → Str → Handler
  serving : HttpRequest → Str → Request → Handler
  answered : HttpRequest → Str → Request → Response → Handler
  sending : HttpRequest → Str → Str → Handler

pub record Traffic : Type 0 where
  pub conns : Map Conn
  pub handlers : List Handler
  pub world : World
  pub replies : List (HttpRequest × HttpReply)

pub data Next : Type 0 where
  reply : HttpReply → Next
  go : Handler → Next

-- `session, ok := sessions[sessionID]`
abbrev pub found : HttpRequest → Str → Option Conn → Next
found r id none = reply (reply_of 404 (lit "Invalid session_id"))
found r id (some c) =
    if c.session.registered
    then go (admitted r id)
    else reply (reply_of 404 (lit "Invalid session_id"))

unfoldable pub admit : HttpRequest → Map Conn → Next
admit r conns =
    let id = r.query (lit "session_id") in
    if not (r.method == lit "POST")
    then reply (reply_of 405 (lit "Method not allowed"))
    else if id == []
    then reply (reply_of 400 (lit "Missing session_id"))
    else found r id (lookup id conns)

abbrev pub of_decoded : HttpRequest → Str → Result Request → Next
of_decoded r id (err e) = reply (reply_of 400 (lit "Invalid JSON-RPC request"))
of_decoded r id (ok req) = if is_notification req.id then reply accepted else go (serving r id req)

abbrev pub of_encoded : HttpRequest → Str → Result Str → Next
of_encoded r id (err e) = reply (reply_of 500 (lit "Internal server error"))
of_encoded r id (ok m) = go (sending r id m)

-- The next state of a handler that stands between others.
abbrev pub advance : Traffic → HttpRequest → List Handler → List Handler → Next → Traffic
advance t r before after (reply x) = record t {
  handlers = before ++ after;
  replies = t.replies ++ ((r, x) ∷ []);
}
advance t r before after (go h) = record t { handlers = before ++ (h ∷ after) }

-- `process` is ProcessRequest with the outcome of the wait for a slot, `decode` and `encode` are
-- json.Unmarshal and json.Marshal.
module _ (process : Bool → Context → Request → World → World × Response)
    (decode : Str → Result Request) (encode : Response → Result Str) where
  unfoldable pub read_body : Bool → HttpRequest → Str → Next
  read_body read_ok r id =
      if not read_ok
      then reply (reply_of 500 (lit "Failed to read body"))
      else of_decoded r id (decode (take max_body_size r.body))

  pub data Step (t : Traffic) : Traffic → Type 0 where
    -- handleSSE: a session with a fresh id, or the reply of a failure
    connect :
        (bytes : List ℕ)
        → lookup (session_id bytes) t.conns ≡ none
        → Step t
            (record t { conns = insert (session_id bytes) (new_conn (session_id bytes)) t.conns })
    refuse :
        (r : HttpRequest) (why : Str)
        → Step t (record t { replies = t.replies ++ ((r, internal_error why) ∷ []) })
    stream :
        (id : Str) {c d : Conn}
        → lookup id t.conns ≡ some c
        → Move c d
        → Step t (record t { conns = insert id d t.conns })
    close_all : Step t (record t { conns = map (λ e. (e.0, closed e.1)) t.conns })
    arrive : (r : HttpRequest) → Step t (record t { handlers = t.handlers ++ (arrived r ∷ []) })
    look_up :
        (before after : List Handler) (r : HttpRequest)
        → t.handlers ≡ before ++ (arrived r ∷ after)
        → Step t (advance t r before after (admit r t.conns))
    read :
        (before after : List Handler) (r : HttpRequest) (id : Str) (read_ok : Bool)
        → t.handlers ≡ before ++ (admitted r id ∷ after)
        → Step t (advance t r before after (read_body read_ok r id))
    respond :
        (before after : List Handler) (r : HttpRequest) (id : Str) (req : Request) (acquired : Bool)
        → t.handlers ≡ before ++ (serving r id req ∷ after)
        → Step t (record t {
          handlers = before ++ (answered r id req (process acquired r.ctx req t.world).1 ∷ after);
          world = (process acquired r.ctx req t.world).0;
        })
    marshal :
        (before after : List Handler) (r : HttpRequest) (id : Str) (req : Request) (resp : Response)
        → t.handlers ≡ before ++ (answered r id req resp ∷ after)
        → Step t (advance t r before after (of_encoded r id (encode resp)))
    put :
        (before after : List Handler) (r : HttpRequest) (id m : Str) {c : Conn}
        → t.handlers ≡ before ++ (sending r id m ∷ after)
        → lookup id t.conns ≡ some c
        → length c.session.messages < buffer_size
        → Step t (record (advance t r before after (reply accepted)) {
          conns = insert id (put_in m c) t.conns;
        })
    expire :
        (before after : List Handler) (r : HttpRequest) (id m : Str)
        → t.handlers ≡ before ++ (sending r id m ∷ after)
        → Step t (
            advance t r before after
              (reply (reply_of 503 (lit "Session buffer full or timed out"))))

  abbrev pub Reach : Traffic → Traffic → Type 0
  Reach = Run Step

abbrev pub idle : World → Traffic
idle w = record { conns = []; handlers = []; world = w; replies = [] }
