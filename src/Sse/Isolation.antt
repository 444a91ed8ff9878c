-- ===== src/Sse/Isolation.antt =====
-- A message reaches only the session that it names.
use jig_mcp.Prelude.{
  if_has, Str, lit, Option, none, some, [], ◌∷◌, ◌++◌, Bool, not, ◌==◌, lookup, insert,
  lookup-insert, ltb, length, take, ◌≡◌, ◌≢◌, refl, ◌∙◌, eq_iff, arith,
}
use jig_mcp.Prelude.Result.{Result, ok, err}
use jig_mcp.Http.{HttpRequest, HttpReply}
use jig_mcp.Auth.Caller.{Context}
use jig_mcp.Server.Call.{World}
use jig_mcp.Server.{Request, Response}
use jig_mcp.Sse.{
  accepted, deliver, Session, State, find_session, handle_message, send_response, buffer_size,
  process_decoded, with_session, is_notification, max_body_size,
}

module _ (process : Context → Request → World → World × Response) (decode : Str → Result Request)
    (encode : Response → Result Str) (read_ok room : Bool) (other : Str) where
  -- What the map holds for the other session.
  abbrev SameAt : State → State × HttpReply → Type 0
  SameAt st x = lookup other x.0.sessions ≡ lookup other st.sessions

  insert-SameAt :
      (id : Str) (s : Session) (st : State) (w : World) (reply : HttpReply)
      → id ≢ other
      → SameAt st (record st { world = w; sessions = insert id s st.sessions }, reply)
  insert-SameAt id s st w reply differ =
      lookup-insert id other s st.sessions ∙ ground (arith, differ, eq_iff id other)

  send_response-SameAt :
      (id : Str) (s : Session) (st : State) (w : World) (r : Result Str)
      → id ≢ other
      → SameAt st
          (send_response process decode encode read_ok room id s (record st { world = w }) r)
  send_response-SameAt id s st w (err e) differ = refl
  send_response-SameAt id s st w (ok m) differ =
      if_has (SameAt st) (ltb (length s.messages) buffer_size)
        (insert-SameAt id (record s { messages = s.messages ++ (m ∷ []) }) st w accepted differ)
        (if_has (SameAt st) room
          (insert-SameAt id (record (deliver s) { messages = (deliver s).messages ++ (m ∷ []) }) st
            w accepted differ)
          refl)

  process_decoded-SameAt :
      (r : HttpRequest) (id : Str) (s : Session) (st : State) (q : Result Request)
      → id ≢ other
      → SameAt st (process_decoded process decode encode read_ok room r id s st q)
  process_decoded-SameAt r id s st (err e) differ = refl
  process_decoded-SameAt r id s st (ok req) differ =
      if_has (SameAt st) (is_notification req.id) refl (
        send_response-SameAt id s st (process r.ctx req st.world).0
          (encode (process r.ctx req st.world).1) differ)

  with_session-SameAt :
      (r : HttpRequest) (id : Str) (st : State) (o : Option Session)
      → id ≢ other
      → SameAt st (with_session process decode encode read_ok room r id st o)
  with_session-SameAt r id st none differ = refl
  with_session-SameAt r id st (some s) differ =
      if_has (SameAt st) (not read_ok) refl
        (process_decoded-SameAt r id s st (decode (take max_body_size r.body)) differ)

  -- Whatever the request and its outcome: the buffer and the state of every session but the one that the
  -- request names stay as they are.
  handle_message-other :
      (r : HttpRequest) (st : State)
      → r.query (lit "session_id") ≢ other
      → lookup other (handle_message process decode encode read_ok room r st).0.sessions
        ≡ lookup other st.sessions
  unfolding handle_message
  handle_message-other r st differ = if_has (SameAt st) (not (r.method == lit "POST")) refl (
      if_has (SameAt st) (r.query (lit "session_id") == []) refl (
        with_session-SameAt r (r.query (lit "session_id")) st
          (find_session (r.query (lit "session_id")) st) differ))
