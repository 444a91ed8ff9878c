-- ===== src/Sse/Message.antt =====
-- What a request changes in the sessions, and in the audit log.
use jig_mcp.Prelude.{
  Str, lit, none, List, [], ◌∷◌, Bool, false, ◌==◌, ◌≡◌, refl, inl, inr, lookup, Bool-cases,
}
use jig_mcp.Prelude.Result.{Result}
use jig_mcp.Http.{HttpRequest}
use jig_mcp.Auth.Caller.{Context}
use jig_mcp.Server.Call.{World}
use jig_mcp.Server.{Request, Response}
use jig_mcp.Sse.{
  Session, State, find_session, if_registered, close_session, close_all_sessions, map_sessions,
  handle_message,
}

pub close_session-registered : (s : Session) → (close_session s).registered ≡ false
unfolding close_session
close_session-registered s = elim (Bool-cases s.registered) [
  | inl there ↦ simp there
  | inr gone ↦ simp gone
]

lookup-map_sessions :
    (id : Str) (m : List (Str × Session))
    → if_registered (lookup id (map_sessions close_session m)) ≡ none
unfolding lookup
lookup-map_sessions id [] = refl
lookup-map_sessions id ((k, s) ∷ m) = elim (Bool-cases (k == id)) [
  | inl here ↦ rw here (rw (close_session-registered s) refl)
  | inr other ↦ rw other (lookup-map_sessions id m)
]

pub close_all_sessions-find :
    (id : Str) (st : State) → find_session id (close_all_sessions st) ≡ none
unfolding find_session close_all_sessions
close_all_sessions-find id st = lookup-map_sessions id st.sessions

-- After CloseAllSessions every POST to /message with a session id is answered 404, whichever session it
-- names, and changes nothing.
handle_message-closed :
    (process : Context → Request → World → World × Response) (decode : Str → Result Request)
    (encode : Response → Result Str) (read_ok room : Bool) (r : HttpRequest) (st : State)
    → r.method ≡ lit "POST"
    → (r.query (lit "session_id") == []) ≡ false
    → handle_message process decode encode read_ok room r (close_all_sessions st) ≡ (
      close_all_sessions st,
      record { status = 404; header = []; body = lit "Invalid session_id" },
    )
unfolding handle_message ◌==◌
handle_message-closed process decode encode read_ok room r st post named =
    simp (post, named, close_all_sessions-find (r.query (lit "session_id")) st)
