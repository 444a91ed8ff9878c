-- ===== src/Sse/Traffic/Kept.antt =====
-- What the sessions and the handlers of the traffic have, if each of their steps keeps it.
use mathlib.Core.Option.{some-injective}
use jig_mcp.Prelude.{
  HasAt, HasAt-insert, HasAt-map, subst, sym, ◌∙◌, ℕ, Str, some, List, Bool, ◌<◌, ◌≡◌, length,
  lookup, All, AllEntries, AllEntries-insert, AllEntries-lookup, AllEntries-map, run_keeps,
}
use jig_mcp.Prelude.Result.{Result}
use jig_mcp.Http.{HttpRequest}
use jig_mcp.Auth.Caller.{Context}
use jig_mcp.Server.Call.{World}
use jig_mcp.Server.{Request, Response}
use jig_mcp.Sse.{buffer_size}
use jig_mcp.Sse.Stream.{session_id}
use jig_mcp.Sse.Traffic.{
  Conn, new_conn, put_in, closed, Move, Handler, sending, Traffic, Next, reply, go, admit,
  of_encoded, read_body, advance, Step, connect, refuse, stream, close_all, arrive, look_up, read,
  respond, marshal, put, expire, Reach, idle,
}
use jig_mcp.Sse.Traffic.Handlers.{IsKept, Step-handlers, apart}

-- Each change of a session keeps `P`, whoever makes it.
pub record IsStable {κ} (P : Conn → Type κ) : Type κ where
  pub on_move : {c d : Conn} → Move c d → P c → P d
  pub on_close : (c : Conn) → P c → P (closed c)
  pub on_put : (m : Str) (c : Conn) → P c → P (put_in m c)

module _ {κ} (process : Bool → Context → Request → World → World × Response)
    (decode : Str → Result Request) (encode : Response → Result Str) (P : Conn → Type κ)
    (stable : IsStable P) (id : Str) where
  advance-HasAt :
      (t : Traffic) (r : HttpRequest) (before after : List Handler) (n : Next)
      → HasAt P id t.conns
      → HasAt P id (advance t r before after n).conns
  advance-HasAt t r before after (reply x) h = h
  advance-HasAt t r before after (go x) h = h

  -- A session stays in the store, with what is stable.
  pub Step-HasAt :
      {t u : Traffic} → Step process decode encode t u → HasAt P id t.conns → HasAt P id u.conns
  Step-HasAt {t} (connect bytes fresh) h =
      HasAt-insert P (session_id bytes) _ id t.conns (λ c there. absurd cc) h
  Step-HasAt (refuse r why) h = h
  Step-HasAt {t} (stream i {c} {d} there move) h =
      HasAt-insert P i d id t.conns
        (λ b at_id p. stable.on_move move (subst P (some-injective b c (sym at_id ∙ there)) p)) h
  Step-HasAt {t} close_all h = HasAt-map P closed id t.conns stable.on_close h
  Step-HasAt (arrive r) h = h
  Step-HasAt {t} (look_up before after r e) h = advance-HasAt t r before after (admit r t.conns) h
  Step-HasAt {t} (read before after r i read_ok e) h =
      advance-HasAt t r before after (read_body process decode encode read_ok r i) h
  Step-HasAt (respond before after r i req acquired e) h = h
  Step-HasAt {t} (marshal before after r i req resp e) h =
      advance-HasAt t r before after (of_encoded r i (encode resp)) h
  Step-HasAt {t} (put before after r i m {c} e there room) h =
      HasAt-insert P i _ id t.conns
        (λ b at_id p. stable.on_put m c (subst P (some-injective b c (sym at_id ∙ there)) p)) h
  Step-HasAt (expire before after r i m e) h = h

module _ {κ} (process : Bool → Context → Request → World → World × Response)
    (decode : Str → Result Request) (encode : Response → Result Str) (P : Str → Conn → Type κ)
    (Q : Handler → Type 0) where
  -- Each change of a session keeps `P`, where the handler that puts a message in has `Q`.
  pub record IsKeptAt : Type κ where
    pub at_connect : (bytes : List ℕ) → P (session_id bytes) (new_conn (session_id bytes))
    pub at_move : (id : Str) (c d : Conn) → Move c d → P id c → P id d
    pub at_close : (id : Str) (c : Conn) → P id c → P id (closed c)
    pub at_put :
        (r : HttpRequest) (id m : Str) (c : Conn)
        → Q (sending r id m)
        → length c.session.messages < buffer_size
        → P id c
        → P id (put_in m c)

  -- All sessions have `P`, and all handlers `Q`.
  pub record Have (t : Traffic) : Type κ where
    pub sessions : AllEntries P t.conns
    pub handlers : All Q t.handlers

  advance-sessions :
      (t : Traffic) (r : HttpRequest) (before after : List Handler) (n : Next)
      → AllEntries P t.conns
      → AllEntries P (advance t r before after n).conns
  advance-sessions t r before after (reply x) h = h
  advance-sessions t r before after (go x) h = h

  module _ (at : IsKeptAt) (kept : IsKept process decode encode Q) where
    Step-sessions : {t u : Traffic} → Step process decode encode t u → Have t → AllEntries P u.conns
    Step-sessions {t} (connect bytes fresh) v =
        AllEntries-insert P (session_id bytes) _ t.conns (at.at_connect bytes) v.sessions
    Step-sessions (refuse r why) v = v.sessions
    Step-sessions {t} (stream id {c} {d} there move) v =
        AllEntries-insert P id d t.conns
          (at.at_move id c d move (AllEntries-lookup P id t.conns v.sessions there)) v.sessions
    Step-sessions {t} close_all v = AllEntries-map P closed t.conns at.at_close v.sessions
    Step-sessions (arrive r) v = v.sessions
    Step-sessions {t} (look_up before after r e) v =
        advance-sessions t r before after (admit r t.conns) v.sessions
    Step-sessions {t} (read before after r id read_ok e) v =
        advance-sessions t r before after (read_body process decode encode read_ok r id) v.sessions
    Step-sessions (respond before after r id req acquired e) v = v.sessions
    Step-sessions {t} (marshal before after r id req resp e) v =
        advance-sessions t r before after (of_encoded r id (encode resp)) v.sessions
    Step-sessions {t} (put before after r id m {c} e there room) v =
        AllEntries-insert P id _ t.conns
          (at.at_put r id m c
            (apart process decode encode Q kept t.handlers before (sending r id m) after e
              v.handlers).0
            room (AllEntries-lookup P id t.conns v.sessions there))
          v.sessions
    Step-sessions (expire before after r id m e) v = v.sessions

    pub Step-Have : {t u : Traffic} → Step process decode encode t u → Have t → Have u
    Step-Have st v = record {
      sessions = Step-sessions st v;
      handlers = Step-handlers process decode encode Q kept st v.handlers;
    }

    pub Reach-Have : (w : World) {t : Traffic} → Reach process decode encode (idle w) t → Have t
    Reach-Have w r =
        run_keeps Have (λ x y st v. Step-Have st v) r (record { sessions = tt; handlers = tt })

    -- The same at one session.
    pub Reach-at :
        (w : World) {t : Traffic} (id : Str) {c : Conn}
        → Reach process decode encode (idle w) t
        → lookup id t.conns ≡ some c
        → P id c
    Reach-at w {t} id r there = AllEntries-lookup P id t.conns (Reach-Have w r).sessions there
