-- ===== src/Sse/Traffic/Matched.antt =====
-- The messages of a session, matched with the replies to the requests that named it.
use jig_mcp.Prelude.{
  append-nil, ltb, length, Str, Map, some, List, [], ◌∷◌, ◌++◌, Bool, ◌≡◌, sym, subst, append_assoc,
  lookup, AllEntries, AllEntries-insert, AllEntries-lookup, AllEntries-map, if_has, run_keeps,
}
use jig_mcp.Prelude.Result.{Result}
use jig_mcp.Http.{HttpRequest, HttpReply}
use jig_mcp.Auth.Caller.{Context}
use jig_mcp.Server.Call.{World}
use jig_mcp.Server.{Request, Response}
use jig_mcp.Sse.{buffer_size, shutdown_message, accepted}
use jig_mcp.Sse.Stream.{session_id}
use jig_mcp.Sse.Traffic.{
  Conn, closed, put_in, Handler, Traffic, Step, connect, refuse, stream, close_all, arrive, look_up,
  read, respond, marshal, put, expire, Next, reply, go, admit, of_encoded, read_body, advance,
  Reach, idle,
}
use jig_mcp.Sse.Traffic.Answers.{Move-sent, session_of, IsAnswer, Inv, Step-Inv, known}

module _ (process : Bool → Context → Request → World → World × Response)
    (decode : Str → Result Request) (encode : Response → Result Str) where
  -- The replies so far, and the messages that were put in for a session: each message is the shutdown
  -- notification, or it stands for a reply of its own, a 202 to a request that names the session and that
  -- the message answers. Messages and their replies come in the same order.
  pub data Matched (id : Str) : List (HttpRequest × HttpReply) → List Str → Type 0 where
    at_start : Matched id [] []
    shut_down :
        {rs : List (HttpRequest × HttpReply)} {ms : List Str}
        → Matched id rs ms
        → Matched id rs (ms ++ (shutdown_message ∷ []))
    answer :
        {rs : List (HttpRequest × HttpReply)} {ms : List Str} (r : HttpRequest) (m : Str)
        → Matched id rs ms
        → session_of r ≡ id
        → IsAnswer process decode encode r m
        → Matched id (rs ++ ((r, accepted) ∷ [])) (ms ++ (m ∷ []))
    unmatched :
        {rs : List (HttpRequest × HttpReply)} {ms : List Str} (x : HttpRequest × HttpReply)
        → Matched id rs ms
        → Matched id (rs ++ (x ∷ [])) ms

  more_replies :
      (id : Str) (rs xs : List (HttpRequest × HttpReply)) (ms : List Str)
      → Matched id rs ms
      → Matched id (rs ++ xs) ms
  more_replies id rs [] ms h =
      subst (λ (ys : List (HttpRequest × HttpReply)). Matched id ys ms) (sym (append-nil rs)) h
  more_replies id rs (x ∷ xs) ms h =
      subst (λ (ys : List (HttpRequest × HttpReply)). Matched id ys ms)
        (append_assoc rs (x ∷ []) xs) (more_replies id (rs ++ (x ∷ [])) xs ms (unmatched x h))

  abbrev ConnMatched : List (HttpRequest × HttpReply) → Str → Conn → Type 0
  ConnMatched rs id c = Matched id rs c.sent

  abbrev AllMatched : List (HttpRequest × HttpReply) → Map Conn → Type 0
  AllMatched rs conns = AllEntries (ConnMatched rs) conns

  closed-Matched :
      (rs : List (HttpRequest × HttpReply)) (id : Str) (c : Conn)
      → ConnMatched rs id c
      → ConnMatched rs id (closed c)
  closed-Matched rs id c h =
      if_has (Matched id rs) c.session.registered
        (if_has (Matched id rs) (ltb (length c.session.messages) buffer_size) (shut_down h) h) h

  replied-AllMatched :
      (rs : List (HttpRequest × HttpReply)) (x : HttpRequest × HttpReply) (conns : Map Conn)
      → AllMatched rs conns
      → AllMatched (rs ++ (x ∷ [])) conns
  replied-AllMatched rs x [] h = tt
  replied-AllMatched rs x (e ∷ conns) (h, hs) = (unmatched x h, replied-AllMatched rs x conns hs)

  advance-AllMatched :
      (t : Traffic) (r : HttpRequest) (before after : List Handler) (n : Next)
      → AllMatched t.replies t.conns
      → AllMatched (advance t r before after n).replies (advance t r before after n).conns
  advance-AllMatched t r before after (reply x) h = replied-AllMatched t.replies (r, x) t.conns h
  advance-AllMatched t r before after (go x) h = h

  Step-AllMatched :
      {t u : Traffic}
      → Step process decode encode t u
      → Inv process decode encode t
      → AllMatched t.replies t.conns
      → AllMatched u.replies u.conns
  Step-AllMatched {t} (connect bytes fresh) v h =
      AllEntries-insert (ConnMatched t.replies) (session_id bytes) _ t.conns
        (more_replies (session_id bytes) [] t.replies [] at_start) h
  Step-AllMatched {t} (refuse r why) v h = replied-AllMatched t.replies _ t.conns h
  Step-AllMatched {t} (stream id {c} {d} there move) v h =
      AllEntries-insert (ConnMatched t.replies) id d t.conns
        (subst (Matched id t.replies) (sym (Move-sent move))
          (AllEntries-lookup (ConnMatched t.replies) id t.conns h there))
        h
  Step-AllMatched {t} close_all v h =
      AllEntries-map (ConnMatched t.replies) closed t.conns (closed-Matched t.replies) h
  Step-AllMatched (arrive r) v h = h
  Step-AllMatched {t} (look_up before after r e) v h =
      advance-AllMatched t r before after (admit r t.conns) h
  Step-AllMatched {t} (read before after r id read_ok e) v h =
      advance-AllMatched t r before after (read_body process decode encode read_ok r id) h
  Step-AllMatched (respond before after r id req acquired e) v h = h
  Step-AllMatched {t} (marshal before after r id req resp e) v h =
      advance-AllMatched t r before after (of_encoded r id (encode resp)) h
  Step-AllMatched {t} (put before after r id m {c} e there room) v h =
      let (named, answers) = known process decode encode t before after r id m e v in
      AllEntries-insert (ConnMatched (t.replies ++ ((r, accepted) ∷ []))) id (put_in m c) t.conns
        (answer r m (AllEntries-lookup (ConnMatched t.replies) id t.conns h there) named answers)
        (replied-AllMatched t.replies (r, accepted) t.conns h)
  Step-AllMatched {t} (expire before after r id m e) v h = replied-AllMatched t.replies _ t.conns h

  -- In any interleaving: each message that was put in for a session is the shutdown notification, or the
  -- encoded response to a request with an id that has arrived, whose URL names this session and that has got
  -- the reply 202. Each such message has a reply of its own, in the same order: no client gets the answers of
  -- another, and none twice.
  pub sent-Matched :
      (w : World) {t : Traffic} (id : Str) {c : Conn}
      → Reach process decode encode (idle w) t
      → lookup id t.conns ≡ some c
      → Matched id t.replies c.sent
  sent-Matched w {t} id r there =
      AllEntries-lookup (ConnMatched t.replies) id t.conns
        (run_keeps (λ u. Inv process decode encode u × AllMatched u.replies u.conns)
          (λ x y st h. (Step-Inv process decode encode st h.0, Step-AllMatched st h.0 h.1)) r
          (tt, tt)).1
        there
