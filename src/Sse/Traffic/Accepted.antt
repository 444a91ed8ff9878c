-- ===== src/Sse/Traffic/Accepted.antt =====
-- What a reply of 202 to a request promises.
use jig_mcp.Prelude.{
  HasAt, ltb, length, Str, lit, Map, Option, none, some, List, [], ◌∷◌, Bool, true, not, ◌==◌, ◌≡◌,
  ◌⊎◌, inl, inr, refl, sym, ◌∙◌, subst, eq_refl, lookup, insert, lookup-insert, take, All,
  All-append, All-imp, Any, Any-append_left, Any-append_right, run_keeps, if_has, Bool-cases, arith,
}
use jig_mcp.Prelude.Result.{Result, ok, err}
use jig_mcp.Http.{HttpRequest, HttpReply}
use jig_mcp.Auth.Caller.{Context}
use jig_mcp.Server.Call.{World}
use jig_mcp.Server.{Request, Response}
use jig_mcp.Sse.{buffer_size, max_body_size, is_notification, shutdown_message}
use jig_mcp.Sse.Traffic.{
  Conn, put_in, Handler, Traffic, Step, connect, refuse, stream, close_all, arrive, look_up, read,
  respond, marshal, put, expire, Next, reply, go, found, admit, of_decoded, of_encoded, read_body,
  Reach, idle, advance,
}
use jig_mcp.Sse.Traffic.Kept.{IsStable, Step-HasAt}
use jig_mcp.Sse.Traffic.Answers.{Move-sent, session_of, IsAnswer, Inv, Step-Inv, known}

-- The message was put in for the session.
abbrev pub IsSent : Map Conn → Str → Str → Type 0
IsSent conns id m = HasAt (λ c. Any (λ x. x ≡ m) c.sent) id conns

-- The messages of a session only grow.
IsSent-IsStable : (m : Str) → IsStable (λ c. Any (λ x. x ≡ m) c.sent)
IsSent-IsStable m = record {
  on_move = λ move sent. subst (Any (λ x. x ≡ m)) (sym (Move-sent move)) sent;
  on_close = λ c sent.
      if_has (Any (λ x. x ≡ m)) c.session.registered
        (if_has (Any (λ x. x ≡ m)) (ltb (length c.session.messages) buffer_size)
          (Any-append_left (λ x. x ≡ m) c.sent (shutdown_message ∷ []) sent) sent)
        sent;
  on_put = λ n c sent. Any-append_left (λ x. x ≡ m) c.sent (n ∷ []) sent;
}

put_in-IsSent :
    (conns : Map Conn) (c : Conn) (id m : Str) → IsSent (insert id (put_in m c) conns) id m
put_in-IsSent conns c id m = (
  put_in m c,
  lookup-insert id id (put_in m c) conns ∙ rw (eq_refl id) refl,
  Any-append_right (λ x. x ≡ m) c.sent (m ∷ []) (inl refl),
)

module _ (process : Bool → Context → Request → World → World × Response)
    (decode : Str → Result Request) (encode : Response → Result Str) where
  -- The body decodes to a notification.
  abbrev pub IsSilent : HttpRequest → Type 0
  IsSilent r =
      (req : Request) × (decode (take max_body_size r.body) ≡ ok req)
      × (is_notification req.id ≡ true)

  -- A reply of 202 is for a notification, or the answer was put in for the session that the URL names.
  abbrev pub IsKeptPromise : Map Conn → HttpRequest → HttpReply → Type 0
  IsKeptPromise conns r x =
      x.status ≡ 202
      → IsSilent r
        ⊎ ((m : Str) × IsAnswer process decode encode r m × IsSent conns (session_of r) m)

  abbrev pub AllKept : Map Conn → List (HttpRequest × HttpReply) → Type 0
  AllKept conns replies = All (λ e. IsKeptPromise conns e.0 e.1) replies

  AllKept-grows :
      (conns more : Map Conn) (replies : List (HttpRequest × HttpReply))
      → ((id m : Str) → IsSent conns id m → IsSent more id m)
      → AllKept conns replies
      → AllKept more replies
  AllKept-grows conns more replies grows h = All-imp _ _ replies (λ e kept. later e.0 e.1 kept) h
    where
      later : (r : HttpRequest) (x : HttpReply) → IsKeptPromise conns r x → IsKeptPromise more r x
      later r x kept status = elim (kept status) [
        | inl silent ↦ inl silent
        | inr (m, answer, sent) ↦ inr (m, answer, grows (session_of r) m sent)
      ]

  -- A next state whose reply, if it is one, keeps its promise.
  abbrev Keeps : Map Conn → HttpRequest → Next → Type 0
  Keeps conns r (reply x) = IsKeptPromise conns r x
  Keeps conns r (go h) = Unit

  advance-AllKept :
      (t : Traffic) (r : HttpRequest) (before after : List Handler) (n : Next)
      → Keeps t.conns r n
      → AllKept t.conns t.replies
      → AllKept (advance t r before after n).conns (advance t r before after n).replies
  advance-AllKept t r before after (reply x) k h =
      All-append (λ e. IsKeptPromise t.conns e.0 e.1) t.replies ((r, x) ∷ []) h (k, tt)
  advance-AllKept t r before after (go g) k h = h

  admit-Keeps : (r : HttpRequest) (conns : Map Conn) → Keeps conns r (admit r conns)
  unfolding admit
  admit-Keeps r conns =
      if_has (Keeps conns r) (not (r.method == lit "POST")) (λ e. absurd (omega (arith, e)))
        (if_has (Keeps conns r) (session_of r == []) (λ e. absurd (omega (arith, e)))
          (found-Keeps (lookup (session_of r) conns)))
    where
      found-Keeps : (o : Option Conn) → Keeps conns r (found r (session_of r) o)
      found-Keeps none = λ e. absurd (omega (arith, e))
      found-Keeps (some c) =
          if_has (Keeps conns r) c.session.registered tt (λ e. absurd (omega (arith, e)))

  read_body-Keeps :
      (read_ok : Bool) (r : HttpRequest) (id : Str) (conns : Map Conn)
      → Keeps conns r (read_body process decode encode read_ok r id)
  unfolding read_body
  read_body-Keeps read_ok r id conns =
      if_has (Keeps conns r) (not read_ok) (λ e. absurd (omega (arith, e)))
        (of_decoded-Keeps (decode (take max_body_size r.body)) refl)
    where
      of_decoded-Keeps :
          (q : Result Request)
          → decode (take max_body_size r.body) ≡ q
          → Keeps conns r (of_decoded r id q)
      of_decoded-Keeps (err why) d = λ e. absurd (omega (arith, e))
      of_decoded-Keeps (ok req) d = elim (Bool-cases (is_notification req.id)) [
        | inl silent ↦ rw silent (λ e. inl (req, d, silent))
        | inr asked ↦ rw asked tt
      ]

  of_encoded-Keeps :
      (r : HttpRequest) (id : Str) (q : Result Str) (conns : Map Conn)
      → Keeps conns r (of_encoded r id q)
  of_encoded-Keeps r id (err why) conns = λ e. absurd (omega (arith, e))
  of_encoded-Keeps r id (ok m) conns = tt

  grown :
      {t u : Traffic}
      → Step process decode encode t u
      → AllKept t.conns t.replies
      → AllKept u.conns t.replies
  grown {t} {u} st h =
      AllKept-grows t.conns u.conns t.replies
        (λ id m. Step-HasAt process decode encode _ (IsSent-IsStable m) id st) h

  Step-AllKept :
      {t u : Traffic}
      → Step process decode encode t u
      → Inv process decode encode t
      → AllKept t.conns t.replies
      → AllKept u.conns u.replies
  Step-AllKept {t} (connect bytes fresh) v h = grown {t = t} (connect bytes fresh) h
  Step-AllKept {t} (refuse r why) v h =
      All-append (λ e. IsKeptPromise t.conns e.0 e.1) t.replies _ h
        ((λ e. absurd (omega (arith, e))), tt)
  Step-AllKept {t} (stream id there move) v h = grown {t = t} (stream id there move) h
  Step-AllKept {t} close_all v h = grown {t = t} close_all h
  Step-AllKept (arrive r) v h = h
  Step-AllKept {t} (look_up before after r e) v h =
      advance-AllKept t r before after (admit r t.conns) (admit-Keeps r t.conns) h
  Step-AllKept {t} (read before after r id read_ok e) v h =
      advance-AllKept t r before after (read_body process decode encode read_ok r id)
        (read_body-Keeps read_ok r id t.conns) h
  Step-AllKept (respond before after r id req acquired e) v h = h
  Step-AllKept {t} (marshal before after r id req resp e) v h =
      advance-AllKept t r before after (of_encoded r id (encode resp))
        (of_encoded-Keeps r id (encode resp) t.conns) h
  Step-AllKept {t} (put before after r id m {c} e there room) v h =
      let (named, answer) = known process decode encode t before after r id m e v in
      All-append (λ x. IsKeptPromise (insert id (put_in m c) t.conns) x.0 x.1) t.replies _
        (grown {t = t} (put before after r id m e there room) h)
        (
          (λ status. inr (
            m,
            answer,
            subst (λ i. IsSent (insert id (put_in m c) t.conns) i m) (sym named)
                (put_in-IsSent t.conns c id m),
          )),
          tt,
        )
  Step-AllKept {t} (expire before after r id m e) v h =
      advance-AllKept t r before after (reply _) (λ e. absurd (omega (arith, e))) h

  -- In any interleaving, if a request to /message was replied 202, then it was a notification, or the encoded
  -- response to it was put in for the session that its URL names, and is among this session's messages ever
  -- since: no answer to an accepted request is lost before the channel.
  pub replies-IsKeptPromise :
      (w : World) {t : Traffic} → Reach process decode encode (idle w) t → AllKept t.conns t.replies
  replies-IsKeptPromise w r =
      (run_keeps (λ u. Inv process decode encode u × AllKept u.conns u.replies)
        (λ x y st v. (Step-Inv process decode encode st v.0, Step-AllKept st v.0 v.1)) r (tt, tt)).1
