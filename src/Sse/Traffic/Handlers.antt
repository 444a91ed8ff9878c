-- ===== src/Sse/Traffic/Handlers.antt =====
-- What the handlers of the traffic have, if each of their steps keeps it.
use jig_mcp.Prelude.{
  Str, lit, Map, Option, none, some, List, [], ◌∷◌, ◌++◌, Bool, false, not, ◌==◌, ◌≡◌, refl, subst,
  lookup, take, All, All-append, All-take_out, All-put_in, if_has, Bool-cases, inl, inr,
}
use jig_mcp.Prelude.Result.{Result, ok, err}
use jig_mcp.Http.{HttpRequest}
use jig_mcp.Auth.Caller.{Context}
use jig_mcp.Server.Call.{World}
use jig_mcp.Server.{Request, Response}
use jig_mcp.Sse.{max_body_size, is_notification}
use jig_mcp.Sse.Traffic.{
  Conn, Handler, arrived, admitted, serving, answered, sending, Traffic, Next, reply, go, found,
  admit, advance, of_decoded, of_encoded, read_body, Step, connect, refuse, stream, close_all,
  arrive, look_up, read, respond, marshal, put, expire,
}

module _ (process : Bool → Context → Request → World → World × Response)
    (decode : Str → Result Request) (encode : Response → Result Str) where
  -- The body decodes to a request that is to be answered.
  pub record Asks (r : HttpRequest) (req : Request) : Type 0 where
    pub decodes : decode (take max_body_size r.body) ≡ ok req
    pub answerable : is_notification req.id ≡ false

  module _ {κ} (P : Handler → Type κ) where
    pub record IsKept : Type κ where
      pub at_start : (r : HttpRequest) → P (arrived r)
      pub at_map : (r : HttpRequest) → P (arrived r) → P (admitted r (r.query (lit "session_id")))
      pub at_body :
          (r : HttpRequest) (id : Str) (req : Request)
          → Asks r req
          → P (admitted r id)
          → P (serving r id req)
      pub at_process :
          (r : HttpRequest) (id : Str) (req : Request) (acquired : Bool) (w : World)
          → P (serving r id req)
          → P (answered r id req (process acquired r.ctx req w).1)
      pub at_encoding :
          (r : HttpRequest) (id : Str) (req : Request) (resp : Response) (m : Str)
          → encode resp ≡ ok m
          → P (answered r id req resp)
          → P (sending r id m)

    abbrev NextHas : Next → Type κ
    NextHas (reply x) = Unit
    NextHas (go h) = P h

    advance-All :
        (t : Traffic) (r : HttpRequest) (before after : List Handler) (n : Next)
        → NextHas n
        → All P (before ++ after)
        → All P (advance t r before after n).handlers
    advance-All t r before after (reply x) p h = h
    advance-All t r before after (go x) p h = All-put_in P before x after p h

    module _ (kept : IsKept) where
      found-NextHas :
          (r : HttpRequest) (o : Option Conn)
          → P (arrived r)
          → NextHas (found r (r.query (lit "session_id")) o)
      found-NextHas r none p = tt
      found-NextHas r (some c) p = if_has NextHas c.session.registered (kept.at_map r p) tt

      admit-NextHas : (r : HttpRequest) (conns : Map Conn) → P (arrived r) → NextHas (admit r conns)
      unfolding admit
      admit-NextHas r conns p = if_has NextHas (not (r.method == lit "POST")) tt (
          if_has NextHas (r.query (lit "session_id") == []) tt
            (found-NextHas r (lookup (r.query (lit "session_id")) conns) p))

      of_decoded-NextHas :
          (r : HttpRequest) (id : Str) (q : Result Request)
          → decode (take max_body_size r.body) ≡ q
          → P (admitted r id)
          → NextHas (of_decoded r id q)
      of_decoded-NextHas r id (err e) d p = tt
      of_decoded-NextHas r id (ok req) d p = elim (Bool-cases (is_notification req.id)) [
        | inl silent ↦ rw silent tt
        | inr asked ↦
            rw asked (kept.at_body r id req (record { decodes = d; answerable = asked }) p)
      ]

      read_body-NextHas :
          (read_ok : Bool) (r : HttpRequest) (id : Str)
          → P (admitted r id)
          → NextHas (read_body process decode encode read_ok r id)
      unfolding read_body
      read_body-NextHas read_ok r id p =
          if_has NextHas (not read_ok) tt
            (of_decoded-NextHas r id (decode (take max_body_size r.body)) refl p)

      of_encoded-NextHas :
          (r : HttpRequest) (id : Str) (req : Request) (resp : Response) (q : Result Str)
          → encode resp ≡ q
          → P (answered r id req resp)
          → NextHas (of_encoded r id q)
      of_encoded-NextHas r id req resp (err e) d p = tt
      of_encoded-NextHas r id req resp (ok m) d p = kept.at_encoding r id req resp m d p

      -- The handler that makes the step, and the others.
      pub apart :
          (hs before : List Handler) (x : Handler) (after : List Handler)
          → hs ≡ before ++ (x ∷ after)
          → All P hs
          → P x × All P (before ++ after)
      apart hs before x after e h = All-take_out P before x after (subst (All P) e h)

      pub Step-handlers :
          {t u : Traffic} → Step process decode encode t u → All P t.handlers → All P u.handlers
      Step-handlers (connect bytes fresh) h = h
      Step-handlers (refuse r why) h = h
      Step-handlers (stream id there move) h = h
      Step-handlers close_all h = h
      Step-handlers {t} (arrive r) h =
          All-append P t.handlers (arrived r ∷ []) h (kept.at_start r, tt)
      Step-handlers {t} (look_up before after r e) h =
          let (p, rest) = apart t.handlers before (arrived r) after e h in
          advance-All t r before after (admit r t.conns) (admit-NextHas r t.conns p) rest
      Step-handlers {t} (read before after r id read_ok e) h =
          let (p, rest) = apart t.handlers before (admitted r id) after e h in
          advance-All t r before after (read_body process decode encode read_ok r id)
            (read_body-NextHas read_ok r id p) rest
      Step-handlers {t} (respond before after r id req acquired e) h =
          let (p, rest) = apart t.handlers before (serving r id req) after e h in
          All-put_in P before (answered r id req (process acquired r.ctx req t.world).1) after
            (kept.at_process r id req acquired t.world p) rest
      Step-handlers {t} (marshal before after r id req resp e) h =
          let (p, rest) = apart t.handlers before (answered r id req resp) after e h in
          advance-All t r before after (of_encoded r id (encode resp))
            (of_encoded-NextHas r id req resp (encode resp) refl p) rest
      Step-handlers {t} (put before after r id m e there room) h =
          (apart t.handlers before (sending r id m) after e h).1
      Step-handlers {t} (expire before after r id m e) h =
          (apart t.handlers before (sending r id m) after e h).1
