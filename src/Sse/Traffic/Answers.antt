-- ===== src/Sse/Traffic/Answers.antt =====
-- What is known of a handler: the session that it names, and the answer that it holds.
use jig_mcp.Prelude.{Str, lit, List, ◌∷◌, ◌++◌, Bool, ◌≡◌, refl, sym, ap, ◌∙◌, All}
use jig_mcp.Prelude.Result.{Result, ok}
use jig_mcp.Http.{HttpRequest}
use jig_mcp.Auth.Caller.{Context}
use jig_mcp.Server.Call.{World}
use jig_mcp.Server.{Request, Response}
use jig_mcp.Sse.Traffic.{
  Conn, Move, receive, tick, see_done, drain, drained, client_gone, Handler, arrived, admitted,
  serving, answered, sending, Traffic, Step,
}
use jig_mcp.Sse.Traffic.Handlers.{Asks, IsKept, Step-handlers, apart}

pub Move-sent : {c d : Conn} → Move c d → d.sent ≡ c.sent
Move-sent (receive m ms e full) = refl
Move-sent (tick e) = refl
Move-sent (see_done e is_done) = refl
Move-sent (drain m ms e full) = refl
Move-sent (drained e empty) = refl
Move-sent (client_gone e) = refl

abbrev pub session_of : HttpRequest → Str
session_of r = r.query (lit "session_id")

module _ (process : Bool → Context → Request → World → World × Response)
    (decode : Str → Result Request) (encode : Response → Result Str) where
  -- The message is the encoded response of ProcessRequest to the request in the body.
  pub record IsAnswer (r : HttpRequest) (m : Str) : Type 0 where
    pub req : Request
    pub acquired : Bool
    pub world : World
    pub asks : Asks process decode encode r req
    pub encoded : encode (process acquired r.ctx req world).1 ≡ ok m

  abbrev Knows : Handler → Type 0
  Knows (arrived r) = Unit
  Knows (admitted r id) = session_of r ≡ id
  Knows (serving r id req) = (session_of r ≡ id) × Asks process decode encode r req
  Knows (answered r id req resp) =
      (session_of r ≡ id)
      × Asks process decode encode r req
      × ((acquired : Bool) × (w : World) × (resp ≡ (process acquired r.ctx req w).1))
  Knows (sending r id m) = (session_of r ≡ id) × IsAnswer r m

  Knows-IsKept : IsKept process decode encode Knows
  Knows-IsKept = record {
    at_start = λ r. tt;
    at_map = λ r p. refl;
    at_body = λ r id req asks p. (p, asks);
    at_process = λ r id req acquired w p. (p.0, p.1, (acquired, w, refl));
    at_encoding = λ r id req resp m e p. (
      p.0,
      record {
        req = req;
        acquired = p.2.0;
        world = p.2.1;
        asks = p.1;
        encoded = ap encode (sym p.2.2) ∙ e;
      },
    );
  }

  pub known :
      (t : Traffic) (before after : List Handler) (r : HttpRequest) (id m : Str)
      → t.handlers ≡ before ++ (sending r id m ∷ after)
      → All Knows t.handlers
      → (session_of r ≡ id) × IsAnswer r m
  known t before after r id m e h =
      (apart process decode encode Knows Knows-IsKept t.handlers before (sending r id m) after e
        h).0

  -- What is known of the handlers.
  abbrev pub Inv : Traffic → Type 0
  Inv t = All Knows t.handlers

  pub Step-Inv : {t u : Traffic} → Step process decode encode t u → Inv t → Inv u
  Step-Inv st v = Step-handlers process decode encode Knows Knows-IsKept st v
