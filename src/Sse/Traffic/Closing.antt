-- ===== src/Sse/Traffic/Closing.antt =====
-- What the clients still get when CloseAllSessions comes.
use mathlib.Core.Option.{some-injective}
use mathlib.Core.Option
use jig_mcp.Prelude.{
  Str, some, List, [], ◌∷◌, Bool, true, ◌≡◌, ◌⊎◌, inl, inr, refl, ap, ◌∙◌, lookup, if_has,
}
use jig_mcp.Prelude.Result.{Result}
use jig_mcp.Auth.Caller.{Context}
use jig_mcp.Server.Call.{World}
use jig_mcp.Server.{Request, Response}
use jig_mcp.Sse.{Session, deliver, close_session}
use jig_mcp.Sse.Traffic.{
  over, Conn, taken, Move, receive, tick, see_done, drain, drained, client_gone, closed, Traffic,
  Reach, idle,
}
use jig_mcp.Sse.Traffic.Tracked.{deliver-at}
use jig_mcp.Sse.Traffic.Handlers.{IsKept}
use jig_mcp.Sse.Traffic.Kept.{IsKeptAt, Reach-at}

-- A stream that has not returned has its session in the map, or has been told to end.
abbrev pub IsLive : Str → Conn → Type 0
IsLive id c = (c.phase ≡ over) ⊎ (c.session.registered ≡ true) ⊎ (c.session.done ≡ true)

pub deliver-flags :
    (s : Session) (m : Str) (ms : List Str)
    → s.messages ≡ m ∷ ms
    → ((deliver s).registered ≡ s.registered) × ((deliver s).done ≡ s.done)
deliver-flags s m ms e = (
  ap (λ (u : Session). u.registered) (deliver-at s m ms e),
  ap (λ (u : Session). u.done) (deliver-at s m ms e),
)

taken-IsLive :
    (id : Str) (c : Conn) (m : Str) (ms : List Str)
    → c.session.messages ≡ m ∷ ms
    → IsLive id c
    → IsLive id (taken m c)
taken-IsLive id c m ms e (inl o) = inl o
taken-IsLive id c m ms e (inr (inl there)) = inr (inl ((deliver-flags c.session m ms e).0 ∙ there))
taken-IsLive id c m ms e (inr (inr asked)) = inr (inr ((deliver-flags c.session m ms e).1 ∙ asked))

Move-IsLive : (id : Str) (c d : Conn) → Move c d → IsLive id c → IsLive id d
Move-IsLive id c d (receive m ms e full) v = taken-IsLive id c m ms full v
Move-IsLive id c d (tick e) v = v
Move-IsLive id c d (see_done e asked) v = inr (inr asked)
Move-IsLive id c d (drain m ms e full) v = taken-IsLive id c m ms full v
Move-IsLive id c d (drained e empty) v = inl refl
Move-IsLive id c d (client_gone e) v = inl refl

-- CloseAllSessions tells every stream that is in the map to end.
pub closed-done :
    (s : Session) → (s.registered ≡ true) ⊎ (s.done ≡ true) → (close_session s).done ≡ true
unfolding close_session
closed-done s (inl there) = rw there refl
closed-done s (inr asked) = if_has (λ (u : Session). u.done ≡ true) s.registered refl asked

closed-IsLive : (id : Str) (c : Conn) → IsLive id c → IsLive id (closed c)
closed-IsLive id c (inl o) = inl o
closed-IsLive id c (inr runs) = inr (inr (closed-done c.session runs))

-- What is left of a stream that drains the channel and returns.
record Emptied (c d : Conn) : Type 0 where
  phase : d.phase ≡ over
  sent : d.sent ≡ c.sent
  nothing_left : d.session.messages ≡ []

module _ (process : Bool → Context → Request → World → World × Response)
    (decode : Str → Result Request) (encode : Response → Result Str) where
  IsLive-IsKeptAt : IsKeptAt process decode encode IsLive (λ h. Unit {0})
  IsLive-IsKeptAt = record {
    at_connect = λ bytes. inr (inl refl);
    at_move = Move-IsLive;
    at_close = closed-IsLive;
    at_put = λ r id m c q room v. v;
  }

  Unit-IsKept : IsKept process decode encode (λ h. Unit {0})
  Unit-IsKept = record {
    at_start = λ r. tt;
    at_map = λ r p. tt;
    at_body = λ r id req asks p. tt;
    at_process = λ r id req acquired w p. tt;
    at_encoding = λ r id req resp m e p. tt;
  }

  pub Reach-IsLive :
      (w : World) {t : Traffic} (id : Str) {c : Conn}
      → Reach process decode encode (idle w) t
      → lookup id t.conns ≡ some c
      → IsLive id c
  Reach-IsLive w id r there =
      Reach-at process decode encode IsLive (λ h. Unit {0}) IsLive-IsKeptAt Unit-IsKept w id r there
