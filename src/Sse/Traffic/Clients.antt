-- ===== src/Sse/Traffic/Clients.antt =====
-- What the client of a session reads, whatever the other goroutines do.
use jig_mcp.Prelude.{Str, some, ◌++◌, Bool, ◌≤◌, ◌≡◌, ◌∙◌, length, lookup}
use jig_mcp.Prelude.Result.{Result, ok}
use jig_mcp.Auth.Caller.{Context}
use jig_mcp.Server.Call.{World}
use jig_mcp.Server.{Request, Response}
use jig_mcp.Sse.{buffer_size}
use jig_mcp.Sse.Sessions.{History-IsValid}
use jig_mcp.Sse.Stream.{session_id, endpoint, write_events, read_stream}
use jig_mcp.Sse.Stream.RoundTrip.{received, IsLine, session_id-IsLine, write_events-read}
use jig_mcp.Sse.Traffic.{Conn, Handler, sending, Traffic, Reach, idle}
use jig_mcp.Sse.Traffic.Tracked.{
  as_received, IsTracked, new_conn-IsTracked, Move-IsTracked, put_in-IsTracked, closed-IsTracked,
}
use jig_mcp.Sse.Traffic.Kept.{IsKeptAt, Reach-at}
use jig_mcp.Sse.Traffic.Handlers.{IsKept}

-- What the client of a session reads of the bytes that its stream has written, and what is still to come.
pub record Reads (id : Str) (c : Conn) : Type 0 where
  pub reads :
      read_stream (write_events c.events) ≡ received (endpoint id) ++ as_received c.session.written
  pub in_order : c.session.written ++ c.session.messages ≡ c.sent
  pub bounded : length c.session.messages ≤ buffer_size

pub IsTracked-Reads : (id : Str) (c : Conn) → IsTracked id c → Reads id c
IsTracked-Reads id c v =
    let valid = History-IsValid v.history in
    record {
      reads = write_events-read c.events v.lines ∙ v.streamed;
      in_order = valid.in_order;
      bounded = valid.bounded;
    }

-- A message in the hands of a handler is a line.
abbrev pub HoldsLine : Handler → Type 0
HoldsLine (sending r id m) = IsLine m
HoldsLine _ = Unit

module _ (process : Bool → Context → Request → World → World × Response)
    (decode : Str → Result Request) (encode : Response → Result Str)
    (one_line : (resp : Response) (m : Str) → encode resp ≡ ok m → IsLine m) where
  pub HoldsLine-IsKept : IsKept process decode encode HoldsLine
  HoldsLine-IsKept = record {
    at_start = λ r. tt;
    at_map = λ r p. tt;
    at_body = λ r id req asks p. tt;
    at_process = λ r id req acquired w p. tt;
    at_encoding = λ r id req resp m e p. one_line resp m e;
  }

  pub IsTracked-IsKeptAt : IsKeptAt process decode encode IsTracked HoldsLine
  IsTracked-IsKeptAt = record {
    at_connect = λ bytes. new_conn-IsTracked (session_id bytes) (session_id-IsLine bytes);
    at_move = λ id c d move v. Move-IsTracked id move v;
    at_close = closed-IsTracked;
    at_put = λ r id m c line room v. put_in-IsTracked id m c room line v;
  }

  -- However streams, handlers and CloseAllSessions interleave, if no encoded response has a line break: the
  -- client of a session that reads the bytes of its stream gets the endpoint of this session and then the
  -- messages that the stream took out of the channel; these followed by the at most 100 messages still in
  -- the channel are the messages that were put in for this session, in their order.
  pub client-Reads :
      (w : World) {t : Traffic} (id : Str) {c : Conn}
      → Reach process decode encode (idle w) t
      → lookup id t.conns ≡ some c
      → Reads id c
  client-Reads w {t} id {c} r there = IsTracked-Reads id c (
      Reach-at process decode encode IsTracked HoldsLine IsTracked-IsKeptAt HoldsLine-IsKept w id r
        there)
