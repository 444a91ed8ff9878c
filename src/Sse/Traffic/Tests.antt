-- ===== src/Sse/Traffic/Tests.antt =====
-- A client connects, asks, and reads the answer.
use jig_mcp.Prelude.{
  Str, lit, [], ◌∷◌, true, ◌==◌, ◌≡◌, refl, subst, lookup, insert, here, next, has_byte, arith,
}
use jig_mcp.Prelude.Result.{ok}
use jig_mcp.Http.{HttpRequest}
use jig_mcp.Auth.Caller.{background}
use jig_mcp.Server.{Response}
use jig_mcp.Stdio.Sample.{world, ping, decode, encode, run}
use jig_mcp.Sse.{new_session, accepted}
use jig_mcp.Sse.Stream.{endpoint, message, keep_alive, session_id, hex, write_events, read_stream}
use jig_mcp.Sse.Stream.RoundTrip.{received_all, IsLine, write_events-read}
use jig_mcp.Sse.Traffic.{
  Conn, looping, tick, Traffic, idle, Reach, connect, arrive, look_up, read, respond, marshal, put,
  stream, admit, read_body,
}
use jig_mcp.Sse.Traffic.Clients.{Reads, client-Reads}
use jig_mcp.Sse.Traffic.Matched.{Matched, sent-Matched}
use jig_mcp.Sse.Traffic.Accepted.{AllKept, replies-IsKeptPromise}

abbrev the_id : Str
the_id = lit "session-"

abbrev query : Str → Str
query k = the_id

abbrev post : HttpRequest
post = record {
  method = lit "POST";
  authorization = [];
  query = query;
  remote_addr = lit "10.0.0.7:5000";
  body = lit "ping";
  ctx = background;
}

-- After the answer was put in, and before the stream takes it.
abbrev conn : Conn
conn = record {
  session = record new_session { messages = lit "{}" ∷ [] };
  phase = looping;
  events = endpoint the_id ∷ keep_alive ∷ [];
  sent = lit "{}" ∷ [];
}

abbrev served : Traffic
served = record {
  conns = (the_id, conn) ∷ [];
  handlers = [];
  world = (run true background ping world).0;
  replies = (post, accepted) ∷ [];
}

serves : Reach run decode encode (idle world) served
unfolding session_id hex insert lookup ◌==◌ admit read_body
serves =
    next
      (next
        (next
          (next
            (next
              (next (next (next here (connect [] refl)) (stream the_id refl (tick refl)))
                (arrive post))
              (look_up [] [] post refl))
            (read [] [] post the_id true refl))
          (respond [] [] post the_id ping true refl))
        (marshal [] [] post the_id ping (run true background ping world).1 refl))
      (put [] [] post the_id (lit "{}") refl refl (omega arith))

encode-IsLine : (resp : Response) (m : Str) → encode resp ≡ ok m → IsLine m
unfolding has_byte
encode-IsLine resp m e = subst IsLine braces refl
  where
    braces : lit "{}" ≡ m
    braces = cc e

client-Reads_example : Reads the_id conn
unfolding lookup ◌==◌
client-Reads_example = client-Reads run decode encode encode-IsLine world the_id serves refl

sent-Matched_example : Matched run decode encode the_id served.replies conn.sent
unfolding lookup ◌==◌
sent-Matched_example = sent-Matched run decode encode world the_id serves refl

replies-IsKeptPromise_example : AllKept run decode encode served.conns served.replies
replies-IsKeptPromise_example = replies-IsKeptPromise run decode encode world serves

write_events-read_example :
    read_stream (write_events (endpoint the_id ∷ keep_alive ∷ message (lit "{}") ∷ []))
    ≡ received_all (endpoint the_id ∷ keep_alive ∷ message (lit "{}") ∷ [])
unfolding has_byte
write_events-read_example =
    write_events-read (endpoint the_id ∷ keep_alive ∷ message (lit "{}") ∷ [])
      (refl, (tt, (refl, tt)))
