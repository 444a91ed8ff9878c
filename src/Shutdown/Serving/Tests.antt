-- ===== src/Shutdown/Serving/Tests.antt =====
-- One client is connected when the shutdown comes; its stream returns after the servers are shut down.
use jig_mcp.Prelude.{
  ℕ, Str, lit, some, none, [], ◌∷◌, true, false, ◌==◌, ◌≡◌, refl, lookup, insert, map, HasAt, here,
  next,
}
use jig_mcp.Audit.Writer.{nil, opened}
use jig_mcp.Audit.Writer
use jig_mcp.Sse.{new_session, close_session, shutdown_message, leave}
use jig_mcp.Sse.Stream.{session_id, hex, endpoint}
use jig_mcp.Sse.Traffic.{
  Conn, new_conn, over, Traffic, connect, stream, client_gone, see_done, idle,
}
use jig_mcp.Sse.Traffic
use jig_mcp.Stdio.Sample.{world, decode, encode, run}
use jig_mcp.Shutdown.Serving.{
  exited, stopping, shutting, Serving, sessions_closed, Reach, client, shut, waited, close_log,
}
use jig_mcp.Shutdown.Serving.Told.{IsTold, exited-HasTold}

-- A server is the number of listeners that it has open.
abbrev shut_server : ℕ → ℕ
shut_server n = 0

abbrev the_id : Str
the_id = lit "session-"

abbrev connected : Traffic
connected = record (idle world) { conns = (the_id, new_conn the_id) ∷ [] }

connects : Traffic.Reach run decode encode (idle world) connected
unfolding session_id hex insert lookup
connects = next here (connect [] refl)

abbrev before : Serving ℕ
before = record {
  stage = stopping;
  traffic = connected;
  servers = 1 ∷ [];
  audit = record {
    writer = record { file = opened; root = opened; log_dir = lit "logs"; warn_last = none };
    disk = λ d n. none;
  };
}

abbrev gone : Conn
gone = record {
  session = record new_session {
    messages = shutdown_message ∷ [];
    done = true;
    registered = false;
  };
  phase = over;
  events = endpoint the_id ∷ [];
  sent = shutdown_message ∷ [];
}

abbrev after : Serving ℕ
after = record {
  stage = exited;
  traffic = record connected { conns = (the_id, gone) ∷ [] };
  servers = 0 ∷ [];
  audit = record {
    writer = record { file = nil; root = nil; log_dir = []; warn_last = none };
    disk = λ d n. none;
  };
}

ends :
    Reach shut_server run decode encode
      (record before { stage = shutting; traffic = sessions_closed connected })
      after
unfolding insert lookup ◌==◌ close_session leave Writer.close
ends =
    next
      (next (next (next here (shut refl)) (client (stream the_id refl (client_gone refl)) refl))
        (waited refl))
      (close_log refl)

exited-HasTold_example :
    (after.servers ≡ map shut_server before.servers)
    × (after.audit.writer.file ≡ nil)
    × ((id : Str) (c : Conn)
        → lookup id connected.conns ≡ some c
        → HasAt IsTold id after.traffic.conns)
exited-HasTold_example =
    exited-HasTold shut_server run decode encode world before connects ends refl
