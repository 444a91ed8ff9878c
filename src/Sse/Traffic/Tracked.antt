-- ===== src/Sse/Traffic/Tracked.antt =====
-- Every session in the traffic goes through a history of its own, and its client reads what was put in.
use jig_mcp.Prelude.{
  has_byte, ◌<◌, length, ltb, lit, Str, List, [], ◌∷◌, ◌++◌, ◌≡◌, refl, ap, ◌∙◌, sym, subst, map,
  append-nil, All, All-append, if_has,
}
use jig_mcp.Sse.{
  buffer_size, Session, deliver, deliver_from, leave, close_session, shutdown_message,
}
use jig_mcp.Sse.Sessions.{History, opened, put, stream, shut, end, History-IsValid}
use jig_mcp.Sse.Sessions
use jig_mcp.Sse.Stream.{endpoint, message, keep_alive, Received}
use jig_mcp.Sse.Stream.RoundTrip.{received, received_all, received_all-append, IsLine, IsOneLine}
use jig_mcp.Sse.Traffic.{
  Conn, new_conn, taken, returned, Move, receive, tick, see_done, drain, drained, client_gone,
  closed, put_in,
}

-- What a client gets of messages.
abbrev pub as_received : List Str → List Received
as_received ms = map (λ m. record { type = lit "message"; payload = m }) ms

as_received-snoc :
    (ms : List Str) (m : Str)
    → as_received (ms ++ (m ∷ [])) ≡ as_received ms ++ as_received (m ∷ [])
as_received-snoc [] m = refl
as_received-snoc (n ∷ ms) m =
    ap (λ (rs : List Received). as_received (n ∷ []) ++ rs) (as_received-snoc ms m)

-- The session has the history of the messages that were put in, and its stream has written, as events, the
-- endpoint and what it has taken out of the channel.
pub record IsTracked (id : Str) (c : Conn) : Type 0 where
  pub history : History c.session c.sent
  pub streamed : received_all c.events ≡ received (endpoint id) ++ as_received c.session.written
  pub lines : All IsOneLine c.events
  pub waiting : All IsLine c.session.messages

pub deliver-at :
    (s : Session) (m : Str) (ms : List Str)
    → s.messages ≡ m ∷ ms
    → deliver s ≡ record s { messages = ms; written = s.written ++ (m ∷ []) }
unfolding deliver
deliver-at s m ms e = ap (deliver_from s) e

shutdown-IsLine : IsLine shutdown_message
unfolding has_byte
shutdown-IsLine = refl

close_session-written : (s : Session) → (close_session s).written ≡ s.written
unfolding close_session
close_session-written s =
    if_has Same s.registered (if_has Same (ltb (length s.messages) buffer_size) refl refl) refl
  where
    Same : Session → Type 0
    Same u = u.written ≡ s.written

close_session-lines : (s : Session) → All IsLine s.messages → All IsLine (close_session s).messages
unfolding close_session
close_session-lines s h =
    if_has Lines s.registered
      (if_has Lines (ltb (length s.messages) buffer_size)
        (All-append IsLine s.messages (shutdown_message ∷ []) h (shutdown-IsLine, tt)) h)
      h
  where
    Lines : Session → Type 0
    Lines u = All IsLine u.messages

pub new_conn-IsTracked : (id : Str) → IsLine id → IsTracked id (new_conn id)
unfolding received_all
new_conn-IsTracked id h = record {
  history = opened;
  streamed = refl;
  lines = (h, tt);
  waiting = tt;
}

module _ (id : Str) where
  taken-IsTracked :
      (c : Conn) (m : Str) (ms : List Str)
      → c.session.messages ≡ m ∷ ms
      → IsTracked id c
      → IsTracked id (taken m c)
  unfolding received_all
  taken-IsTracked c m ms e v =
      let all_lines : All IsLine (m ∷ ms) = subst (All IsLine) e v.waiting in
      record {
        history = Sessions.next v.history stream;
        streamed =
            received_all-append c.events (message m ∷ [])
            ∙ ap (λ (l : List Received). l ++ as_received (m ∷ [])) v.streamed
            ∙ ap (λ (l : List Received). received (endpoint id) ++ l)
                (sym (as_received-snoc c.session.written m))
            ∙ ap (λ (s : Session). received (endpoint id) ++ as_received s.written)
                (sym (deliver-at c.session m ms e));
        lines = All-append IsOneLine c.events (message m ∷ []) v.lines (all_lines.0, tt);
        waiting =
            subst (λ (s : Session). All IsLine s.messages) (sym (deliver-at c.session m ms e))
              all_lines.1;
      }

  returned-IsTracked : (c : Conn) → IsTracked id c → IsTracked id (returned c)
  unfolding leave
  returned-IsTracked c v = record {
    history = Sessions.next v.history end;
    streamed = v.streamed;
    lines = v.lines;
    waiting = v.waiting;
  }

  pub Move-IsTracked : {c d : Conn} → Move c d → IsTracked id c → IsTracked id d
  unfolding received_all
  Move-IsTracked {c} (receive m ms e full) v = taken-IsTracked c m ms full v
  Move-IsTracked {c} (tick e) v = record {
    history = v.history;
    streamed =
        received_all-append c.events (keep_alive ∷ [])
        ∙ append-nil (received_all c.events)
        ∙ v.streamed;
    lines = All-append IsOneLine c.events (keep_alive ∷ []) v.lines (tt, tt);
    waiting = v.waiting;
  }
  Move-IsTracked {c} (see_done e is_done) v = record {
    history = v.history;
    streamed = v.streamed;
    lines = v.lines;
    waiting = v.waiting;
  }
  Move-IsTracked {c} (drain m ms e full) v = taken-IsTracked c m ms full v
  Move-IsTracked {c} (drained e empty) v = returned-IsTracked c v
  Move-IsTracked {c} (client_gone e) v = returned-IsTracked c v

  pub put_in-IsTracked :
      (m : Str) (c : Conn)
      → length c.session.messages < buffer_size
      → IsLine m
      → IsTracked id c
      → IsTracked id (put_in m c)
  put_in-IsTracked m c room line v = record {
    history = Sessions.next v.history (put m room);
    streamed = v.streamed;
    lines = v.lines;
    waiting = All-append IsLine c.session.messages (m ∷ []) v.waiting (line, tt);
  }

  pub closed-IsTracked : (c : Conn) → IsTracked id c → IsTracked id (closed c)
  closed-IsTracked c v = record {
    history = Sessions.next v.history shut;
    streamed =
        v.streamed
        ∙ ap (λ (ms : List Str). received (endpoint id) ++ as_received ms)
            (sym (close_session-written c.session));
    lines = v.lines;
    waiting = close_session-lines c.session v.waiting;
  }
