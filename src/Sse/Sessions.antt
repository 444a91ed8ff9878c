-- ===== src/Sse/Sessions.antt =====
-- Sessions through any sequence of events: bounded buffers, messages in order, and shutdown.
use jig_mcp.Prelude.{
  ltb→lt, ◌≤◌, ◌<◌, Str, List, [], ◌∷◌, ◌++◌, true, false, if◌then◌else◌, length, length-append,
  ltb, append_assoc, ◌≡◌, refl, sym, ◌∙◌, ap, arith, Bool-cases, inl, inr,
}
use jig_mcp.Sse.{
  Session, buffer_size, new_session, shutdown_message, deliver, deliver_from, leave, close_session,
}

-- The messages put in after CloseAllSessions passed: the shutdown message, if there was room.
abbrev pub sent_by_close : Session → List Str → List Str
sent_by_close s sent =
    if s.registered
    then if ltb (length s.messages) buffer_size then sent ++ (shutdown_message ∷ []) else sent
    else sent

-- What happens to one session: a message is put into its buffer while that has room, the stream sends the
-- next message, CloseAllSessions passes, or the stream ends. The list is of the messages put in so far.
pub data Event : Session → List Str → Session → List Str → Type 0 where
  put :
      {s : Session} {sent : List Str} (m : Str)
      → length s.messages < buffer_size
      → Event s sent (record s { messages = s.messages ++ (m ∷ []) }) (sent ++ (m ∷ []))
  stream : {s : Session} {sent : List Str} → Event s sent (deliver s) sent
  shut : {s : Session} {sent : List Str} → Event s sent (close_session s) (sent_by_close s sent)
  end : {s : Session} {sent : List Str} → Event s sent (leave s) sent

pub data History : Session → List Str → Type 0 where
  opened : History new_session []
  next : {s t : Session} {a b : List Str} → History s a → Event s a t b → History t b

pub record IsValid (s : Session) (sent : List Str) : Type 0 where
  pub bounded : length s.messages ≤ buffer_size
  pub in_order : s.written ++ s.messages ≡ sent
  pub unregistered : s.done ≡ true → s.registered ≡ false

put-in_order :
    (s : Session) (sent : List Str) (m : Str)
    → s.written ++ s.messages ≡ sent
    → s.written ++ (s.messages ++ (m ∷ [])) ≡ sent ++ (m ∷ [])
put-in_order s sent m e =
    sym (append_assoc s.written s.messages (m ∷ [])) ∙ ap (λ (l : List Str). l ++ (m ∷ [])) e

put-bounded :
    (s : Session) (m : Str)
    → length s.messages < buffer_size
    → length (s.messages ++ (m ∷ [])) ≤ buffer_size
put-bounded s m room = omega (arith, length-append s.messages (m ∷ []))

deliver-IsValid : (s : Session) (sent : List Str) → IsValid s sent → IsValid (deliver s) sent
unfolding deliver
deliver-IsValid s sent v = by_buffer s.messages v.bounded v.in_order
  where
    by_buffer :
        (ms : List Str)
        → length ms ≤ buffer_size
        → s.written ++ ms ≡ sent
        → IsValid (deliver_from (record s { messages = ms }) ms) sent
    by_buffer [] b o = record { bounded = b; in_order = o; unregistered = v.unregistered }
    by_buffer (m ∷ ms) b o = record {
      bounded = omega arith;
      in_order = append_assoc s.written (m ∷ []) ms ∙ o;
      unregistered = v.unregistered;
    }

close-IsValid :
    (s : Session) (sent : List Str)
    → IsValid s sent
    → IsValid (close_session s) (sent_by_close s sent)
unfolding close_session
close-IsValid s sent v = elim (Bool-cases s.registered) [
  | inl there ↦ elim (Bool-cases (ltb (length s.messages) buffer_size)) [
    | inl room ↦ rw there (
        rw room (record {
          bounded = put-bounded s shutdown_message (ltb→lt (length s.messages) buffer_size room);
          in_order = put-in_order s sent shutdown_message v.in_order;
          unregistered = λ e. refl;
        }))
    | inr full ↦
        rw there (
          rw full (record { bounded = v.bounded; in_order = v.in_order; unregistered = λ e. refl }))
  ]
  | inr gone ↦
      rw gone (record { bounded = v.bounded; in_order = v.in_order; unregistered = λ e. refl })
]

Event-IsValid : {s t : Session} {a b : List Str} → Event s a t b → IsValid s a → IsValid t b
unfolding leave
Event-IsValid (put {s} {sent} m room) v = record {
  bounded = put-bounded s m room;
  in_order = put-in_order s sent m v.in_order;
  unregistered = v.unregistered;
}
Event-IsValid (stream {s} {sent}) v = deliver-IsValid s sent v
Event-IsValid (shut {s} {sent}) v = close-IsValid s sent v
Event-IsValid (end {s} {sent}) v = record {
  bounded = v.bounded;
  in_order = v.in_order;
  unregistered = λ e. refl;
}

-- Whatever happens to a session, its buffer never holds more than 100 messages, what its stream has sent
-- followed by what is buffered is what was put in, in this order, and a session that is shut down is no
-- longer in the map.
pub History-IsValid : {s : Session} {sent : List Str} → History s sent → IsValid s sent
History-IsValid opened = record { bounded = omega arith; in_order = refl; unregistered = λ e. cc }
History-IsValid (next h e) = Event-IsValid e (History-IsValid h)
