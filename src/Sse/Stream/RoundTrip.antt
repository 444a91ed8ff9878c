-- ===== src/Sse/Stream/RoundTrip.antt =====
-- What a client reads of the bytes that the stream wrote.
use jig_mcp.Prelude.{
  arith, sym, ◌∙◌, ◌≢◌, push_front, if_has, eqb, cut, ℕ, Str, lit, List, [], ◌∷◌, ◌++◌, false, ◌==◌,
  ◌≡◌, refl, ap, append_assoc, has_byte, split, split-append, All,
}
use jig_mcp.Sse.Stream.{
  hex, session_id, Event, endpoint, message, keep_alive, write_event, write_events, Received,
  nothing, read_lines, complete, read_stream,
}

-- What the client gets of an event.
abbrev pub received : Event → List Received
received (endpoint id) =
    record { type = lit "endpoint"; payload = lit "/message?session_id=" ++ id } ∷ []
received (message m) = record { type = lit "message"; payload = m } ∷ []
received keep_alive = []

unfoldable pub received_all : List Event → List Received
received_all [] = []
received_all (e ∷ es) = received e ++ received_all es

abbrev pub IsLine : Str → Type 0
IsLine s = has_byte b'\n' s ≡ false

-- The event stays on its line.
abbrev pub IsOneLine : Event → Type 0
IsOneLine (endpoint id) = IsLine id
IsOneLine (message m) = IsLine m
IsOneLine keep_alive = Unit

push_front-ne-nil : (a : ℕ) (ls : List Str) → push_front a ls ≢ []
push_front-ne-nil a [] = cc
push_front-ne-nil a (l ∷ ls) = cc

split-ne-nil : (s : Str) → split b'\n' s ≢ []
unfolding split
split-ne-nil [] = cc
split-ne-nil (a ∷ s) =
    if_has (λ (ls : List Str). ls ≢ []) (eqb a b'\n') (cc) (push_front-ne-nil a (split b'\n' s))

pub received_all-append :
    (es fs : List Event) → received_all (es ++ fs) ≡ received_all es ++ received_all fs
unfolding received_all
received_all-append [] fs = refl
received_all-append (e ∷ es) fs =
    ap (λ (rs : List Received). received e ++ rs) (received_all-append es fs)
    ∙ sym (append_assoc (received e) (received_all es) (received_all fs))

-- The random id of a session has no line break.
pub session_id-IsLine : (bytes : List ℕ) → IsLine (session_id bytes)
unfolding session_id hex has_byte
session_id-IsLine bytes = hex-IsLine bytes
  where
    hex-IsLine : (bs : List ℕ) → IsLine (hex bs)
    hex-IsLine [] = refl
    hex-IsLine (b ∷ bs) = ground (arith, hex-IsLine bs)

complete_cons : (l : Str) (ls : List Str) → ls ≢ [] → complete (l ∷ ls) ≡ l ∷ complete ls
unfolding complete
complete_cons l [] h = absurd (h refl)
complete_cons l (k ∷ ks) h = refl

abbrev lines : Str → List Str
lines s = complete (split b'\n' s)

lines-append : (l s : Str) → has_byte b'\n' l ≡ false → lines (l ++ b'\n' ∷ s) ≡ l ∷ lines s
lines-append l s h =
    ap complete (split-append b'\n' l s h) ∙ complete_cons l (split b'\n' s) (split-ne-nil s)

-- An event of two lines, with the empty line behind it.
lines_of_two :
    (l k s : Str)
    → has_byte b'\n' l ≡ false
    → has_byte b'\n' k ≡ false
    → lines (l ++ b'\n' ∷ (k ++ b'\n' ∷ b'\n' ∷ s)) ≡ l ∷ k ∷ [] ∷ lines s
unfolding has_byte
lines_of_two l k s hl hk =
    lines-append l (k ++ b'\n' ∷ b'\n' ∷ s) hl
    ∙ ap (λ (ls : List Str). l ∷ ls) (lines-append k (b'\n' ∷ s) hk)
    ∙ ap (λ (ls : List Str). l ∷ k ∷ ls) (lines-append [] s refl)

write_event-read :
    (e : Event) (rest : Str)
    → IsOneLine e
    → read_stream (write_event e ++ rest) ≡ received e ++ read_stream rest
unfolding read_stream write_event read_lines cut ◌==◌ has_byte
write_event-read (endpoint id) rest h =
    ap (λ (s : Str). read_stream (lit "event: endpoint\ndata: /message?session_id=" ++ s))
      (append_assoc id (lit "\n\n") rest)
    ∙ ap (read_lines nothing)
        (lines_of_two (lit "event: endpoint") (lit "data: /message?session_id=" ++ id) rest refl h)
write_event-read (message m) rest h =
    ap (λ (s : Str). read_stream (lit "event: message\ndata: " ++ s))
      (append_assoc m (lit "\n\n") rest)
    ∙ ap (read_lines nothing) (lines_of_two (lit "event: message") (lit "data: " ++ m) rest refl h)
write_event-read keep_alive rest h = ap (read_lines nothing) (
    lines-append (lit ": keep-alive") (b'\n' ∷ rest) refl
    ∙ ap (λ (ls : List Str). lit ": keep-alive" ∷ ls) (lines-append [] rest refl))

-- Whatever events a stream has written, each message and id without a line break: a client that reads the
-- bytes gets the endpoint and the messages, in this order, and nothing of the comments.
pub write_events-read :
    (es : List Event) → All IsOneLine es → read_stream (write_events es) ≡ received_all es
unfolding write_events received_all
write_events-read [] h = unfold read_stream read_lines split complete in refl
write_events-read (e ∷ es) (h, hs) =
    write_event-read e (write_events es) h
    ∙ ap (λ (rs : List Received). received e ++ rs) (write_events-read es hs)
