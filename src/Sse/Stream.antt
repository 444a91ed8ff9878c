-- ===== src/Sse/Stream.antt =====
-- The bytes of the event stream that handleSSE of internal/sse/sse.go writes, and a client that reads them.
pub mod RoundTrip
use jig_mcp.Prelude.{
  ◌+◌, ◌-◌, ◌/◌, ◌%◌, ltb, eqb, ℕ, Str, lit, Option, none, some, List, [], ◌∷◌, ◌++◌, if◌then◌else◌,
  ◌==◌, split, cut,
}

-- What handleSSE writes at a time: the endpoint with the session's id, a message, a comment.
pub data Event : Type 0 where
  endpoint : Str → Event
  message : Str → Event
  keep_alive : Event

unfoldable pub write_event : Event → Str
write_event (endpoint id) = lit "event: endpoint\ndata: /message?session_id=" ++ (id ++ lit "\n\n")
write_event (message m) = lit "event: message\ndata: " ++ (m ++ lit "\n\n")
write_event keep_alive = lit ": keep-alive\n\n"

unfoldable pub write_events : List Event → Str
write_events [] = []
write_events (e ∷ es) = write_event e ++ write_events es

-- fmt.Sprintf("session-%x", idBytes)
abbrev hex_digit : ℕ → ℕ
hex_digit n = if ltb n 10 then b'0' + n else b'a' + (n - 10)

unfoldable pub hex : List ℕ → Str
hex [] = []
hex (b ∷ bs) = hex_digit (b / 16) ∷ hex_digit (b % 16) ∷ hex bs

unfoldable pub session_id : List ℕ → Str
session_id bytes = lit "session-" ++ hex bytes

-- A client after the standard of server-sent events, for streams whose lines end in \n: an event is
-- dispatched at an empty line, if it has data.
pub record Received : Type 0 where
  pub type : Str
  pub payload : Str

pub record Pending : Type 0 where
  pub type : Str
  pub payload : Option Str

abbrev pub nothing : Pending
nothing = record { type = []; payload = none }

abbrev pub add_data : Option Str → Str → Str
add_data none value = value
add_data (some d) value = d ++ (lit "\n" ++ value)

abbrev pub drop_space : Str → Str
drop_space [] = []
drop_space (c ∷ s) = if eqb c b' ' then s else c ∷ s

abbrev pub set_field : Pending → Str → Str → Pending
set_field p name value =
    if name == lit "event"
    then record p { type = value }
    else if name == lit "data"
    then record p { payload = some (add_data p.payload value) }
    else p

abbrev pub set_cut : Pending → Str → Option (Str × Str) → Pending
set_cut p line none = set_field p line []
set_cut p line (some (name, value)) = set_field p name (drop_space value)

-- A line that is not empty. One that begins with a colon has the empty name, and is ignored.
abbrev pub add_line : Pending → Str → Pending
add_line p line = set_cut p line (cut b':' line)

abbrev pub type_or_message : Str → Str
type_or_message [] = lit "message"
type_or_message (c ∷ s) = c ∷ s

abbrev pub dispatched : Str → Option Str → List Received
dispatched type none = []
dispatched type (some d) = record { type = type_or_message type; payload = d } ∷ []

unfoldable pub read_lines : Pending → List Str → List Received
read_lines p [] = []
read_lines p ([] ∷ ls) = dispatched p.type p.payload ++ read_lines nothing ls
read_lines p ((c ∷ s) ∷ ls) = read_lines (add_line p (c ∷ s)) ls

-- The lines that have ended: all parts but the last.
unfoldable pub complete : List Str → List Str
complete [] = []
complete (l ∷ []) = []
complete (l ∷ k ∷ ks) = l ∷ complete (k ∷ ks)

unfoldable pub read_stream : Str → List Received
read_stream bytes = read_lines nothing (complete (split b'\n' bytes))
