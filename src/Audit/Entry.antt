-- ===== src/Audit/Entry.antt =====
-- Record of internal/audit/audit.go, up to the encoding of the entry as a line.
pub mod Laws
use jig_mcp.Prelude.{
  ℕ, Str, lit, Map, Option, none, some, List, [], ◌∷◌, Bool, true, false, not, if◌then◌else◌, ◌==◌,
}
use jig_mcp.Value.{Value, as_text, as_bool, as_list, as_maps, as_object, assert_at}
use jig_mcp.Tools.Base.{ToolDef}
use jig_mcp.Audit.Redact.{redact_arguments, is_true}

pub record AuditEntry : Type 0 where
  pub timestamp : Str
  pub tool : Str
  pub caller : Str
  pub arguments : Map Value
  pub duration_ms : ℕ
  pub success : Bool
  pub error : Option Str

abbrev text_or_nothing : Option Str → Str
text_or_nothing none = []
text_or_nothing (some s) = s

abbrev text_of_object : Option (Map Value) → Str
text_of_object none = []
text_of_object (some m) = text_or_nothing (assert_at as_text (lit "text") m)

-- content[0]["text"] of a []map[string]any that is not empty.
abbrev first_map_text : Option (List (Map Value)) → Str
first_map_text none = []
first_map_text (some []) = []
first_map_text (some (m ∷ ms)) = text_of_object (some m)

-- The same of a []any; if it is empty or of another type, the other form is tried.
abbrev content_text : Option (List Value) → Option (List (Map Value)) → Str
content_text (some (v ∷ vs)) ms = text_of_object (as_object v)
content_text (some []) ms = first_map_text ms
content_text none ms = first_map_text ms

abbrev pub failed_object : Option (Map Value) → Bool
failed_object none = false
failed_object (some m) = is_true (assert_at as_bool (lit "isError") m)

unfoldable pub failed : Value → Bool
failed result = failed_object (as_object result)

abbrev message_of_object : Option (Map Value) → Str
message_of_object none = []
message_of_object (some m) =
    content_text (assert_at as_list (lit "content") m) (assert_at as_maps (lit "content") m)

unfoldable pub error_message : Value → Str
error_message result = if failed result then message_of_object (as_object result) else []

abbrev error_field : Bool → Str → Option Str
error_field failure message =
    if not (message == [])
    then some message
    else if failure
    then some (lit "unknown error")
    else none

-- The entry of a call. `now` is the formatted time.
unfoldable pub entry : Str → Str → Map Value → ℕ → Value → ToolDef → Str → AuditEntry
entry now tool_name args duration_ms result def caller_name = record {
  timestamp = now;
  tool = tool_name;
  caller = caller_name;
  arguments = redact_arguments def args;
  duration_ms = duration_ms;
  success = not (failed result);
  error = error_field (failed result) (error_message result);
}
