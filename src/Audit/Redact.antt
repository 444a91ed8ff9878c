-- ===== src/Audit/Redact.antt =====
-- redactArguments of internal/audit/audit.go.
use jig_mcp.Prelude.{
  Str, lit, Map, Option, none, some, List, [], ◌∷◌, Bool, true, false, if◌then◌else◌, lookup,
}
use jig_mcp.Value.{Value, text, as_object, as_bool, assert_at}
use jig_mcp.Tools.Base.{ToolDef}
pub mod Laws

abbrev pub redacted : Value
redacted = text (lit "[REDACTED]")

abbrev pub is_true : Option Bool → Bool
is_true (some b) = b
is_true none = false

abbrev pub sensitive_property : Option (Map Value) → Bool
sensitive_property none = false
sensitive_property (some prop) = is_true (assert_at as_bool (lit "sensitive") prop)

-- The test of the loop: properties[k] is an object with "sensitive": true.
unfoldable pub is_sensitive : Map Value → Str → Bool
is_sensitive properties k = sensitive_property (assert_at as_object k properties)

unfoldable pub redact_with : Map Value → Map Value → Map Value
redact_with properties [] = []
redact_with properties ((k, v) ∷ args) =
    (k, if is_sensitive properties k then redacted else v) ∷ redact_with properties args

-- A nil schema has no key.
abbrev pub schema_of : Option (Map Value) → Map Value
schema_of none = []
schema_of (some m) = m

abbrev pub redact_if : Option (Map Value) → Map Value → Map Value
redact_if none args = args
redact_if (some properties) args = redact_with properties args

abbrev pub properties_of : ToolDef → Option (Map Value)
properties_of def = assert_at as_object (lit "properties") (schema_of def.input_schema)

unfoldable pub redact_arguments : ToolDef → Map Value → Map Value
redact_arguments def args = redact_if (properties_of def) args
