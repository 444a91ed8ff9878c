-- ===== src/Tools/Base.antt =====
-- internal/tools/base.go and common/common.go
use jig_mcp.Prelude.{ℕ, suc, ◌*◌, ◌^◌, Str, lit, Map, Option, some, [], true, if◌then◌else◌, ◌==◌}
use jig_mcp.Prelude.Int.{ℤ, pos}
use jig_mcp.Value.{Value, text, object, maps, bool, field, end, also, no_more}
use jig_mcp.Config.{ToolConfig}
use jig_mcp.Tools.Runtime.{Runtime}

-- common.ToolDef
pub record ToolDef : Type 0 where
  pub name : Str
  pub description : Str
  pub input_schema : Option (Map Value)

unfoldable pub definition : ToolConfig → ToolDef
definition config = record {
  name = config.name;
  description = config.description;
  input_schema = config.input_schema;
}

-- in nanoseconds
abbrev pub default_global_timeout : ℕ
default_global_timeout = 30 * 10 ^ 9

abbrev pub positive_or : Option ℤ → ℕ → ℕ
positive_or (some (pos (suc d))) fallback = suc d
positive_or _ fallback = fallback

unfoldable pub effective_timeout : Runtime → ToolConfig → ℕ → ℕ
effective_timeout rt config fallback =
    if config.timeout == []
    then fallback
    else positive_or (rt.parse_duration config.timeout) fallback

-- content: []map[string]any{{"type": "text", "text": msg}}
abbrev pub text_content : Str → Value
text_content msg =
    maps (also (field (lit "type") (text (lit "text")) (field (lit "text") (text msg) end)) no_more)

unfoldable pub error_result : Str → Value
error_result msg =
    object (field (lit "content") (text_content msg) (field (lit "isError") (bool true) end))

unfoldable pub text_result : Str → Value
text_result msg = object (field (lit "content") (text_content msg) end)
