-- ===== src/Audit/Tests.antt =====
-- The audit log on concrete calls and files.
use mathlib.Core.Option
use jig_mcp.Prelude.{
  String, lit, Map, none, some, List, [], ◌∷◌, ◌++◌, true, ◌≡◌, inl, refl, ◌==◌, lookup, contains,
  has_prefix, if◌then◌else◌, ltb,
}
use jig_mcp.Prelude.Result.{ok, err}
use jig_mcp.Value.{Value, text, bool, object, field, end}
use jig_mcp.Tools.Base.{ToolDef}
use jig_mcp.Audit.Redact.{redacted, redact_arguments, redact_with, is_sensitive}
use jig_mcp.Audit.Redact.Laws.{IsSensitive, redact_arguments_lem}
use jig_mcp.Audit.Entry.{AuditEntry, entry}
use jig_mcp.Audit.Files.{Files}
use jig_mcp.Audit.Writer.{World, Settings, nil, configured_dir}
use jig_mcp.Audit.Writer.Trail.{all_succeed}
use jig_mcp.Audit.Writer.History.{
  Op, recorded, closing, log_of, run_ops, text_of, dropped, AllSucceed, run_ops-log,
}

abbrev login : ToolDef
login = record {
  name = lit "login";
  description = lit "signs in";
  input_schema = some (
      (
        lit "properties",
        object (field (lit "password") (object (field (lit "sensitive") (bool true) end)) end),
      )
      ∷ []);
}

abbrev args_with : String → Map Value
args_with s = (lit "user", text (lit "al")) ∷ (lit "password", text (lit s)) ∷ []

password-IsSensitive : IsSensitive login (lit "password")
unfolding lookup ◌==◌
password-IsSensitive = record {
  properties = _;
  has_properties = refl;
  prop = _;
  has_prop = refl;
  marked = refl;
}

redact_arguments_lem_example :
    (IsSensitive login (lit "password")
      → lookup (lit "password") (redact_arguments login (args_with "x"))
        ≡ Option.map (λ v. redacted) (lookup (lit "password") (args_with "x")))
    × (¬ IsSensitive login (lit "password")
        → lookup (lit "password") (redact_arguments login (args_with "x"))
          ≡ lookup (lit "password") (args_with "x"))
redact_arguments_lem_example = redact_arguments_lem login (args_with "x") (lit "password")

redacted_password :
    redact_arguments login (args_with "x")
    ≡ (lit "user", text (lit "al")) ∷ (lit "password", text (lit "[REDACTED]")) ∷ []
unfolding redact_arguments redact_with is_sensitive lookup ◌==◌
redacted_password = refl

abbrev entry_of : Value → AuditEntry
entry_of v = entry (lit "now") (lit "login") [] 5 v login (lit "local")

abbrev logs : Files
logs n = if ltb n 4 then some (lit "x") else none

abbrev settings : Settings
settings = record {
  getenv = λ k. [];
  clean = λ p. p;
  parse_int = λ s. err (lit "bad");
  parse_perms = λ s. err (lit "bad");
}

abbrev fresh_world : World
fresh_world = record {
  writer = record { file = nil; root = nil; log_dir = []; warn_last = none };
  disk = λ d. logs;
}

abbrev ops : List Op
ops =
    recorded all_succeed 7 (ok (lit "one")) ∷ closing ∷ recorded all_succeed 8 (ok (lit "two")) ∷ []

run_ops-log_example :
    log_of settings fresh_world ++ text_of ops
    ≡ dropped settings ops fresh_world ++ log_of settings (run_ops settings ops fresh_world)
unfolding AllSucceed configured_dir contains has_prefix ◌==◌
run_ops-log_example = run_ops-log settings refl ops fresh_world (refl, (refl, tt)) (inl refl)
