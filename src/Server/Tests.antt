-- ===== src/Server/Tests.antt =====
-- Calls of a server with a tool that answers and one that panics.
use mathlib.Core.List.{Perm}
use mathlib.Core.Option.{some-injective}
use jig_mcp.Prelude.{
  map, here, next, IsSortedBy, inr, subst, ℕ, ◌≤◌, Str, lit, some, [], ◌∷◌, true, ◌≡◌, refl, ◌==◌,
  lookup, arith,
}
use jig_mcp.Prelude.Result.{Result, ok}
use jig_mcp.Value.{text, bool, object, field, end}
use jig_mcp.Audit.Redact.Laws.{IsSensitive, AgreeOnPublic}
use jig_mcp.Server.Private.{Alike, handle_tool_call-private}
use jig_mcp.Auth.Caller.{background}
use jig_mcp.Tools.Base.{ToolDef}
use jig_mcp.Tools.Sample.{sample}
use jig_mcp.Tools.Registry.{Tool, get_tool_by_name, run_tool, tool_definition}
use jig_mcp.Server.{list_tools}
use jig_mcp.Server.Sort.{by_name}
use jig_mcp.Server.Sample.{server, world, clock, decode}
use jig_mcp.Server.Call.{Server, Params, handle_tool_call}
use jig_mcp.Server.Outcomes.{Outcome, handle_tool_call-Outcome}
use jig_mcp.Server.Listing.{list_tools_lem}
use jig_mcp.Server.Slots.{running, Reach, arrive, acquire, count_running, empty_pool, slots_bounded}

handle_tool_call-Outcome_example :
    Outcome sample server clock decode true background
      (lit "echo")
      world
      (handle_tool_call sample server clock decode true background (lit "echo") world)
handle_tool_call-Outcome_example =
    handle_tool_call-Outcome sample server clock decode true background (lit "echo") world

list_tools_lem_example :
    IsSortedBy by_name (list_tools server.registry)
    × Perm
        (list_tools server.registry)
        (map (λ (e : Str × Tool). tool_definition e.1) server.registry.tools)
unfolding lookup ◌==◌
list_tools_lem_example = list_tools_lem server.registry (refl, (refl, tt))

one_running : Reach (empty_pool 1) (record { capacity = 1; in_use = 1; calls = running ∷ [] })
one_running = next (next here arrive) (acquire [] [] refl (omega arith))

slots_bounded_example :
    ◌≡◌ {A = ℕ} 1 (count_running (running ∷ [])) × (count_running (running ∷ []) ≤ 1)
slots_bounded_example = slots_bounded 1 one_running

abbrev login_def : ToolDef
login_def = record {
  name = lit "login";
  description = lit "signs in";
  input_schema = some (
      (
        lit "properties",
        object (field (lit "password") (object (field (lit "sensitive") (bool true) end)) end),
      )
      ∷ []);
}

abbrev login : Tool
login = Tool.other login_def (λ args. some (text (lit "welcome")))

abbrev login_server : Server
login_server = record server { registry = record { tools = (lit "login", login) ∷ [] } }

-- The raw parameters are the password here.
abbrev login_params : Str → Params
login_params raw = record { name = lit "login"; arguments = (lit "password", text raw) ∷ [] }

abbrev decode_login : Str → Result Params
decode_login raw = ok (login_params raw)

password-IsSensitive : IsSensitive login_def (lit "password")
unfolding lookup ◌==◌
password-IsSensitive = record {
  properties = _;
  has_properties = refl;
  prop = _;
  has_prop = refl;
  marked = refl;
}

passwords_agree :
    {tool : Tool}
    → some login ≡ some tool
    → AgreeOnPublic
        (tool_definition tool)
        (login_params (lit "a")).arguments
        (login_params (lit "b")).arguments
unfolding tool_definition
passwords_agree e =
    subst
      (λ t.
        AgreeOnPublic (tool_definition t) (login_params (lit "a")).arguments
          (login_params (lit "b")).arguments)
      (some-injective _ _ e) (refl, inr password-IsSensitive, tt)

passwords-Alike : Alike sample login_server (login_params (lit "a")) (login_params (lit "b"))
unfolding get_tool_by_name lookup ◌==◌ run_tool
passwords-Alike = record {
  name = refl;
  arguments = passwords_agree;
  results = λ e.
      subst
        (λ t.
          (run_tool sample t (login_params (lit "a")).arguments).1
          ≡ (run_tool sample t (login_params (lit "b")).arguments).1)
        (some-injective _ _ e) refl;
}

handle_tool_call-private_example :
    (handle_tool_call sample login_server clock decode_login true background
      (lit "a")
      world).0.audit_log
    ≡ (handle_tool_call sample login_server clock decode_login true background
        (lit "b")
        world).0.audit_log
handle_tool_call-private_example =
    handle_tool_call-private sample login_server clock decode_login true background (lit "a")
      (lit "b") (login_params (lit "a")) (login_params (lit "b")) world refl refl passwords-Alike
