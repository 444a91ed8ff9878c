-- ===== src/Tools/Terminal/Tests.antt =====
-- The terminal tool on concrete commands.
use jig_mcp.Prelude.{
  String, All, lit, Map, some, [], ◌∷◌, true, false, ◌≡◌, ◌≢◌, ◌⊎◌, refl, ◌==◌, has_prefix,
}
use jig_mcp.Prelude.Int.{pos}
use jig_mcp.Value.{Value, text, text_at}
use jig_mcp.Config.{ToolConfig, TerminalConfig}
use jig_mcp.Tools.Sample.{sample, blank_config}
use jig_mcp.Tools.Terminal.{allowed, shell_command, shell_result, handle}
use jig_mcp.Tools.Registry.{Tool, get_config, run_tool}
use jig_mcp.Tools.Limits.{EffectWithin, run_tool-EffectWithin}
use jig_mcp.Tools.Terminal.Laws.{IsPermitted, handle_lem}

abbrev terminal : TerminalConfig
terminal = record {
  enabled = true;
  allowlist = lit "ls" ∷ lit "git status" ∷ [];
  max_output_size = pos 0;
}

abbrev config : ToolConfig
config = record blank_config { terminal = some terminal }

abbrev call_of : String → Map Value
call_of s = (lit "command", text (lit s)) ∷ []

list_chained :
    (allowed terminal.allowlist (lit "ls ; rm x") ≡ true)
    × (allowed terminal.allowlist (lit "lsof") ≡ false)
unfolding allowed has_prefix ◌==◌
list_chained = (refl, refl)

handle_lem_example :
    (text_at (lit "command") (call_of "ls -la") ≢ []
      → IsPermitted terminal.allowlist (text_at (lit "command") (call_of "ls -la"))
      → handle sample config terminal (call_of "ls -la") ≡ (
        shell_command sample config terminal (text_at (lit "command") (call_of "ls -la")) ∷ [],
        shell_result sample config terminal (text_at (lit "command") (call_of "ls -la")) (
            sample.run
              (shell_command sample config terminal (text_at (lit "command") (call_of "ls -la")))),
      ))
    × ((text_at (lit "command") (call_of "ls -la") ≡ [])
          ⊎ (¬ IsPermitted terminal.allowlist (text_at (lit "command") (call_of "ls -la")))
        → (handle sample config terminal (call_of "ls -la")).0 ≡ [])
handle_lem_example = handle_lem sample config terminal (call_of "ls -la")

get_config-config : get_config (Tool.terminal config) ≡ some config
unfolding get_config
get_config-config = refl

run_tool-EffectWithin_example :
    All (EffectWithin sample config) (run_tool sample (Tool.terminal config) (call_of "ls -la")).0
run_tool-EffectWithin_example =
    run_tool-EffectWithin sample (Tool.terminal config) config (call_of "ls -la") get_config-config
