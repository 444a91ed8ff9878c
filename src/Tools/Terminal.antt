-- ===== src/Tools/Terminal.antt =====
-- internal/tools/terminal.go: TerminalTool.Handle. It returns the commands that it ran, in order, and
-- its result.
pub mod Laws
mod Tests
use jig_mcp.Prelude.{
  ℕ, ◌/◌, ◌*◌, ◌^◌, ◌+◌, Str, lit, Map, Option, none, some, List, [], ◌∷◌, ◌++◌, Bool, true, false,
  ◌||◌, not, if◌then◌else◌, ◌==◌, has_prefix, any, length, take, ltb,
}
use jig_mcp.Prelude.Int.{ℤ, pos, negsuc}
use jig_mcp.Value.{Value, text_at}
use jig_mcp.Config.{ToolConfig, TerminalConfig}
use jig_mcp.Rlimit.{effective_limits}
use jig_mcp.Tools.Runtime.{Runtime, Command, Ran, not_started, ended}
use jig_mcp.Tools.Base.{effective_timeout, default_global_timeout, error_result, text_result}

abbrev pub default_max_output : ℕ
default_max_output = 100 * 1024

abbrev pub truncated_marker : Str
truncated_marker = lit "\n[OUTPUT TRUNCATED]"

unfoldable pub allowed : List Str → Str → Bool
allowed allowlist cmd_input =
    any (λ prefix. cmd_input == prefix || has_prefix cmd_input (prefix ++ lit " ")) allowlist

abbrev pub max_size : ℤ → ℕ
max_size (pos n) = if ltb 0 n then n else default_max_output
max_size (negsuc n) = default_max_output

unfoldable pub truncate : ℕ → Str → Str
truncate limit out = if ltb limit (length out) then take limit out ++ truncated_marker else out

module _ (rt : Runtime) (config : ToolConfig) (terminal : TerminalConfig) where
  -- The shell command. timeout.Seconds() is cut to whole seconds.
  unfoldable pub shell_command : Str → Command
  shell_command cmd_input =
      let timeout = effective_timeout rt config default_global_timeout in
      let windows = rt.goos == lit "windows" in
      record {
        executable = if windows then lit "powershell" else lit "bash";
        args = (if windows then lit "-Command" else lit "-c") ∷ cmd_input ∷ [];
        timeout = timeout;
        limits = effective_limits config.max_memory_mb config.max_cpu_percent;
        timeout_sec = timeout / 10 ^ 9;
      }

  unfoldable pub shell_result : Str → Ran → Value
  shell_result cmd_input (not_started e) =
      error_result (lit "failed to start terminal command: " ++ e)
  shell_result cmd_input (ended combined none late) =
      text_result (truncate (max_size terminal.max_output_size) combined)
  shell_result cmd_input (ended combined (some e) late) =
      if late
      then error_result (
          lit "command timeout: "
          ++ (rt.quote cmd_input
              ++ (lit " killed after "
                  ++ rt.duration_text (effective_timeout rt config default_global_timeout))))
      else error_result (
          lit "execution error: "
          ++ (e ++ (lit "\nOutput: " ++ truncate (max_size terminal.max_output_size) combined)))

  unfoldable pub handle_input : Str → List Command × Value
  handle_input cmd_input =
      let command = shell_command cmd_input in
      if cmd_input == []
      then ([], error_result (lit "missing mandatory parameter: command"))
      else if not (allowed terminal.allowlist cmd_input)
      then (
        [],
        error_result (
            lit "command security check failed: "
            ++ (rt.quote cmd_input ++ lit " doesn't match any allowed prefix")),
      )
      else (command ∷ [], shell_result cmd_input (rt.run command))

  unfoldable pub handle : Map Value → List Command × Value
  unfolding handle_input
  handle args = handle_input (text_at (lit "command") args)
