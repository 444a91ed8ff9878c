-- ===== src/Config/Validate.antt =====
-- ValidateToolConfig of internal/config/config.go. An error is a value of `Violation` with what its message
-- quotes; a Go map is listed in any order, as its iteration has none.
pub mod Laws
use jig_mcp.Prelude.{
  ℕ, ◌+◌, Str, lit, Map, Option, none, some, List, [], ◌∷◌, Bool, true, false, ◌&&◌, if◌then◌else◌,
  contains, contains_any,
}
use jig_mcp.Config.{ToolConfig, PlatformConfig}

abbrev pub shell_metachars : List Str
shell_metachars =
    lit ";"
    ∷ lit "|"
    ∷ lit "&"
    ∷ lit ">"
    ∷ lit "<"
    ∷ lit "`"
    ∷ lit "$("
    ∷ lit "${"
    ∷ lit "\n"
    ∷ (13 ∷ [])
    ∷ []

pub data Violation : Type 0 where
  no_kind : Violation
  command_metachar : Str → Str → Violation
  command_whitespace : Str → Violation
  arg_metachar : Str → ℕ → Str → Violation

unfoldable pub first_metachar : List Str → Str → Option Str
first_metachar [] s = none
first_metachar (mc ∷ mcs) s =
    let rest = first_metachar mcs s in if contains s mc then some mc else rest

abbrev pub arg_or : Str → ℕ → Option Violation → Option Str → Option Violation
arg_or platform i rest none = rest
arg_or platform i rest (some mc) = some (arg_metachar platform i mc)

unfoldable pub validate_args : Str → ℕ → List Str → Option Violation
validate_args platform i [] = none
validate_args platform i (arg ∷ args) =
    arg_or platform i (validate_args platform (i + 1) args) (first_metachar shell_metachars arg)

abbrev pub command_or : Str → PlatformConfig → Option Str → Option Violation
command_or platform pc (some mc) = some (command_metachar platform mc)
command_or platform pc none =
    if contains_any pc.command (32 ∷ 9 ∷ [])
    then some (command_whitespace platform)
    else validate_args platform 0 pc.args

unfoldable pub validate_platform_config : Str → PlatformConfig → Option Violation
validate_platform_config platform pc =
    command_or platform pc (first_metachar shell_metachars pc.command)

abbrev pub violation_or : Option Violation → Option Violation → Option Violation
violation_or none rest = rest
violation_or (some v) rest = some v

unfoldable pub validate_platforms : Map PlatformConfig → Option Violation
validate_platforms [] = none
validate_platforms ((platform, pc) ∷ rest) =
    violation_or (validate_platform_config platform pc) (validate_platforms rest)

abbrev pub is_nil {ℓ} : {A : Type ℓ} → Option A → Bool
is_nil none = true
is_nil (some a) = false

abbrev pub or_empty : Option (Map PlatformConfig) → Map PlatformConfig
or_empty none = []
or_empty (some m) = m

unfoldable pub validate_tool_config : ToolConfig → Option Violation
validate_tool_config tc =
    if is_nil tc.platforms && (is_nil tc.http && is_nil tc.terminal)
    then some no_kind
    else validate_platforms (or_empty tc.platforms)
