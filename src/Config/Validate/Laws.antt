-- ===== src/Config/Validate/Laws.antt =====
-- Which configurations the validation accepts.
use jig_mcp.Prelude.{
  ◌&&◌, contains_any, has_byte, ℕ, ◌+◌, Str, none, List, [], ◌∷◌, false, contains, contains_iff,
  Occurs, All, ◌≡◌, ◌↔◌, refl, inl, inr, Bool-cases, Option-cases, arith,
}
use jig_mcp.Config.{Map, ToolConfig, PlatformConfig}
use jig_mcp.Config.Validate.{
  or_empty, is_nil, validate_tool_config, validate_platforms, validate_platform_config,
  contains_any, shell_metachars, first_metachar, validate_args,
}

-- No shell metacharacter stands in the text.
abbrev pub IsPlain : Str → Type 0
IsPlain s = All (λ mc. ¬ Occurs mc s) shell_metachars

pub record IsSafe (pc : PlatformConfig) : Type 0 where
  pub plain_command : IsPlain pc.command
  pub no_space : has_byte 32 pc.command ≡ false
  pub no_tab : has_byte 9 pc.command ≡ false
  pub plain_args : All IsPlain pc.args

first_metachar_iff :
    (mcs : List Str) (s : Str) → (first_metachar mcs s ≡ none) ↔ All (λ mc. ¬ Occurs mc s) mcs
unfolding first_metachar
first_metachar_iff [] s = (λ e. tt, λ h. refl)
first_metachar_iff (mc ∷ mcs) s = elim (Bool-cases (contains s mc)) [
  | inl found ↦ (rw found (λ e. absurd cc), λ h. absurd (h.0 ((contains_iff s mc).0 found)))
  | inr other ↦ (
    rw other (λ e. (
      λ o. absurd (ground (arith, other, (contains_iff s mc).1 o)),
      (first_metachar_iff mcs s).0 e,
    )),
    λ h. rw other ((first_metachar_iff mcs s).1 h.1),
  )
]

validate_args_iff :
    (platform : Str) (i : ℕ) (args : List Str)
    → (validate_args platform i args ≡ none) ↔ All IsPlain args
unfolding validate_args
validate_args_iff platform i [] = (λ e. tt, λ h. refl)
validate_args_iff platform i (arg ∷ args) =
    elim (Option-cases (first_metachar shell_metachars arg)) [
      | inl plain ↦ (
        rw plain (λ e. (
          (first_metachar_iff shell_metachars arg).0 plain,
          (validate_args_iff platform (i + 1) args).0 e,
        )),
        λ h. rw plain ((validate_args_iff platform (i + 1) args).1 h.1),
      )
      | inr (mc, found) ↦ (
        rw found (λ e. absurd cc),
        λ h. absurd (ground (arith, found, (first_metachar_iff shell_metachars arg).1 h.0)),
      )
    ]

no_blank_iff :
    (s : Str)
    → (contains_any s (32 ∷ 9 ∷ []) ≡ false) ↔ ((has_byte 32 s ≡ false) × (has_byte 9 s ≡ false))
unfolding contains_any
no_blank_iff s = (λ e. (ground (arith, e), ground (arith, e)), λ (a, b). rw a (rw b refl))

validate_platform_config_iff :
    (platform : Str) (pc : PlatformConfig)
    → (validate_platform_config platform pc ≡ none) ↔ IsSafe pc
unfolding validate_platform_config
validate_platform_config_iff platform pc =
    elim (Option-cases (first_metachar shell_metachars pc.command)) [
      | inr (mc, found) ↦ (
        rw found (λ e. absurd cc),
        λ h. absurd (
            ground
              (arith, found, (first_metachar_iff shell_metachars pc.command).1 h.plain_command)),
      )
      | inl plain ↦ elim (Bool-cases (contains_any pc.command (32 ∷ 9 ∷ []))) [
        | inl blank ↦ (
          rw plain (rw blank (λ e. absurd cc)),
          λ h. absurd (ground (arith, blank, (no_blank_iff pc.command).1 (h.no_space, h.no_tab))),
        )
        | inr solid ↦ (
          rw plain (
              rw solid (λ e. record {
                plain_command = (first_metachar_iff shell_metachars pc.command).0 plain;
                no_space = ((no_blank_iff pc.command).0 solid).0;
                no_tab = ((no_blank_iff pc.command).0 solid).1;
                plain_args = (validate_args_iff platform 0 pc.args).0 e;
              })),
          λ h. rw plain (rw solid ((validate_args_iff platform 0 pc.args).1 h.plain_args)),
        )
      ]
    ]

validate_platforms_iff :
    (m : Map PlatformConfig)
    → (validate_platforms m ≡ none) ↔ All (λ (e : Str × PlatformConfig). IsSafe e.1) m
unfolding validate_platforms
validate_platforms_iff [] = (λ e. tt, λ h. refl)
validate_platforms_iff ((platform, pc) ∷ m) =
    elim (Option-cases (validate_platform_config platform pc)) [
      | inl safe ↦ (
        rw safe (λ e.
            ((validate_platform_config_iff platform pc).0 safe, (validate_platforms_iff m).0 e)),
        λ h. rw safe ((validate_platforms_iff m).1 h.1),
      )
      | inr (v, found) ↦ (
        rw found (λ e. absurd cc),
        λ h. absurd (ground (arith, found, (validate_platform_config_iff platform pc).1 h.0)),
      )
    ]

-- The configuration says what kind of tool it is.
abbrev pub HasKind : ToolConfig → Type 0
HasKind tc = (is_nil tc.platforms && (is_nil tc.http && is_nil tc.terminal)) ≡ false

-- A configuration is accepted exactly if it has a platforms, http or terminal block and on every platform
-- the command has no shell metacharacter, no space and no tab, and no argument has a shell metacharacter; so
-- whether it is accepted does not depend on the order in which Go walks the map of platforms.
pub validate_tool_config_iff :
    (tc : ToolConfig)
    → (validate_tool_config tc ≡ none)
      ↔ (HasKind tc × All (λ (e : Str × PlatformConfig). IsSafe e.1) (or_empty tc.platforms))
unfolding validate_tool_config
validate_tool_config_iff tc =
    elim (Bool-cases (is_nil tc.platforms && (is_nil tc.http && is_nil tc.terminal))) [
      | inl nil ↦ (rw nil (λ e. absurd cc), λ h. absurd cc)
      | inr kind ↦ (
        rw kind (λ e. (refl, (validate_platforms_iff (or_empty tc.platforms)).0 e)),
        λ h. rw kind ((validate_platforms_iff (or_empty tc.platforms)).1 h.1),
      )
    ]
