-- ===== src/Tools/Terminal/Laws.antt =====
-- Which commands the terminal tool runs, and what it returns of their output.
use jig_mcp.Prelude.{
  ℕ, ◌+◌, ◌≤◌, Str, lit, Map, List, [], ◌∷◌, ◌++◌, true, ◌≡◌, ◌≢◌, ◌⊎◌, inl, inr, sym, ◌∙◌, arith,
  ◌==◌, has_prefix, has_prefix_sound, has_prefix-append, Any, length, take, length-append,
  length-take, append_assoc, eq_iff, Bool-cases,
}
use jig_mcp.Value.{Value, text_at}
use jig_mcp.Config.{ToolConfig, TerminalConfig}
use jig_mcp.Tools.Runtime.{Runtime}
use jig_mcp.Tools.Terminal.{
  allowed, truncate, truncated_marker, shell_command, shell_result, handle, handle_input,
}

-- The command is an entry of the allowlist, or an entry followed by a space and any text.
abbrev pub IsPermitted : List Str → Str → Type 0
IsPermitted allowlist c = Any (λ p. (c ≡ p) ⊎ ((rest : Str) × (c ≡ p ++ (b' ' ∷ rest)))) allowlist

allowed_sound : (al : List Str) (c : Str) → allowed al c ≡ true → IsPermitted al c
unfolding allowed
allowed_sound [] c h = cc
allowed_sound (p ∷ al) c h = elim (Bool-cases (c == p)) [
  | inl same ↦ inl (inl ((eq_iff c p).0 same))
  | inr other ↦ elim (Bool-cases (has_prefix c (p ++ lit " "))) [
    | inl starts ↦
        let (rest, e) = has_prefix_sound c (p ++ lit " ") starts in
        inl (inr (rest, e ∙ append_assoc p (lit " ") rest))
    | inr differs ↦ inr (allowed_sound al c (ground arith))
  ]
]

allowed_complete : (al : List Str) (c : Str) → IsPermitted al c → allowed al c ≡ true
unfolding allowed
allowed_complete [] c h = absurd h
allowed_complete (p ∷ al) c (inl (inl e)) = ground (arith, eq_iff c p)
allowed_complete (p ∷ al) c (inl (inr (rest, e))) =
    let starts : has_prefix c (p ++ lit " ") ≡ true =
      rw (e ∙ sym (append_assoc p (lit " ") rest)) (has_prefix-append (p ++ lit " ") rest) in
    ground (arith, starts)
allowed_complete (p ∷ al) c (inr h) = ground (arith, allowed_complete al c h)

module _ (rt : Runtime) (config : ToolConfig) (terminal : TerminalConfig) where
  handle-permitted :
      (c : Str)
      → c ≢ []
      → IsPermitted terminal.allowlist c
      → handle_input rt config terminal c ≡ (
        shell_command rt config terminal c ∷ [],
        shell_result rt config terminal c (rt.run (shell_command rt config terminal c)),
      )
  unfolding handle_input
  handle-permitted c given permitted =
      ground (arith, eq_iff c [], given, allowed_complete terminal.allowlist c permitted)

  handle-refused :
      (c : Str)
      → (c ≡ []) ⊎ (¬ IsPermitted terminal.allowlist c)
      → (handle_input rt config terminal c).0 ≡ []
  unfolding handle_input
  handle-refused c (inl e) = ground (arith, eq_iff c [], e)
  handle-refused c (inr refused) = elim (Bool-cases (allowed terminal.allowlist c)) [
    | inl fits ↦ absurd (refused (allowed_sound terminal.allowlist c fits))
    | inr differs ↦ ground (arith, differs)
  ]

  -- With `c` the text of the argument "command": if `c` is not empty and permitted, exactly one process is
  -- run, a shell that is given `c` unchanged, and its outcome decides the result; in every other case
  -- no process is run.
  pub handle_lem :
      (args : Map Value)
      → (text_at (lit "command") args ≢ []
          → IsPermitted terminal.allowlist (text_at (lit "command") args)
          → handle rt config terminal args ≡ (
            shell_command rt config terminal (text_at (lit "command") args) ∷ [],
            shell_result rt config terminal
                (text_at (lit "command") args)
                (rt.run (shell_command rt config terminal (text_at (lit "command") args))),
          ))
        × ((text_at (lit "command") args ≡ [])
              ⊎ (¬ IsPermitted terminal.allowlist (text_at (lit "command") args))
            → (handle rt config terminal args).0 ≡ [])
  unfolding handle
  handle_lem args = (
    handle-permitted (text_at (lit "command") args),
    handle-refused (text_at (lit "command") args),
  )

-- Output up to the limit is returned as it is; longer output is cut to the limit and marked, so that
-- what is returned is never longer than the limit and the marker.
truncate_lem :
    (limit : ℕ) (out : Str)
    → (length out ≤ limit → truncate limit out ≡ out)
      × (length (truncate limit out) ≤ limit + length truncated_marker)
unfolding truncate
truncate_lem limit out = (
  λ h. ground arith,
  ground (arith, length-append (take limit out) truncated_marker, length-take limit out),
)
