-- ===== src/Tools/Limits.antt =====
-- The timeout and the limits under which the tools run their processes.
use jig_mcp.Prelude.{
  zero, not, subst, sym, suc, ℕ, ◌∙◌, ◌≢◌, if◌then◌else◌, false, eq_iff, ne_of_test, Bool-cases,
  inl, inr, ◌*◌, ◌^◌, ◌<◌, lit, Map, Option, none, some, List, [], ◌∷◌, map, All, ◌==◌, if_has, ◌≡◌,
  refl, arith,
}
use jig_mcp.Prelude.Int.{ℤ, pos, negsuc, leb_ℤ}
use jig_mcp.Prelude.Result.{Result, ok, err}
use jig_mcp.Tools.Terminal
use jig_mcp.Tools.External
use jig_mcp.Tools.Http
use jig_mcp.Value.{text_at, Value}
use jig_mcp.Config.{ToolConfig, TerminalConfig}
use jig_mcp.Rlimit.{ResourceLimits, effective_limits}
use jig_mcp.Tools.Runtime.{Runtime, Command, HttpCall}
use jig_mcp.Tools.Base.{positive_or, effective_timeout, default_global_timeout}
use jig_mcp.Tools.Registry.{run_terminal, get_config, Tool, Effect, ran, sent, run_tool}

-- The manifest gives this timeout.
pub record GivesTimeout (rt : Runtime) (config : ToolConfig) (d : ℕ) : Type 0 where
  pub given : config.timeout ≢ []
  pub parses : rt.parse_duration config.timeout ≡ some (pos d)
  pub positive : 0 < d

-- A limit of the manifest, or the default if that is not positive.
pub record IsLimit (configured : ℤ) (default : ℕ) (used : ℤ) : Type 0 where
  pub set : (n : ℕ) → configured ≡ pos (suc n) → used ≡ pos (suc n)
  pub unset : ((n : ℕ) → configured ≢ pos (suc n)) → used ≡ pos default

-- A process of a tool with this configuration: a positive timeout of the manifest, else 30 seconds; the
-- limits of the manifest, else 512 MB and 90 percent.
pub record RunsWithin (rt : Runtime) (config : ToolConfig) (c : Command) : Type 0 where
  pub timeout_set : (d : ℕ) → GivesTimeout rt config d → c.timeout ≡ d
  pub timeout_unset : ((d : ℕ) → ¬ GivesTimeout rt config d) → c.timeout ≡ 30 * 10 ^ 9
  pub memory : IsLimit config.max_memory_mb 512 c.limits.max_memory_mb
  pub cpu : IsLimit config.max_cpu_percent 90 c.limits.max_cpu_percent

abbrev pub EffectWithin : Runtime → ToolConfig → Effect → Type 0
EffectWithin rt config (ran c) = RunsWithin rt config c
EffectWithin rt config (sent c) = Unit

IsLimit-cases :
    (x : ℤ) (default : ℕ) → IsLimit x default (if leb_ℤ x (pos 0) then pos default else x)
IsLimit-cases (pos zero) default = record { set = λ n e. cc; unset = λ h. refl }
IsLimit-cases (pos (suc n)) default = record {
  set = λ m e. ground (arith, e);
  unset = λ h. absurd (h n refl);
}
IsLimit-cases (negsuc n) default = record { set = λ m e. cc; unset = λ h. ground arith }

module _ (rt : Runtime) (config : ToolConfig) where
  timeout_of_set :
      (d : ℕ) → GivesTimeout rt config d → effective_timeout rt config default_global_timeout ≡ d
  unfolding effective_timeout
  timeout_of_set d g = by_value d g.positive g.parses
    where
      by_value :
          (n : ℕ)
          → 0 < n
          → rt.parse_duration config.timeout ≡ some (pos n)
          → effective_timeout rt config default_global_timeout ≡ n
      by_value zero h e = absurd (omega arith)
      by_value (suc n) h e = ground (arith, e, g.given, eq_iff config.timeout [])

  timeout_of_unset :
      ((d : ℕ) → ¬ GivesTimeout rt config d)
      → effective_timeout rt config default_global_timeout ≡ 30 * 10 ^ 9
  unfolding effective_timeout
  timeout_of_unset h = elim (Bool-cases (config.timeout == [])) [
    | inl missing ↦ rw missing refl
    | inr given ↦ rw given (by_parse (rt.parse_duration config.timeout) refl given)
  ]
    where
      by_parse :
          (o : Option ℤ)
          → rt.parse_duration config.timeout ≡ o
          → (config.timeout == []) ≡ false
          → positive_or o default_global_timeout ≡ 30 * 10 ^ 9
      by_parse none e given = refl
      by_parse (some (pos zero)) e given = refl
      by_parse (some (pos (suc n))) e given = absurd (
          h (suc n) (record {
            given = ne_of_test config.timeout [] given;
            parses = e;
            positive = omega arith;
          }))
      by_parse (some (negsuc n)) e given = refl

  -- A command with the timeout and the limits that the tools compute.
  computed-RunsWithin :
      (c : Command)
      → c.timeout ≡ effective_timeout rt config default_global_timeout
      → c.limits ≡ effective_limits config.max_memory_mb config.max_cpu_percent
      → RunsWithin rt config c
  unfolding effective_limits
  computed-RunsWithin c e f = record {
    timeout_set = λ d g. e ∙ timeout_of_set d g;
    timeout_unset = λ h. e ∙ timeout_of_unset h;
    memory =
        subst (λ (l : ResourceLimits). IsLimit config.max_memory_mb 512 l.max_memory_mb) (sym f)
          (IsLimit-cases config.max_memory_mb 512);
    cpu =
        subst (λ (l : ResourceLimits). IsLimit config.max_cpu_percent 90 l.max_cpu_percent) (sym f)
          (IsLimit-cases config.max_cpu_percent 90);
  }

module _ (rt : Runtime) (config : ToolConfig) where
  terminal-RunsWithin :
      (t : TerminalConfig) (args : Map Value)
      → All (RunsWithin rt config) (Terminal.handle rt config t args).0
  unfolding Terminal.handle Terminal.shell_command
  terminal-RunsWithin t args = if_has Within (text_at (lit "command") args == []) tt (
      if_has Within (not (Terminal.allowed t.allowlist (text_at (lit "command") args))) tt
        (computed-RunsWithin rt config _ refl refl, tt))
    where
      Within : List Command × Value → Type 0
      Within x = All (RunsWithin rt config) x.0

  external-RunsWithin :
      (args : Map Value) → All (RunsWithin rt config) (External.handle rt config args).0
  unfolding External.handle External.command
  external-RunsWithin args = by_program (External.program rt config args)
    where
      by_program :
          (p : Result External.Program)
          → All (RunsWithin rt config) (External.handle_program rt config p).0
      by_program (err e) = tt
      by_program (ok (executable, given)) = (computed-RunsWithin rt config _ refl refl, tt)

  ran-EffectWithin :
      (cs : List Command)
      → All (RunsWithin rt config) cs
      → All (EffectWithin rt config) (map ran cs)
  ran-EffectWithin [] h = tt
  ran-EffectWithin (c ∷ cs) (w, h) = (w, ran-EffectWithin cs h)

  sent-EffectWithin : (cs : List HttpCall) → All (EffectWithin rt config) (map sent cs)
  sent-EffectWithin [] = tt
  sent-EffectWithin (c ∷ cs) = (tt, sent-EffectWithin cs)

  run_terminal-EffectWithin :
      (o : Option TerminalConfig) (args : Map Value)
      → All (EffectWithin rt config) (run_terminal rt config o args).0
  run_terminal-EffectWithin none args =
      if_has (λ (x : List Effect × Option Value). All (EffectWithin rt config) x.0)
        (text_at (lit "command") args == []) tt tt
  run_terminal-EffectWithin (some t) args =
      ran-EffectWithin (Terminal.handle rt config t args).0 (terminal-RunsWithin t args)

-- Every process of every tool that has a configuration runs with the timeout of its manifest if that is a
-- positive duration, else with 30 seconds, and with each limit of the manifest if that is positive, else
-- with 512 MB of memory or 90 percent of a processor.
pub run_tool-EffectWithin :
    (rt : Runtime) (t : Tool) (config : ToolConfig) (args : Map Value)
    → get_config t ≡ some config
    → All (EffectWithin rt config) (run_tool rt t args).0
unfolding run_tool get_config
run_tool-EffectWithin rt (Tool.external c) config args e =
    subst (λ (x : ToolConfig). All (EffectWithin rt x) (run_tool rt (Tool.external c) args).0)
      (cc e) (ran-EffectWithin rt c (External.handle rt c args).0 (external-RunsWithin rt c args))
run_tool-EffectWithin rt (Tool.http c) config args e =
    subst (λ (x : ToolConfig). All (EffectWithin rt x) (run_tool rt (Tool.http c) args).0) (cc e)
      (sent-EffectWithin rt c (Http.handle rt c args).0)
run_tool-EffectWithin rt (Tool.terminal c) config args e =
    subst (λ (x : ToolConfig). All (EffectWithin rt x) (run_tool rt (Tool.terminal c) args).0)
      (cc e) (run_terminal-EffectWithin rt c c.terminal args)
run_tool-EffectWithin rt (Tool.other d h) config args e = tt
