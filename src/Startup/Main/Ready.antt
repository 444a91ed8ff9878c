-- ===== src/Startup/Main/Ready.antt =====
-- The state in which main starts to serve.
use mathlib.Core.Option.{some-injective}
use jig_mcp.Http.{HttpServer}
use jig_mcp.Sse.Routes.{sse_server}
use jig_mcp.Prelude.{
  All, All-append, if◌then◌else◌, ◌++◌, ◌∷◌, [], Bool, subst, ◌≤◌, ◌<◌, Str, lit, Map, Option, none,
  some, true, false, if_has, ◌==◌, contains, ◌≡◌, inl, inr, refl, Bool-cases, arith,
}
use jig_mcp.Prelude.Int.{leb_ℤ, ℤ, pos, negsuc}
use jig_mcp.Value.{Value}
use jig_mcp.Audit.Writer.{
  Settings, Outcomes, opened, configured_dir, check_settings, open_dir, init,
}
use jig_mcp.Audit.Writer
use jig_mcp.Tools.Runtime.{Runtime}
use jig_mcp.Tools.Registry.{Tool, get_tool_by_name, run_tool}
use jig_mcp.Startup.{Flags, apply_env_overrides}
use jig_mcp.Startup.Laws.{settings_bounds}
use jig_mcp.Startup.Loaded.{load_tools-returns}
use jig_mcp.Startup.Main.{
  dashboards, Env, System, Running, Ended, Options, printed_version, failed, sse, stdio,
  positive_or_default, init_global_timeout, from_executable, settings, final_config_dir, running,
  serve_as, after_init, main,
}

-- Init opens the file of a directory without "..", or fails.
pub init-opens :
    (s : Settings) (io : Outcomes) (w : Writer.World) {v : Writer.World}
    → init s io w ≡ some v
    → (v.writer.file ≡ opened)
      × (v.writer.log_dir ≡ configured_dir s)
      × (contains (configured_dir s) (lit "..") ≡ false)
unfolding init
init-opens s io w {v} e = ground arith

init_global_timeout-positive :
    (env : Env) (parse_duration : Str → Option ℤ) → 0 < init_global_timeout env parse_duration
unfolding init_global_timeout
init_global_timeout-positive env parse_duration =
    if_has (λ n. 0 < n) (env (lit "JIG_TOOL_TIMEOUT") == []) (omega arith)
      (positive (parse_duration (env (lit "JIG_TOOL_TIMEOUT"))))
  where
    positive : (o : Option ℤ) → 0 < positive_or_default o
    positive none = omega arith
    positive (some (pos n)) = ground arith
    positive (some (negsuc n)) = omega arith

-- What main ended in, if it serves.
abbrev pub running_of : Ended → Option Running
running_of printed_version = none
running_of failed = none
running_of (sse r) = some r
running_of (stdio r) = some r

-- The server gives up on a client that is slow to send its request.
pub record IsGuarded (h : HttpServer) : Type 0 where
  pub reads_header : 0 < h.read_header_timeout
  pub reads : 0 < h.read_timeout
  pub idles : 0 < h.idle_timeout

-- The audit log is open, there is a slot, the timeout is positive, every registered tool returns, and every
-- HTTP server is guarded.
pub record IsReady (s : Settings) (r : Running) : Type 1 where
  pub is_open : r.audit.writer.file ≡ opened
  pub in_dir : r.audit.writer.log_dir ≡ configured_dir s
  pub plain_dir : contains (configured_dir s) (lit "..") ≡ false
  pub limited : r.server.has_semaphore ≡ true
  pub slots : 1 ≤ r.server.semaphore_size
  pub timeout : 0 < r.global_timeout
  pub guarded : All IsGuarded r.servers
  pub returns :
      (rt : Runtime) (name : Str) (t : Tool) (args : Map Value)
      → get_tool_by_name r.server.registry name ≡ some t
      → (v : Value) × ((run_tool rt t args).1 ≡ some v)

module _ (os : System) (version : Str) (opts : Options) where
  dashboards-IsGuarded : All IsGuarded (dashboards os opts)
  dashboards-IsGuarded =
      if_has (All IsGuarded) (leb_ℤ (pos 1) opts.dashboard_port)
        (record { reads_header = omega arith; reads = omega arith; idles = omega arith }, tt) tt

  running-IsReady :
      (flags : Flags) (env : Env) (w v : Writer.World)
      → init (settings os env) os.outcomes w ≡ some v
      → IsReady (settings os env) (running os version opts flags env v)
  running-IsReady flags env w v e =
      let (file, dir, plain) = init-opens (settings os env) os.outcomes w e in
      record {
        is_open = file;
        in_dir = dir;
        plain_dir = plain;
        limited = refl;
        slots = omega (arith, (settings_bounds env os.scan flags).0);
        timeout = init_global_timeout-positive env os.parse_duration;
        guarded = dashboards-IsGuarded;
        returns = λ rt name t args found.
            load_tools-returns os.decode_manifest os.file_ext (os.script_path config_dir) os.run
              os.decode_meta (os.tools config_dir) (os.scripts config_dir) rt name t args found;
      }
    where
      config_dir : Str
      config_dir = final_config_dir os os.executable flags.config_dir

  -- StartSSEServer adds a server that is guarded.
  serve_as-IsReady :
      (settings : Settings) (flags : Flags) (r : Running) {q : Running}
      → IsReady settings r
      → running_of (serve_as os flags r) ≡ some q
      → IsReady settings q
  serve_as-IsReady settings flags r {q} v = by_transport (flags.transport == lit "sse")
    where
      with_sse : Running
      with_sse = record r { servers = r.servers ++ (sse_server os.decimal flags.sse_port ∷ []) }

      by_transport :
          (b : Bool)
          → running_of (if b then sse with_sse else stdio r) ≡ some q
          → IsReady settings q
      by_transport true e = subst (IsReady settings) (some-injective with_sse q e) (record {
        is_open = v.is_open;
        in_dir = v.in_dir;
        plain_dir = v.plain_dir;
        limited = v.limited;
        slots = v.slots;
        timeout = v.timeout;
        guarded =
            All-append IsGuarded r.servers _ v.guarded
              (record { reads_header = omega arith; reads = omega arith; idles = omega arith }, tt);
        returns = v.returns;
      })
      by_transport false e = subst (IsReady settings) (some-injective r q e) v

  after_init-IsReady :
      (flags : Flags) (env : Env) (w : Writer.World) (o : Option Writer.World) {r : Running}
      → init (settings os env) os.outcomes w ≡ o
      → running_of (after_init os version opts flags env o) ≡ some r
      → IsReady (settings os env) r
  after_init-IsReady flags env w none opens e = absurd cc
  after_init-IsReady flags env w (some v) {r} opens e =
      serve_as-IsReady (settings os env) overridden (running os version opts overridden env v)
        (running-IsReady overridden env w v opens) e
    where
      overridden : Flags
      overridden = apply_env_overrides env os.scan flags

  -- If main comes to serve, over either transport, then the environment with the .env files has settings
  -- of the audit log under which Init succeeds: the log is open in the configured directory, which has no
  -- "..", at least one tool can run at a time, the timeout is positive, each HTTP server gives up on slow
  -- requests, and each tool in the registry returns a result on all arguments.
  pub main-IsReady :
      (flags : Flags) (env : Env) (w : Writer.World) {r : Running}
      → running_of (main os version opts flags env w) ≡ some r
      → IsReady (settings os (from_executable os os.executable env)) r
  unfolding main
  main-IsReady flags env w {r} e = elim (Bool-cases opts.show_version) [
    | inl asked ↦ absurd (ground (arith, e, asked))
    | inr serves ↦
        after_init-IsReady flags env2 w (init (settings os env2) os.outcomes w) refl
          (rw serves at e)
  ]
    where
      env2 : Env
      env2 = from_executable os os.executable env
