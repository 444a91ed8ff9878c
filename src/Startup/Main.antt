-- ===== src/Startup/Main.antt =====
-- initGlobalTimeout and main of cmd/jig-mcp/main.go, up to the point where it serves. The operating system,
-- the environment files and the decoders are the fields of `System`.
pub mod Ready
mod Tests
use jig_mcp.Prelude.{
  ℕ, suc, ◌*◌, ◌^◌, Str, lit, Map, Option, none, some, List, [], ◌∷◌, ◌++◌, Bool, true, false, not,
  ◌&&◌, if◌then◌else◌, ◌==◌,
}
use jig_mcp.Prelude.Int.{ℤ, pos, pos_part, leb_ℤ}
use jig_mcp.Prelude.Result.{Result}
use jig_mcp.Logging.{Level, init_level}
use jig_mcp.Auth.Tokens.{TokenRegistry, init_token_registry}
use jig_mcp.Config.{ToolConfig}
use jig_mcp.Config.Load.{DirEntry, Metadata, Probe}
use jig_mcp.Audit.Writer.{Settings, Outcomes, Writer, init, get_log_dir}
use jig_mcp.Audit.Writer
use jig_mcp.Dashboard.Logs.{AuditLine}
use jig_mcp.Http.{HttpServer}
use jig_mcp.Sse.Routes.{sse_server}
use jig_mcp.Dashboard.Routes.{dashboard_server}
use jig_mcp.Dashboard.Metrics.{ToolMetrics, seed_metrics_from_log}
use jig_mcp.Server.Call.{Server}
use jig_mcp.Startup.{Flags, init_tool_semaphore, apply_env_overrides, detect_config_dir, load_tools}

abbrev pub Env : Type 0
Env = Str → Str

pub record System : Type 0 where
  -- os.Executable, filepath.Base, Dir, Join and Clean
  pub executable : Option Str
  pub base : Str → Str
  pub dir : Str → Str
  pub join : Str → Str → Str
  pub clean : Str → Str
  -- godotenv.Load of the file .env in a directory: the environment afterwards
  pub load_env : Str → Env → Env
  -- %q and %d, fmt.Sscanf with %d, strconv and time.ParseDuration
  pub quote : Str → Str
  pub scan : Str → Option ℤ
  pub decimal : ℤ → Str
  pub parse_int : Str → Result ℤ
  pub parse_perms : Str → Result ℕ
  pub parse_duration : Str → Option ℤ
  pub outcomes : Outcomes
  pub exists : Str → Bool
  -- the directories tools and scripts of a configuration directory, and what is in them
  pub tools : Str → Option (List DirEntry)
  pub scripts : Str → Option (List DirEntry)
  pub decode_manifest : Str → Result ToolConfig
  pub file_ext : Str → Str
  pub script_path : Str → Str → Str
  pub run : Str → List Str → Probe
  pub decode_meta : Str → Result Metadata
  -- the content of audit.jsonl in a directory
  pub log_text : Str → Option Str
  pub decode_line : Str → Result AuditLine

abbrev pub positive_or_default : Option ℤ → ℕ
positive_or_default (some (pos (suc d))) = suc d
positive_or_default _ = 30 * 10 ^ 9

-- globalTimeout in nanoseconds.
unfoldable pub init_global_timeout : Env → (Str → Option ℤ) → ℕ
init_global_timeout env parse_duration =
    let v = env (lit "JIG_TOOL_TIMEOUT") in
    if v == [] then 30 * 10 ^ 9 else positive_or_default (parse_duration v)

-- What main serves with.
pub record Running : Type 0 where
  pub server : Server
  pub global_timeout : ℕ
  pub tokens : TokenRegistry
  pub audit : Writer.World
  pub metrics : Map ToolMetrics
  pub servers : List HttpServer
  pub level : Level

pub data Ended : Type 0 where
  printed_version : Ended
  failed : Ended
  sse : Running → Ended
  stdio : Running → Ended

-- The flags that the environment does not override.
pub record Options : Type 0 where
  pub show_version : Bool
  pub dashboard_port : ℤ

module _ (os : System) where
  abbrev pub from_executable : Option Str → Env → Env
  from_executable none env = env
  from_executable (some exe) env =
      let exe_dir = os.dir exe in
      os.load_env (if os.base exe_dir == lit "bin" then os.dir exe_dir else exe_dir) env

  abbrev pub settings : Env → Settings
  settings env = record {
    getenv = env;
    clean = os.clean;
    parse_int = os.parse_int;
    parse_perms = os.parse_perms;
  }

  abbrev pub if_found : Str → Str → Str
  if_found config_dir detected = if not (detected == []) then detected else config_dir

  -- *configDir after the detection.
  abbrev pub final_config_dir : Option Str → Str → Str
  final_config_dir none config_dir = config_dir
  final_config_dir (some exe) config_dir =
      if_found config_dir
        (detect_config_dir os.base os.dir os.join os.exists config_dir (os.dir exe))

  -- The servers that are started before the transport.
  abbrev pub dashboards : Options → List HttpServer
  dashboards opts =
      if leb_ℤ (pos 1) opts.dashboard_port
      then dashboard_server os.decimal opts.dashboard_port ∷ []
      else []

  -- After Init of the audit log.
  abbrev pub running : Str → Options → Flags → Env → Writer.World → Running
  running version opts flags env audit =
      let config_dir = final_config_dir os.executable flags.config_dir in
      let log_dir = get_log_dir (settings env) audit.writer in
      record {
        server = record {
          registry =
              load_tools os.decode_manifest os.file_ext (os.script_path config_dir) os.run
                os.decode_meta (os.tools config_dir) (os.scripts config_dir);
          has_semaphore = true;
          semaphore_size = pos_part (init_tool_semaphore env os.scan);
          version = version;
          has_callback = true;
        };
        global_timeout = init_global_timeout env os.parse_duration;
        tokens = init_token_registry env (record { entries = [] });
        audit = audit;
        metrics = seed_metrics_from_log os.decode_line log_dir (os.log_text log_dir) [];
        servers = dashboards opts;
        level = init_level os.quote (env (lit "JIG_LOG_LEVEL"));
      }

  abbrev pub serve_as : Flags → Running → Ended
  serve_as flags r =
      if flags.transport == lit "sse"
      then sse (record r { servers = r.servers ++ (sse_server os.decimal flags.sse_port ∷ []) })
      else stdio r

  abbrev pub after_init : Str → Options → Flags → Env → Option Writer.World → Ended
  after_init version opts flags env none = failed
  after_init version opts flags env (some audit) =
      let overridden = apply_env_overrides env os.scan flags in
      serve_as overridden (running version opts overridden env audit)

  unfoldable pub main : Str → Options → Flags → Env → Writer.World → Ended
  main version opts flags initial_env audit =
      let env = from_executable os.executable initial_env in
      if opts.show_version
      then printed_version
      else after_init version opts flags env (init (settings env) os.outcomes audit)
