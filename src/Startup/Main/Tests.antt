-- ===== src/Startup/Main/Tests.antt =====
-- A start of main with the default settings.
use jig_mcp.Prelude.{lit, none, [], ◌∷◌, false, ◌==◌, contains, has_prefix, refl}
use jig_mcp.Prelude.Int.{pos}
use jig_mcp.Prelude.Result.{err}
use jig_mcp.Config.Load.{Probe}
use jig_mcp.Audit.Writer.{nil, opened, configured_dir, check_settings, init}
use jig_mcp.Audit.Files.{open_append}
use jig_mcp.Audit.Writer
use jig_mcp.Audit.Writer.Trail.{all_succeed}
use jig_mcp.Sse.Routes.{sse_server}
use jig_mcp.Startup.{Flags, apply_env_overrides}
use jig_mcp.Startup.Main.{Env, System, Running, Options, settings, running, main}
use jig_mcp.Startup.Main.Ready.{IsReady, main-IsReady}

abbrev os : System
os = record {
  executable = none;
  base = λ p. p;
  dir = λ p. p;
  join = λ a b. a;
  clean = λ p. p;
  load_env = λ d env. env;
  quote = λ s. s;
  scan = λ s. none;
  decimal = λ n. lit "3001";
  parse_int = λ s. err (lit "bad");
  parse_perms = λ s. err (lit "bad");
  parse_duration = λ s. none;
  outcomes = all_succeed;
  exists = λ p. false;
  tools = λ d. none;
  scripts = λ d. none;
  decode_manifest = λ s. err (lit "bad");
  file_ext = λ s. [];
  script_path = λ d s. s;
  run = λ p args. Probe.failed;
  decode_meta = λ s. err (lit "bad");
  log_text = λ d. none;
  decode_line = λ s. err (lit "bad");
}

abbrev unset : Env
unset k = []

abbrev flags : Flags
flags = record { transport = lit "sse"; sse_port = pos 3001; config_dir = lit "." }

abbrev options : Options
options = record { show_version = false; dashboard_port = pos 0 }

abbrev before : Writer.World
before = record {
  writer = record { file = nil; root = nil; log_dir = []; warn_last = none };
  disk = λ d n. none;
}

abbrev after : Writer.World
after = record {
  writer = record { file = opened; root = opened; log_dir = lit "logs"; warn_last = none };
  disk = Writer.set_files before.disk (lit "logs") (open_append 0 (before.disk (lit "logs")));
}

abbrev serving : Running
serving =
    record (running os (lit "dev") options (apply_env_overrides unset os.scan flags) unset after) {
      servers = sse_server os.decimal (pos 3001) ∷ [];
    }

main-IsReady_example : IsReady (settings os unset) serving
unfolding main init check_settings configured_dir contains has_prefix ◌==◌ apply_env_overrides
main-IsReady_example = main-IsReady os (lit "dev") options flags unset before refl
