-- ===== src/Dashboard/Tests.antt =====
-- Two lines of a log, one of them broken, and one call.
use jig_mcp.Prelude.{
  drop_cr, split, scan_parts, scan_lines, here, next, none, map, ℕ, ◌/◌, ◌-◌, ◌≤◌, length, ◌==◌,
  arith, sort_by, insert_sorted, less, true, Str, lit, some, List, [], ◌∷◌, ◌≡◌, refl, contains,
  has_prefix, ◌+◌,
}
use jig_mcp.Prelude.Int.{pos}
use jig_mcp.Auth.Caller.{background}
use jig_mcp.Auth.Tokens.Lookup.{IsFirstOwner}
use jig_mcp.Auth.Tokens.{TokenRegistry}
use jig_mcp.Auth.Middleware.{unauthorized, candidate_token, bearer}
use jig_mcp.Auth.Middleware.Laws.{Admits, open_to_all, owner}
use jig_mcp.Http.{HttpRequest}
use jig_mcp.Server.Slots.{Reach, arrive, acquire, running, empty_pool, count_running}
use jig_mcp.Tools.Sample.{blank_config}
use jig_mcp.Tools.Registry.{Tool}
use jig_mcp.Dashboard.Logs.{
  LogFile, granted, get_audit_logs, decode_lines, tail_lines, seek_pos, tail_size,
}
use jig_mcp.Dashboard.Logs.Laws.{ShowsLatest, get_audit_logs_lem}
use jig_mcp.Dashboard.Routes.{Sources, Api, serve_dashboard, api_metrics}
use jig_mcp.Dashboard.Routes.Laws.{serve_dashboard-not_Admits}
use jig_mcp.Dashboard.Routes.Slots.{api_metrics-Reach}
use jig_mcp.Prelude.Result.{Result, ok, err}
use jig_mcp.Dashboard.Logs.{AuditLine}
use jig_mcp.Dashboard.Metrics.{seed_metrics_from_log}
use jig_mcp.Dashboard.Metrics.Laws.{
  Counts, metrics_of, record_all, calls_of, time_of, decoded, seed_metrics_from_log_lem,
}

abbrev decode : Str → Result AuditLine
decode [] = err (lit "unexpected end of JSON input")
decode (c ∷ cs) = ok (record {
  timestamp = c ∷ cs;
  tool = lit "echo";
  arguments = [];
  duration_ms = 7;
  success = true;
  error = [];
})

abbrev log : Str
log = lit "{}\r\n\n"

seed_metrics_from_log_lem_example :
    Counts
      (metrics_of (lit "echo") (
        record_all
          ((lit "echo", 5) ∷ [])
          (seed_metrics_from_log decode (lit "logs") (some log) [])))
      (calls_of (lit "echo") (decoded decode (scan_lines log))
        + calls_of (lit "echo") ((lit "echo", 5) ∷ []))
      (time_of (lit "echo") (decoded decode (scan_lines log))
        + time_of (lit "echo") ((lit "echo", 5) ∷ []))
unfolding contains has_prefix
seed_metrics_from_log_lem_example =
    seed_metrics_from_log_lem decode (lit "logs") log ((lit "echo", 5) ∷ []) (lit "echo") refl

two_calls :
    calls_of (lit "echo") (decoded decode (scan_lines log))
      + calls_of (lit "echo") ((lit "echo", 5) ∷ [])
    ≡ 2
unfolding scan_lines scan_parts split drop_cr ◌==◌
two_calls = refl

-- A line is the time of its entry here.
abbrev stamped : Str → Result AuditLine
stamped time = ok (record {
  timestamp = time;
  tool = lit "echo";
  arguments = [];
  duration_ms = 7;
  success = true;
  error = [];
})

abbrev by_bytes : Str → List Str
by_bytes [] = []
by_bytes (c ∷ cs) = (c ∷ []) ∷ by_bytes cs

abbrev log_file : LogFile
log_file = record {
  root = granted;
  file = granted;
  stat_error = none;
  seek_error = none;
  content = lit "132";
}

get_audit_logs_lem_example :
    (shown : List AuditLine) × (older : List AuditLine) × (get_audit_logs by_bytes stamped 2
        (lit "logs")
        log_file
      ≡ ok shown)
    × ShowsLatest 2
        (decode_lines by_bytes stamped (tail_lines by_bytes stamped (lit "132")))
        shown
        older
    × (length (lit "132") ≤ tail_size
        → tail_lines by_bytes stamped (lit "132") ≡ by_bytes (lit "132"))
unfolding contains has_prefix
get_audit_logs_lem_example =
    get_audit_logs_lem by_bytes stamped 2 (lit "logs") log_file refl refl refl refl refl

abbrev times : Result (List AuditLine) → List Str
times (ok ls) = map (λ l. l.timestamp) ls
times (err e) = []

two_latest :
    times (get_audit_logs by_bytes stamped 2 (lit "logs") log_file) ≡ lit "3" ∷ lit "2" ∷ []
unfolding get_audit_logs contains has_prefix decode_lines tail_lines seek_pos sort_by insert_sorted
    less
two_latest = refl

abbrev echo : Tool
echo = Tool.external blank_config

abbrev sources : Sources
sources = record {
  registry = record { tools = (lit "echo", echo) ∷ [] };
  has_semaphore = true;
  in_use = 1;
  semaphore_size = 1;
  store = [];
  log_dir = lit "logs";
  log = log_file;
}

abbrev encode : Api ℕ → Str
encode a = lit "{}"

abbrev locked : TokenRegistry
locked = record { entries = record { name = lit "ann"; token = lit "s3" } ∷ [] }

abbrev no_query : Str → Str
no_query k = []

abbrev stranger : HttpRequest
stranger = record {
  method = lit "GET";
  authorization = [];
  query = no_query;
  remote_addr = lit "10.0.0.7:5000";
  body = [];
  ctx = background;
}

stranger-not_Admits : (n : Str) → ¬ Admits locked stranger n
unfolding candidate_token bearer ◌==◌
stranger-not_Admits n (open_to_all e named) = cc
stranger-not_Admits n (owner nonempty (IsFirstOwner.here token_is named)) = cc
stranger-not_Admits n (owner nonempty (IsFirstOwner.later other o)) = elim o [ ]

serve_dashboard-not_Admits_example :
    serve_dashboard 0 ◌/◌ by_bytes stamped encode
      (lit "<html>")
      locked
      sources
      (lit "/api/logs")
      stranger
    ≡ unauthorized
serve_dashboard-not_Admits_example =
    serve_dashboard-not_Admits 0 ◌/◌ by_bytes stamped encode (lit "<html>") locked sources
      (lit "/api/logs") stranger stranger-not_Admits

one_running : Reach (empty_pool 1) (record { capacity = 1; in_use = 1; calls = running ∷ [] })
one_running = next (next here arrive) (acquire [] [] refl (omega arith))

api_metrics-Reach_example :
    ((api_metrics 0 ◌/◌ by_bytes stamped encode (lit "<html>") sources).in_use
      ≡ count_running (running ∷ []))
    × ((api_metrics 0 ◌/◌ by_bytes stamped encode (lit "<html>") sources).available
        ≡ pos (1 - count_running (running ∷ [])))
api_metrics-Reach_example =
    api_metrics-Reach 0 ◌/◌ by_bytes stamped encode (lit "<html>") 1 sources one_running refl refl
      refl
