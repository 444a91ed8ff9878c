-- ===== src/Dashboard/Routes.antt =====
-- The routes of StartDashboard in internal/dashboard/dashboard.go, with the values that their JSON encodes.
pub mod Laws
pub mod Tools
pub mod Slots
use jig_mcp.Prelude.{
  ◌++◌, ℕ, Str, lit, Map, Option, none, some, List, [], ◌∷◌, map, Bool, true, false, if◌then◌else◌,
  ◌==◌, lookup, less, sort_by,
}
use jig_mcp.Prelude.Int.{ℤ, sub_ℕ}
use jig_mcp.Prelude.Result.{Result, ok, err}
use jig_mcp.Http.{HttpRequest, HttpReply, HttpServer}
use jig_mcp.Auth.Tokens.{TokenRegistry}
use jig_mcp.Auth.Middleware.{authenticate_dashboard}
use jig_mcp.Config.{ToolConfig}
use jig_mcp.Tools.Registry.{Tool, Registry, get_tools, get_config}
use jig_mcp.Dashboard.Logs.{AuditLine, LogFile, get_audit_logs}
use jig_mcp.Dashboard.Metrics.{ToolMetrics, ToolReport, get_metrics}

-- What the handlers read: the registry, the semaphore with the length of its channel, the counters, and the
-- log of the directory.
pub record Sources : Type 0 where
  pub registry : Registry
  pub has_semaphore : Bool
  pub in_use : ℕ
  pub semaphore_size : ℕ
  pub store : Map ToolMetrics
  pub log_dir : Str
  pub log : LogFile

abbrev pub add_config : Option ToolConfig → List ToolConfig → List ToolConfig
add_config none cs = cs
add_config (some c) cs = c ∷ cs

abbrev pub config_at : Option Tool → Option ToolConfig
config_at none = none
config_at (some t) = get_config t

unfoldable pub configs_of : Map Tool → List Str → List ToolConfig
configs_of tools [] = []
configs_of tools (name ∷ names) =
    add_config (config_at (lookup name tools)) (configs_of tools names)

unfoldable pub api_tools : Registry → List ToolConfig
api_tools r =
    let all_tools = get_tools r in configs_of all_tools (sort_by less (map (λ e. e.0) all_tools))

pub record MetricsReport (Float : Type 0) : Type 0 where
  pub tools : Map (ToolReport Float)
  pub max_concurrent_tools : ℕ
  pub in_use : ℕ
  pub available : ℤ

pub data Api (Float : Type 0) : Type 0 where
  tools : List ToolConfig → Api Float
  logs : List AuditLine → Api Float
  metrics : MetricsReport Float → Api Float

-- The server of StartDashboard. `decimal` is the verb %d.
abbrev pub dashboard_server : (ℤ → Str) → ℤ → HttpServer
dashboard_server decimal port = record {
  addr = lit ":" ++ decimal port;
  read_header_timeout = 10;
  read_timeout = 30;
  write_timeout = some 60;
  idle_timeout = 120;
}

-- `encode` is what the JSON encoder writes, `page` the constant dashboardHTML.
module _ {Float : Type 0} (zero_float : Float) (quotient : ℕ → ℕ → Float) (scan : Str → List Str)
    (decode : Str → Result AuditLine) (encode : Api Float → Str) (page : Str) where
  unfoldable pub api_metrics : Sources → MetricsReport Float
  api_metrics s =
      let in_use = if s.has_semaphore then s.in_use else 0 in
      record {
        tools = get_metrics zero_float quotient s.store;
        max_concurrent_tools = s.semaphore_size;
        in_use = in_use;
        available = sub_ℕ s.semaphore_size in_use;
      }

  abbrev pub reply_with : Str → Str → HttpReply
  reply_with content_type body = record {
    status = 200;
    header = (lit "Content-Type", content_type) ∷ [];
    body = body;
  }

  abbrev pub reply_json : Api Float → HttpReply
  reply_json a = reply_with (lit "application/json") (encode a)

  abbrev pub reply_logs : Result (List AuditLine) → HttpReply
  reply_logs (err e) = record { status = 500; header = []; body = e }
  reply_logs (ok ls) = reply_json (logs ls)

  module _ (tr : TokenRegistry) (s : Sources) where
    abbrev guarded : (HttpRequest → HttpReply) → HttpRequest → HttpReply
    guarded h = authenticate_dashboard (λ reply. reply) tr h

    -- The mux: "/" is every other path.
    unfoldable pub serve_dashboard : Str → HttpRequest → HttpReply
    serve_dashboard path r =
        if path == lit "/api/tools"
        then guarded (λ q. reply_json (tools (api_tools s.registry))) r
        else if path == lit "/api/logs"
        then guarded (λ q. reply_logs (get_audit_logs scan decode 100 s.log_dir s.log)) r
        else if path == lit "/api/metrics"
        then guarded (λ q. reply_json (metrics (api_metrics s))) r
        else guarded (λ q. reply_with (lit "text/html") page) r
