-- ===== src/Dashboard/Metrics.antt =====
-- The counters of internal/dashboard/dashboard.go: RecordMetric, getMetrics, SeedMetricsFromLog. Each runs
-- under the lock of the store. An int64 is kept as its value modulo 2 ^ 64.
pub mod Laws
use jig_mcp.Prelude.{
  scan_lines, ◌&&◌, ltb, ℕ, ◌+◌, ◌%◌, ◌^◌, Str, Map, Option, none, some, List, [], ◌∷◌, Bool, true,
  false, if◌then◌else◌, lookup, insert, lit, contains, map,
}
use jig_mcp.Dashboard.Logs.{AuditLine}
use jig_mcp.Prelude.Result.{Result, ok, err}

pub record ToolMetrics : Type 0 where
  pub count : ℕ
  pub total_ms : ℕ

abbrev pub no_calls : ToolMetrics
no_calls = record { count = 0; total_ms = 0 }

abbrev pub or_no_calls : Option ToolMetrics → ToolMetrics
or_no_calls none = no_calls
or_no_calls (some m) = m

abbrev pub add_call : ℕ → ToolMetrics → ToolMetrics
add_call duration_ms m = record {
  count = (m.count + 1) % 2 ^ 64;
  total_ms = (m.total_ms + duration_ms) % 2 ^ 64;
}

-- The store of pointers is a map of values, since a pointer stays in its entry.
unfoldable pub record_metric : Str → ℕ → Map ToolMetrics → Map ToolMetrics
record_metric tool_name duration_ms store =
    insert tool_name (add_call duration_ms (or_no_calls (lookup tool_name store))) store

-- What getMetrics reports of a tool, over the type of float64 and its division.
pub record ToolReport (Float : Type 0) : Type 0 where
  pub count : ℕ
  pub avg_duration_ms : Float

-- An int64 above 0: not 0, and below 2 ^ 63 as a value modulo 2 ^ 64.
abbrev pub is_positive : ℕ → Bool
is_positive n = ltb 0 n && ltb n (2 ^ 63)

module _ {Float : Type 0} (zero_float : Float) (quotient : ℕ → ℕ → Float) where
  abbrev pub report_of : ToolMetrics → ToolReport Float
  report_of m = record {
    count = m.count;
    avg_duration_ms = if is_positive m.count then quotient m.total_ms m.count else zero_float;
  }

  unfoldable pub get_metrics : Map ToolMetrics → Map (ToolReport Float)
  get_metrics [] = []
  get_metrics ((tool, m) ∷ store) = (tool, report_of m) ∷ get_metrics store

-- `decode` is json.Unmarshal, on each line that the scanner gives.
module _ (decode : Str → Result AuditLine) where
  abbrev pub seed_line : Result AuditLine → Map ToolMetrics → Map ToolMetrics
  seed_line (err e) store = store
  seed_line (ok l) store = record_metric l.tool l.duration_ms store

  unfoldable pub seed_lines : List Str → Map ToolMetrics → Map ToolMetrics
  seed_lines [] store = store
  seed_lines (l ∷ ls) store = seed_lines ls (seed_line (decode l) store)

  abbrev pub seed_file : Option Str → Map ToolMetrics → Map ToolMetrics
  seed_file none store = store
  seed_file (some content) store = seed_lines (scan_lines content) store

  -- `log` is the content of audit.jsonl in the directory, `none` if it cannot be opened.
  unfoldable pub seed_metrics_from_log : Str → Option Str → Map ToolMetrics → Map ToolMetrics
  seed_metrics_from_log log_dir log store =
      if contains log_dir (lit "..") then store else seed_file log store
