-- ===== src/Dashboard/Metrics/Laws.antt =====
-- What the counters of a tool count.
use jig_mcp.Prelude.{
  scan_lines, contains, lit, some, ap, ℕ, ◌+◌, ◌%◌, ◌^◌, Str, Map, List, [], ◌∷◌, true, false,
  if◌then◌else◌, ◌==◌, lookup, lookup-insert, eq_sound, ◌≡◌, refl, ◌∙◌, arith, Bool-cases, inl, inr,
}
use jig_mcp.Prelude.Result.{Result, ok, err}
use jig_mcp.Dashboard.Metrics.{
  ToolMetrics, or_no_calls, add_call, record_metric, AuditLine, seed_line, seed_lines,
  seed_metrics_from_log,
}

-- The tool of a call and its duration.
abbrev pub Call : Type 0
Call = Str × ℕ

-- The calls of one tool: how many, and how long in all.
abbrev pub calls_of : Str → List Call → ℕ
calls_of tool [] = 0
calls_of tool ((name, d) ∷ ls) = if name == tool then 1 + calls_of tool ls else calls_of tool ls

abbrev pub time_of : Str → List Call → ℕ
time_of tool [] = 0
time_of tool ((name, d) ∷ ls) = if name == tool then d + time_of tool ls else time_of tool ls

abbrev pub keep_line : Result AuditLine → List Call → List Call
keep_line (err e) ls = ls
keep_line (ok l) ls = (l.tool, l.duration_ms) ∷ ls

-- The lines that decode.
abbrev pub decoded : (Str → Result AuditLine) → List Str → List Call
decoded decode [] = []
decoded decode (l ∷ ls) = keep_line (decode l) (decoded decode ls)

abbrev pub metrics_of : Str → Map ToolMetrics → ToolMetrics
metrics_of tool store = or_no_calls (lookup tool store)

metrics_of-record_metric :
    (tool name : Str) (d : ℕ) (store : Map ToolMetrics)
    → metrics_of tool (record_metric name d store)
      ≡ (if name == tool then add_call d (metrics_of name store) else metrics_of tool store)
unfolding record_metric
metrics_of-record_metric tool name d store =
    rw (lookup-insert name tool (add_call d (metrics_of name store)) store)
      (elim (Bool-cases (name == tool)) [ inl same ↦ rw same refl | inr other ↦ rw other refl ])

metrics_of-same :
    (tool name : Str) (d : ℕ) (store : Map ToolMetrics)
    → (name == tool) ≡ true
    → metrics_of tool (record_metric name d store) ≡ add_call d (metrics_of tool store)
metrics_of-same tool name d store same =
    metrics_of-record_metric tool name d store
    ∙ (rw same (ap (λ n. add_call d (metrics_of n store)) (eq_sound name tool same)))

metrics_of-other :
    (tool name : Str) (d : ℕ) (store : Map ToolMetrics)
    → (name == tool) ≡ false
    → metrics_of tool (record_metric name d store) ≡ metrics_of tool store
metrics_of-other tool name d store other =
    metrics_of-record_metric tool name d store ∙ (rw other refl)

-- The counters have this many calls and this time, up to the wrap of an int64.
pub record Counts (m : ToolMetrics) (calls time : ℕ) : Type 0 where
  pub count : m.count ≡ calls % 2 ^ 64
  pub total_ms : m.total_ms ≡ time % 2 ^ 64

add_call-Counts :
    (m : ToolMetrics) (calls time d : ℕ)
    → Counts m calls time
    → Counts (add_call d m) (calls + 1) (time + d)
add_call-Counts m calls time d h = record {
  count = ground (arith, h.count);
  total_ms = ground (arith, h.total_ms);
}

-- RecordMetric on a list of calls.
abbrev pub record_all : List Call → Map ToolMetrics → Map ToolMetrics
record_all [] store = store
record_all ((name, d) ∷ calls) store = record_all calls (record_metric name d store)

regroup : (a b c : ℕ) → a + (b + c) ≡ (a + b) + c
regroup a b c = omega arith

record_all-Counts :
    (tool : Str) (ds : List Call) (store : Map ToolMetrics) (calls time : ℕ)
    → Counts (metrics_of tool store) calls time
    → Counts
        (metrics_of tool (record_all ds store))
        (calls + calls_of tool ds)
        (time + time_of tool ds)
record_all-Counts tool [] store calls time h = record {
  count = ground (arith, h.count);
  total_ms = ground (arith, h.total_ms);
}
record_all-Counts tool ((name, d) ∷ ds) store calls time h = elim (Bool-cases (name == tool)) [
  | inl same ↦ rw same (
      rw (regroup calls 1 (calls_of tool ds)) (
        rw (regroup time d (time_of tool ds)) (
          record_all-Counts tool ds (record_metric name d store) (calls + 1) (time + d) (
            rw (metrics_of-same tool name d store same)
              (add_call-Counts (metrics_of tool store) calls time d h)))))
  | inr other ↦ rw other (
      record_all-Counts tool ds (record_metric name d store) calls time
        (rw (metrics_of-other tool name d store other) h))
]

zero_plus : (n : ℕ) → 0 + n ≡ n
zero_plus n = omega arith

record_all-nil :
    (tool : Str) (ds : List Call)
    → Counts (metrics_of tool (record_all ds [])) (calls_of tool ds) (time_of tool ds)
unfolding lookup
record_all-nil tool ds =
    rw (zero_plus (calls_of tool ds), zero_plus (time_of tool ds)) at
      (record_all-Counts tool ds [] 0 0 (record { count = refl; total_ms = refl }))

seed_lines-record_all :
    (decode : Str → Result AuditLine) (ls : List Str) (store : Map ToolMetrics)
    → seed_lines decode ls store ≡ record_all (decoded decode ls) store
unfolding seed_lines
seed_lines-record_all decode [] store = refl
seed_lines-record_all decode (l ∷ ls) store = by_line (decode l) (seed_lines-record_all decode ls)
  where
    by_line :
        (r : Result AuditLine)
        → ((s : Map ToolMetrics) → seed_lines decode ls s ≡ record_all (decoded decode ls) s)
        → seed_lines decode ls (seed_line decode r store)
          ≡ record_all (keep_line r (decoded decode ls)) store
    by_line (err e) rest = rest store
    by_line (ok l) rest = rest (record_metric l.tool l.duration_ms store)

-- The directory's name has no "..": counting from an empty store, what the audit log holds and then the calls
-- that are recorded, the counters of a tool are the number of its decodable lines and calls, and the sum of
-- their durations, modulo 2 ^ 64. The lines are those that the scanner gives, up to the first of more than
-- 65535 bytes; one that does not decode counts for no tool.
pub seed_metrics_from_log_lem :
    (decode : Str → Result AuditLine) (log_dir content : Str) (calls : List Call) (tool : Str)
    → contains log_dir (lit "..") ≡ false
    → Counts
        (metrics_of tool
          (record_all calls (seed_metrics_from_log decode log_dir (some content) [])))
        (calls_of tool (decoded decode (scan_lines content)) + calls_of tool calls)
        (time_of tool (decoded decode (scan_lines content)) + time_of tool calls)
unfolding seed_metrics_from_log lookup
seed_metrics_from_log_lem decode log_dir content calls tool plain =
    let ls = scan_lines content in
    rw plain (
      rw (seed_lines-record_all decode ls []) (
        record_all-Counts tool calls (record_all (decoded decode ls) [])
          (calls_of tool (decoded decode ls)) (time_of tool (decoded decode ls))
          (record_all-nil tool (decoded decode ls))))
