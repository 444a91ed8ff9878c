-- ===== src/Server/Outcomes.antt =====
-- What a call of HandleToolCall does on each of its paths, and what its audit entry says.
use mathlib.Core.Option
use jig_mcp.Prelude.{
  Str, lit, Map, Option, none, some, List, [], ◌∷◌, ◌++◌, Bool, true, false, not, ◌||◌,
  if◌then◌else◌, ◌≡◌, ◌≢◌, refl, lookup, arith, Bool-cases, inl, inr,
}
use jig_mcp.Prelude.Result.{Result, ok, err}
use jig_mcp.Value.{Value, text, as_object, as_bool, assert_at}
use jig_mcp.Auth.Caller.{Context, caller_from}
use jig_mcp.Tools.Runtime.{Runtime}
use jig_mcp.Tools.Base.{ToolDef, error_result}
use jig_mcp.Tools.Registry.{Tool, Effect, get_tool_by_name, run_tool, tool_definition}
use jig_mcp.Audit.Entry.{AuditEntry, entry, failed, failed_object}
use jig_mcp.Audit.Entry.Laws.{entry-error_iff}
use jig_mcp.Audit.Redact.Laws.{IsSensitive, redact_arguments_lem}
use jig_mcp.Server.Call.{Server, World, Clock, Params, finish, handle_tool_call}
use jig_mcp.Server.Laws.{
  Runs, call_of_runs, handle_tool_call-in_use, handle_tool_call-returns, handle_tool_call-panics,
  handle_tool_call-refused,
}

-- A result that says that the tool failed.
pub record IsError (v : Value) : Type 0 where
  pub fields : Map Value
  pub is_object : as_object v ≡ some fields
  pub marked : assert_at as_bool (lit "isError") fields ≡ some true

failed_iff : (v : Value) → (IsError v → failed v ≡ true) × (¬ IsError v → failed v ≡ false)
unfolding failed
failed_iff v =
    (λ bad. rw bad.is_object (rw bad.marked refl), λ fine. by_object fine (as_object v) refl)
  where
    by_mark :
        (m : Map Value) (o : Option Bool)
        → ¬ IsError v
        → as_object v ≡ some m
        → assert_at as_bool (lit "isError") m ≡ o
        → failed_object (some m) ≡ false
    by_mark m none fine e f = rw f refl
    by_mark m (some false) fine e f = rw f refl
    by_mark m (some true) fine e f =
        absurd (fine (record { fields = m; is_object = e; marked = f }))

    by_object :
        ¬ IsError v
        → (o : Option (Map Value)) → as_object v ≡ o
        → failed_object (as_object v) ≡ false
    by_object fine none e = rw e refl
    by_object fine (some m) e = rw e (by_mark m (assert_at as_bool (lit "isError") m) fine e refl)

module _ (rt : Runtime) (s : Server) (clock : Clock) (decode : Str → Result Params)
    (acquired : Bool) (ctx : Context) where
  -- The entry of a call with these parameters, whose tool has this definition and returned this value.
  pub record IsEntryOf (p : Params) (def : ToolDef) (v : Value) (e : AuditEntry) : Type 0 where
    pub timestamp : e.timestamp ≡ clock.now
    pub duration : e.duration_ms ≡ clock.duration_ms
    pub tool : e.tool ≡ p.name
    pub caller : e.caller ≡ (caller_from ctx).name
    pub failure :
        IsError v → (e.success ≡ false) × ((msg : Str) × (msg ≢ []) × (e.error ≡ some msg))
    pub success : ¬ IsError v → (e.success ≡ true) × (e.error ≡ none)
    pub sensitive :
        (k : Str)
        → IsSensitive def k
        → lookup k e.arguments
          ≡ Option.map (λ (x : Value). text (lit "[REDACTED]")) (lookup k p.arguments)
    pub others : (k : Str) → ¬ IsSensitive def k → lookup k e.arguments ≡ lookup k p.arguments

  entry-IsEntryOf :
      (p : Params) (def : ToolDef) (v : Value)
      → IsEntryOf p def v
          (entry clock.now p.name p.arguments clock.duration_ms v def (caller_from ctx).name)
  unfolding entry
  entry-IsEntryOf p def v =
      let (on_success, on_failure) =
        entry-error_iff clock.now p.name p.arguments clock.duration_ms def (caller_from ctx).name
          v in
      record {
        timestamp = refl;
        duration = refl;
        tool = refl;
        caller = refl;
        failure = λ bad. let e = (failed_iff v).0 bad in (rw e refl, on_failure (rw e refl));
        success = λ fine. let e = (failed_iff v).1 fine in (rw e refl, on_success (rw e refl));
        sensitive = λ k. (redact_arguments_lem def p.arguments k).0;
        others = λ k. (redact_arguments_lem def p.arguments k).1;
      }

  -- A call that returned this value, after these effects of its tool: one entry more, and one counted call.
  pub record Returned (p : Params) (tool : Tool) (effects : List Effect) (v : Value) (w : World)
      (x : World × Value) : Type 0 where
    pub in_use : x.0.in_use ≡ w.in_use
    pub effects_after : x.0.effects ≡ w.effects ++ effects
    pub entry_added : AuditEntry
    pub is_entry : IsEntryOf p (tool_definition tool) v entry_added
    pub log_after : x.0.audit_log ≡ w.audit_log ++ (entry_added ∷ [])
    pub metrics_after :
        x.0.metrics
        ≡ (if s.has_callback then w.metrics ++ ((p.name, clock.duration_ms) ∷ []) else w.metrics)
    pub result : x.1 ≡ v

  -- A call whose handler panicked after these effects: no entry, and no counted call.
  pub record Panicked (p : Params) (effects : List Effect) (w : World) (x : World × Value)
      : Type 0 where
    pub in_use : x.0.in_use ≡ w.in_use
    pub effects_after : x.0.effects ≡ w.effects ++ effects
    pub log_after : x.0.audit_log ≡ w.audit_log
    pub metrics_after : x.0.metrics ≡ w.metrics
    pub result :
        x.1 ≡ error_result (lit "internal error: tool " ++ (rt.quote p.name ++ lit " panicked"))

  pub data Outcome (raw : Str) (w : World) (x : World × Value) : Type 0 where
    refused :
        (msg : Str)
        → ((p : Params) (tool : Tool) → ¬ Runs rt s clock decode acquired ctx raw p tool)
        → x ≡ (w, error_result msg)
        → Outcome raw w x
    returned :
        (p : Params) (tool : Tool) (effects : List Effect) (v : Value)
        → Runs rt s clock decode acquired ctx raw p tool
        → run_tool rt tool p.arguments ≡ (effects, some v)
        → Returned p tool effects v w x
        → Outcome raw w x
    panicked :
        (p : Params) (tool : Tool) (effects : List Effect)
        → Runs rt s clock decode acquired ctx raw p tool
        → run_tool rt tool p.arguments ≡ (effects, none)
        → Panicked p effects w x
        → Outcome raw w x

  module _ (raw : Str) (w : World) where
    abbrev after : World × Value
    after = handle_tool_call rt s clock decode acquired ctx raw w

    refused-Outcome :
        ((p : Params) (tool : Tool) → ¬ Runs rt s clock decode acquired ctx raw p tool)
        → Outcome raw w after
    refused-Outcome no_tool =
        let (msg, e) = handle_tool_call-refused rt s clock decode acquired ctx raw w no_tool in
        refused msg no_tool e

    module _ (p : Params) (tool : Tool) (h : Runs rt s clock decode acquired ctx raw p tool) where
      returned_metrics :
          (effects : List Effect) (v : Value)
          → run_tool rt tool p.arguments ≡ (effects, some v)
          → after.0.metrics ≡ (
              if s.has_callback then w.metrics ++ ((p.name, clock.duration_ms) ∷ []) else w.metrics)
      unfolding finish
      returned_metrics effects v e =
          rw (call_of_runs rt s clock decode acquired ctx h w) (rw e (ground arith))

      ran-Outcome :
          (o : List Effect × Option Value) → run_tool rt tool p.arguments ≡ o → Outcome raw w after
      ran-Outcome (effects, none) e =
          let (result, log, metrics, outside) =
            handle_tool_call-panics rt s clock decode acquired ctx raw p tool w effects h e in
          panicked p tool effects h e (record {
            in_use = handle_tool_call-in_use rt s clock decode acquired ctx raw w;
            effects_after = outside;
            log_after = log;
            metrics_after = metrics;
            result = result;
          })
      ran-Outcome (effects, some v) e =
          let (result, log, outside) =
            handle_tool_call-returns rt s clock decode acquired ctx raw p tool w effects v h e in
          returned p tool effects v h e (record {
            in_use = handle_tool_call-in_use rt s clock decode acquired ctx raw w;
            effects_after = outside;
            entry_added = _;
            is_entry = entry-IsEntryOf p (tool_definition tool) v;
            log_after = log;
            metrics_after = returned_metrics effects v e;
            result = result;
          })

    -- Every call of HandleToolCall, whatever its parameters and its tool: it reaches no tool that it can run,
    -- changes nothing and returns an error; or the handler returns, the client gets its value, the effects of
    -- the tool are added, the call is counted if the server has a callback for metrics, and the log gets one
    -- entry more, with the time, the duration, the name of the tool, the caller of the context, success exactly
    -- if the value is no error, and the arguments without the sensitive values; or the handler panics, the
    -- client gets an error that names the tool, and the call is neither logged nor counted. On each path as
    -- many slots are in use afterwards as before.
    pub handle_tool_call-Outcome : Outcome raw w after
    handle_tool_call-Outcome = by_params (decode raw) refl
      where
        by_slot :
            (p : Params) (tool : Tool)
            → decode raw ≡ ok p
            → get_tool_by_name s.registry p.name ≡ some tool
            → Outcome raw w after
        by_slot p tool d g = elim (Bool-cases (not s.has_semaphore || acquired)) [
          | inl slot ↦
              ran-Outcome p tool (record { decodes = d; registered = g; has_slot = slot })
                (run_tool rt tool p.arguments) refl
          | inr busy ↦ refused-Outcome (λ q other h. cc (h.has_slot, busy))
        ]

        by_tool :
            (p : Params) (o : Option Tool)
            → decode raw ≡ ok p
            → get_tool_by_name s.registry p.name ≡ o
            → Outcome raw w after
        by_tool p none d g = refused-Outcome (λ q other h. cc (h.decodes, h.registered, d, g))
        by_tool p (some tool) d g = by_slot p tool d g

        by_params : (r : Result Params) → decode raw ≡ r → Outcome raw w after
        by_params (err e) d = refused-Outcome (λ q other h. cc (h.decodes, d))
        by_params (ok p) d = by_tool p (get_tool_by_name s.registry p.name) d refl
