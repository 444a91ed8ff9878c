-- ===== src/Server/Private.antt =====
-- Calls that differ in sensitive arguments only.
use jig_mcp.Prelude.{
  inr, inl, Bool-cases, Bool, ap, ◌∙◌, ◌||◌, not, ℕ, Str, Option, none, some, List, Map, ◌≡◌, refl,
  arith,
}
use jig_mcp.Value.{Value}
use jig_mcp.Auth.Caller.{caller_from, Context}
use jig_mcp.Tools.Runtime.{Runtime}
use jig_mcp.Tools.Base.{ToolDef}
use jig_mcp.Tools.Registry.{run_tool, get_tool_by_name, Tool, Effect, tool_definition}
use jig_mcp.Prelude.Result.{Result, ok}
use jig_mcp.Audit.Entry.{AuditEntry, entry}
use jig_mcp.Audit.Redact.Laws.{AgreeOnPublic, redact_arguments_noninterference}
use jig_mcp.Server.Call.{
  acquire, handle_tool_call, call_tool, execute, Params, Server, World, Clock, finish,
}

entry-private :
    (now name caller : Str) (m n : Map Value) (ms : ℕ) (v : Value) (def : ToolDef)
    → AgreeOnPublic def m n
    → entry now name m ms v def caller ≡ entry now name n ms v def caller
unfolding entry
entry-private now name caller m n ms v def h = rw (redact_arguments_noninterference def m n h) refl

module _ (rt : Runtime) (s : Server) (clock : Clock) (ctx : Context) where
  finish-private :
      (name : Str) (m n : Map Value) (tool : Tool) (w : World) (x y : List Effect)
      (o : Option Value)
      → AgreeOnPublic (tool_definition tool) m n
      → (finish rt s clock ctx (record { name = name; arguments = m }) tool w (x, o)).0.audit_log
        ≡ (finish rt s clock ctx (record { name = name; arguments = n }) tool w (y, o)).0.audit_log
  unfolding finish
  finish-private name m n tool w x y none h = ground arith
  finish-private name m n tool w x y (some v) h = ground (
    arith,
    entry-private clock.now name (caller_from ctx).name m n clock.duration_ms v
        (tool_definition tool) h,
  )

-- Both calls reach the same tool with arguments that agree on everything public, and its handler returns the
-- same result, or panics, for both.
pub record Alike (rt : Runtime) (s : Server) (p q : Params) : Type 0 where
  pub name : p.name ≡ q.name
  pub arguments :
      {tool : Tool}
      → get_tool_by_name s.registry p.name ≡ some tool
      → AgreeOnPublic (tool_definition tool) p.arguments q.arguments
  pub results :
      {tool : Tool}
      → get_tool_by_name s.registry p.name ≡ some tool
      → (run_tool rt tool p.arguments).1 ≡ (run_tool rt tool q.arguments).1

module _ (rt : Runtime) (s : Server) (clock : Clock) (decode : Str → Result Params)
    (acquired : Bool) (ctx : Context) where
  execute-private :
      (name : Str) (m n : Map Value) (tool : Tool) (w : World)
      → AgreeOnPublic (tool_definition tool) m n
      → (run_tool rt tool m).1 ≡ (run_tool rt tool n).1
      → (execute rt s clock ctx (record { name = name; arguments = m }) tool w).0.audit_log
        ≡ (execute rt s clock ctx (record { name = name; arguments = n }) tool w).0.audit_log
  unfolding execute
  execute-private name m n tool w h e =
      finish-private rt s clock ctx name m n tool (acquire s w) (run_tool rt tool m).0
        (run_tool rt tool n).0 (run_tool rt tool m).1 h
      ∙ ap
          (λ o.
            (finish rt s clock ctx (record { name = name; arguments = n }) tool (acquire s w)
              ((run_tool rt tool n).0, o)).0.audit_log)
          e

  call_tool-private :
      (name : Str) (m n : Map Value) (o : Option Tool) (w : World)
      → get_tool_by_name s.registry name ≡ o
      → Alike rt s (record { name = name; arguments = m }) (record { name = name; arguments = n })
      → (call_tool rt s clock decode acquired ctx
          (record { name = name; arguments = m })
          o
          w).0.audit_log
        ≡ (call_tool rt s clock decode acquired ctx
            (record { name = name; arguments = n })
            o
            w).0.audit_log
  unfolding call_tool
  call_tool-private name m n none w g h = refl
  call_tool-private name m n (some tool) w g h =
      elim (Bool-cases (not s.has_semaphore || acquired)) [
        | inl slot ↦ rw slot (execute-private name m n tool w (h.arguments g) (h.results g))
        | inr busy ↦ rw busy refl
      ]

  -- Two requests for the same tool whose arguments differ at most in values that the tool's schema marks as
  -- sensitive, and for which the handler gives the same result or panics both times, leave the same audit
  -- log, whether the tool is found, gets a slot, or not.
  pub handle_tool_call-private :
      (raw other : Str) (p q : Params) (w : World)
      → decode raw ≡ ok p
      → decode other ≡ ok q
      → Alike rt s p q
      → (handle_tool_call rt s clock decode acquired ctx raw w).0.audit_log
        ≡ (handle_tool_call rt s clock decode acquired ctx other w).0.audit_log
  unfolding handle_tool_call
  handle_tool_call-private raw other p q w d e h = rw d (
      rw e (
        call_tool-private p.name p.arguments q.arguments (get_tool_by_name s.registry p.name) w refl
          (record { name = refl; arguments = h.arguments; results = h.results })
        ∙ ap (λ name. log_of (record { name = name; arguments = q.arguments })) h.name))
    where
      log_of : Params → List AuditEntry
      log_of x =
          (call_tool rt s clock decode acquired ctx x (get_tool_by_name s.registry x.name)
            w).0.audit_log
