-- ===== src/Server/Caller.antt =====
-- The caller that a request leaves in the audit log.
use jig_mcp.Prelude.{
  if_has, ◌==◌, arith, Str, lit, Option, none, some, List, [], ◌∷◌, ◌++◌, Bool, not, ◌||◌, ◌≡◌,
  refl, All, All-append, inl, inr, Bool-cases,
}
use jig_mcp.Prelude.Result.{Result, ok, err}
use jig_mcp.Value.{Value}
use jig_mcp.Auth.Caller.{Context, caller_from}
use jig_mcp.Tools.Runtime.{Runtime}
use jig_mcp.Tools.Registry.{Tool, Effect, run_tool, get_tool_by_name}
use jig_mcp.Audit.Entry.{AuditEntry, entry}
use jig_mcp.Server.Call.{
  decoded_call, Server, World, Clock, Params, acquire, release, add_metric, finish, execute,
  call_tool, handle_tool_call,
}
use jig_mcp.Server.{tool_definition, Request, Response, process_request}

-- Every entry of the log names this caller.
abbrev pub OnlyCaller : Str → World → Type 0
OnlyCaller name w = All (λ (e : AuditEntry). e.caller ≡ name) w.audit_log

module _ (rt : Runtime) (s : Server) (clock : Clock) (decode : Str → Result Params)
    (acquired : Bool) (ctx : Context) where
  -- A slot and a metric leave the log as it is.
  release-log : (w : World) → (release s w).audit_log ≡ w.audit_log
  release-log w = ground arith

  acquire-log : (w : World) → (acquire s w).audit_log ≡ w.audit_log
  acquire-log w = ground arith

  add_metric-log :
      (tool : Str) (w : World) → (add_metric rt s clock ctx tool w).audit_log ≡ w.audit_log
  add_metric-log tool w = ground arith

  finish-OnlyCaller :
      (p : Params) (tool : Tool) (w : World) (r : List Effect × Option Value)
      → OnlyCaller (caller_from ctx).name w
      → OnlyCaller (caller_from ctx).name (finish rt s clock ctx p tool w r).0
  unfolding finish entry
  finish-OnlyCaller p tool w (effects, none) h =
      rw (release-log (record w { effects = w.effects ++ effects })) h
  finish-OnlyCaller p tool w (effects, some v) h =
      rw (release-log (add_metric rt s clock ctx p.name (logged w))) (
        rw (add_metric-log p.name (logged w)) (
          All-append (λ (e : AuditEntry). e.caller ≡ (caller_from ctx).name) w.audit_log
            (new_entry ∷ []) h (refl, tt)))
    where
      new_entry : AuditEntry
      new_entry =
          entry clock.now p.name p.arguments clock.duration_ms v (tool_definition tool)
            (caller_from ctx).name

      logged : World → World
      logged w2 = record w2 {
        effects = w2.effects ++ effects;
        audit_log = w2.audit_log ++ (new_entry ∷ []);
      }

  call_tool-OnlyCaller :
      (p : Params) (o : Option Tool) (w : World)
      → OnlyCaller (caller_from ctx).name w
      → OnlyCaller (caller_from ctx).name (call_tool rt s clock decode acquired ctx p o w).0
  unfolding call_tool execute
  call_tool-OnlyCaller p none w h = h
  call_tool-OnlyCaller p (some tool) w h = elim (Bool-cases (not s.has_semaphore || acquired)) [
    | inl slot ↦ rw slot (
        finish-OnlyCaller p tool (acquire s w) (run_tool rt tool p.arguments)
          (rw (acquire-log w) h))
    | inr busy ↦ rw busy h
  ]

  handle_tool_call-OnlyCaller :
      (raw : Str) (w : World)
      → OnlyCaller (caller_from ctx).name w
      → OnlyCaller (caller_from ctx).name (handle_tool_call rt s clock decode acquired ctx raw w).0
  unfolding handle_tool_call
  handle_tool_call-OnlyCaller raw w h = by_params (decode raw)
    where
      by_params :
          (r : Result Params)
          → OnlyCaller (caller_from ctx).name (decoded_call rt s clock decode acquired ctx r w).0
      by_params (err e) = h
      by_params (ok p) = call_tool-OnlyCaller p (get_tool_by_name s.registry p.name) w h

  -- A request writes no caller into the log but the one of its context.
  pub process_request-OnlyCaller :
      (req : Request) (w : World)
      → OnlyCaller (caller_from ctx).name w
      → OnlyCaller (caller_from ctx).name (process_request rt s clock decode acquired ctx req w).0
  unfolding process_request
  process_request-OnlyCaller req w h = if_has logs (req.method == lit "initialize") h (
      if_has logs (req.method == lit "tools/list") h (
        if_has logs (req.method == lit "tools/call") (handle_tool_call-OnlyCaller req.params w h)
          (if_has logs (req.method == lit "ping") h h)))
    where
      logs : World × Response → Type 0
      logs r = OnlyCaller (caller_from ctx).name r.0
