-- ===== src/Server/Laws.antt =====
-- What a tool call leaves behind on each of its paths, and the list of tools.
use jig_mcp.Prelude.{
  Str, lit, Option, none, some, List, [], ◌∷◌, ◌++◌, Bool, true, not, ◌||◌, ◌≡◌, inl, inr, refl,
  arith, Bool-cases,
}
use jig_mcp.Prelude.Result.{Result, ok, err}
use jig_mcp.Value.{Value}
use jig_mcp.Auth.Caller.{Context, caller_from}
use jig_mcp.Tools.Runtime.{Runtime}
use jig_mcp.Tools.Base.{error_result}
use jig_mcp.Tools.Registry.{Tool, Effect, get_tool_by_name, run_tool, tool_definition}
use jig_mcp.Audit.Entry.{entry}
use jig_mcp.Server.Call.{
  busy_text, Server, World, Clock, Params, acquire, finish, execute, call_tool, decoded_call,
  handle_tool_call,
}

module _ (rt : Runtime) (s : Server) (clock : Clock) (decode : Str → Result Params)
    (acquired : Bool) (ctx : Context) where
  -- The tool of a call and its parameters, if the call reaches a tool that it can run.
  pub record Runs (raw : Str) (p : Params) (tool : Tool) : Type 0 where
    pub decodes : decode raw ≡ ok p
    pub registered : get_tool_by_name s.registry p.name ≡ some tool
    pub has_slot : (not s.has_semaphore || acquired) ≡ true

  finish-in_use :
      (p : Params) (tool : Tool) (w : World) (r : List Effect × Option Value)
      → (finish rt s clock ctx p tool (acquire s w) r).0.in_use ≡ w.in_use
  unfolding finish
  finish-in_use p tool w (effects, none) = ground arith
  finish-in_use p tool w (effects, some v) = ground arith

  call_tool-in_use :
      (p : Params) (o : Option Tool) (w : World)
      → (call_tool rt s clock decode acquired ctx p o w).0.in_use ≡ w.in_use
  unfolding call_tool execute
  call_tool-in_use p none w = refl
  call_tool-in_use p (some tool) w = elim (Bool-cases (not s.has_semaphore || acquired)) [
    | inl slot ↦ rw slot (finish-in_use p tool w (run_tool rt tool p.arguments))
    | inr busy ↦ rw busy
  ]

  -- Whatever the request and the outcome, a panic of the handler included, the slot that a call takes is
  -- free again when it returns.
  pub handle_tool_call-in_use :
      (raw : Str) (w : World)
      → (handle_tool_call rt s clock decode acquired ctx raw w).0.in_use ≡ w.in_use
  unfolding handle_tool_call
  handle_tool_call-in_use raw w = by_params (decode raw)
    where
      by_params :
          (r : Result Params)
          → (decoded_call rt s clock decode acquired ctx r w).0.in_use ≡ w.in_use
      by_params (err e) = refl
      by_params (ok p) = call_tool-in_use p (get_tool_by_name s.registry p.name) w

  module _ {raw : Str} {p : Params} {tool : Tool} (h : Runs raw p tool) (w : World) where
    pub call_of_runs :
        handle_tool_call rt s clock decode acquired ctx raw w
        ≡ finish rt s clock ctx p tool (acquire s w) (run_tool rt tool p.arguments)
    unfolding handle_tool_call call_tool execute
    call_of_runs = rw h.decodes (rw h.registered (rw h.has_slot))

  -- A call whose tool is registered, that has a slot and whose handler returns: the client gets what the
  -- handler returned, and the log gets one entry, with the caller of the context, the redacted arguments and
  -- the status of this result; the effects of the tool are added to those of before.
  pub handle_tool_call-returns :
      (raw : Str) (p : Params) (tool : Tool) (w : World) (effects : List Effect) (v : Value)
      → Runs raw p tool
      → run_tool rt tool p.arguments ≡ (effects, some v)
      → ((handle_tool_call rt s clock decode acquired ctx raw w).1 ≡ v)
        × ((handle_tool_call rt s clock decode acquired ctx raw w).0.audit_log
            ≡ w.audit_log
              ++ (entry clock.now p.name p.arguments clock.duration_ms v
                    (tool_definition tool)
                    (caller_from ctx).name
                  ∷ []))
        × ((handle_tool_call rt s clock decode acquired ctx raw w).0.effects ≡ w.effects ++ effects)
  unfolding finish
  handle_tool_call-returns raw p tool w effects v h e =
      rw (call_of_runs h w) (rw e (refl, ground arith, ground arith))

  -- A call whose handler panics: the client gets an error that names the tool, what the tool did outside
  -- stays done, and neither the audit log nor the metrics show the call.
  pub handle_tool_call-panics :
      (raw : Str) (p : Params) (tool : Tool) (w : World) (effects : List Effect)
      → Runs raw p tool
      → run_tool rt tool p.arguments ≡ (effects, none)
      → ((handle_tool_call rt s clock decode acquired ctx raw w).1
          ≡ error_result (lit "internal error: tool " ++ (rt.quote p.name ++ lit " panicked")))
        × ((handle_tool_call rt s clock decode acquired ctx raw w).0.audit_log ≡ w.audit_log)
        × ((handle_tool_call rt s clock decode acquired ctx raw w).0.metrics ≡ w.metrics)
        × ((handle_tool_call rt s clock decode acquired ctx raw w).0.effects ≡ w.effects ++ effects)
  unfolding finish
  handle_tool_call-panics raw p tool w effects h e =
      rw (call_of_runs h w) (rw e (refl, ground arith, ground arith, ground arith))

  call_tool-refused :
      (raw : Str) (p : Params) (o : Option Tool) (w : World)
      → decode raw ≡ ok p
      → get_tool_by_name s.registry p.name ≡ o
      → ((q : Params) (tool : Tool) → ¬ Runs raw q tool)
      → (msg : Str) × (call_tool rt s clock decode acquired ctx p o w ≡ (w, error_result msg))
  unfolding call_tool
  call_tool-refused raw p none w d g h = (_, refl)
  call_tool-refused raw p (some tool) w d g h =
      elim (Bool-cases (not s.has_semaphore || acquired)) [
        | inl slot ↦ absurd (h p tool (record { decodes = d; registered = g; has_slot = slot }))
        | inr busy ↦ (busy_text rt s clock ctx, rw busy)
      ]

  -- A call that reaches no tool, because its parameters do not decode, its tool is not registered or no
  -- slot became free, changes nothing and returns an error.
  pub handle_tool_call-refused :
      (raw : Str) (w : World)
      → ((p : Params) (tool : Tool) → ¬ Runs raw p tool)
      → (msg : Str) × (handle_tool_call rt s clock decode acquired ctx raw w
          ≡ (w, error_result msg))
  unfolding handle_tool_call
  handle_tool_call-refused raw w h = by_params (decode raw) refl
    where
      by_params :
          (r : Result Params)
          → decode raw ≡ r
          → (msg : Str) × (decoded_call rt s clock decode acquired ctx r w ≡ (w, error_result msg))
      by_params (err e) d = (_, refl)
      by_params (ok p) d = call_tool-refused raw p (get_tool_by_name s.registry p.name) w d refl h
