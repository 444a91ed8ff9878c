-- ===== src/Server/Call.antt =====
-- HandleToolCall of internal/server/request.go.
use jig_mcp.Prelude.{
  ◌||◌, not, ℕ, ◌+◌, ◌-◌, Str, lit, Map, Option, none, some, List, [], ◌∷◌, ◌++◌, Bool,
  if◌then◌else◌,
}
use jig_mcp.Prelude.Result.{Result, ok, err}
use jig_mcp.Value.{Value}
use jig_mcp.Auth.Caller.{Context, caller_from}
use jig_mcp.Tools.Runtime.{Runtime}
use jig_mcp.Tools.Base.{error_result}
use jig_mcp.Tools.Registry.{Tool, Registry, Effect, get_tool_by_name, run_tool, tool_definition}
use jig_mcp.Audit.Entry.{AuditEntry, entry}

pub record Server : Type 0 where
  pub registry : Registry
  -- Semaphore is not nil
  pub has_semaphore : Bool
  pub semaphore_size : ℕ
  pub version : Str
  -- OnToolCall is not nil
  pub has_callback : Bool

-- The occupied slots, the audit entries, the calls of OnToolCall, and what the tools did outside.
pub record World : Type 0 where
  pub in_use : ℕ
  pub audit_log : List AuditEntry
  pub metrics : List (Str × ℕ)
  pub effects : List Effect

-- The formatted time of the entry and the duration in milliseconds.
pub record Clock : Type 0 where
  pub now : Str
  pub duration_ms : ℕ

pub record Params : Type 0 where
  pub name : Str
  pub arguments : Map Value

abbrev pub acquire : Server → World → World
acquire s w = if s.has_semaphore then record w { in_use = w.in_use + 1 } else w

abbrev pub release : Server → World → World
release s w = if s.has_semaphore then record w { in_use = w.in_use - 1 } else w

module _ (rt : Runtime) (s : Server) (clock : Clock) (ctx : Context) where
  abbrev pub add_metric : Str → World → World
  add_metric name w =
      if s.has_callback
      then record w { metrics = w.metrics ++ ((name, clock.duration_ms) ∷ []) }
      else w

  -- After Handle: a panic skips the audit entry and the callback; the deferred functions release the
  -- slot and then make the error result.
  unfoldable pub finish : Params → Tool → World → List Effect × Option Value → World × Value
  finish p tool w (effects, none) = (
    release s (record w { effects = w.effects ++ effects }),
    error_result (lit "internal error: tool " ++ (rt.quote p.name ++ lit " panicked")),
  )
  finish p tool w (effects, some result) =
      let e =
        entry clock.now p.name p.arguments clock.duration_ms result (tool_definition tool)
          (caller_from ctx).name in
      (
        release s (
            add_metric p.name
              (record w { effects = w.effects ++ effects; audit_log = w.audit_log ++ (e ∷ []) })),
        result,
      )

  unfoldable pub execute : Params → Tool → World → World × Value
  execute p tool w = finish p tool (acquire s w) (run_tool rt tool p.arguments)

  abbrev pub busy_text : Str
  busy_text =
      lit "server busy: all "
      ++ (rt.decimal s.semaphore_size ++ lit " tool execution slots are occupied, try again later")

-- `acquired` is the outcome of the select on the semaphore: a slot before the timeout, or not.
module _ (rt : Runtime) (s : Server) (clock : Clock) (decode : Str → Result Params)
    (acquired : Bool) (ctx : Context) where
  unfoldable pub call_tool : Params → Option Tool → World → World × Value
  call_tool p none w = (w, error_result (lit "unknown tool: " ++ p.name))
  call_tool p (some tool) w =
      if not s.has_semaphore || acquired
      then execute rt s clock ctx p tool w
      else (w, error_result (busy_text rt s clock ctx))

  abbrev pub decoded_call : Result Params → World → World × Value
  decoded_call (err e) w = (w, error_result (lit "invalid params: " ++ e))
  decoded_call (ok p) w = call_tool p (get_tool_by_name s.registry p.name) w

  unfoldable pub handle_tool_call : Str → World → World × Value
  handle_tool_call raw w = decoded_call (decode raw) w
