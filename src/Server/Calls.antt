-- ===== src/Server/Calls.antt =====
-- HandleToolCall of internal/server/request.go called by any number of goroutines: each call goes through
-- its steps, in any interleaving with those of the others. The semaphore, the audit log and the counters are
-- shared. What a tool does outside is one step.
pub mod Alone
pub mod Ledger
pub mod Moves
pub mod Pool
pub mod Serial
mod Tests
use jig_mcp.Prelude.{
  ℕ, ◌<◌, Str, lit, Option, none, some, List, [], ◌∷◌, ◌++◌, Bool, true, false, not, ◌||◌,
  if◌then◌else◌, ◌≡◌, Run,
}
use jig_mcp.Prelude.Result.{Result, ok, err}
use jig_mcp.Value.{Value}
use jig_mcp.Auth.Caller.{Context, caller_from}
use jig_mcp.Tools.Runtime.{Runtime}
use jig_mcp.Tools.Base.{error_result}
use jig_mcp.Tools.Registry.{Tool, Effect, get_tool_by_name, run_tool, tool_definition}
use jig_mcp.Audit.Entry.{AuditEntry, entry}
use jig_mcp.Server.Call.{Server, World, Clock, Params, acquire, release, add_metric, busy_text}

-- What a goroutine calls HandleToolCall with, the clock of its call, and what the outside answers to this
-- call: two calls that run the same command can get different answers.
pub record Asked : Type 1 where
  pub rt : Runtime
  pub ctx : Context
  pub raw : Str
  pub clock : Clock

-- A call before the parameters are decoded, in the select, with a slot, after Handle, after audit.Record, in
-- the deferred functions, or returned: whether it had a slot, and its result.
pub data Call : Type 1 where
  entered : Asked → Call
  selecting holding : Asked → Params → Tool → Call
  handled recorded : Asked → Params → Tool → Value → Call
  leaving : Asked → Value → Call
  returned : Asked → Bool → Value → Call

pub record Calls : Type 1 where
  pub world : World
  pub calls : List Call

module _ (s : Server) (decode : Str → Result Params) where
  abbrev pub with_tool : Asked → Params → Option Tool → Call
  with_tool a p none = returned a false (error_result (lit "unknown tool: " ++ p.name))
  with_tool a p (some tool) = if s.has_semaphore then selecting a p tool else holding a p tool

  abbrev pub with_params : Asked → Result Params → Call
  with_params a (err e) = returned a false (error_result (lit "invalid params: " ++ e))
  with_params a (ok p) = with_tool a p (get_tool_by_name s.registry p.name)

  -- A panic goes to the deferred functions at once.
  abbrev pub after_handle : Asked → Params → Tool → Option Value → Call
  after_handle a p tool none =
      leaving a
        (error_result (lit "internal error: tool " ++ (a.rt.quote p.name ++ lit " panicked")))
  after_handle a p tool (some v) = handled a p tool v

  abbrev pub entry_of : Asked → Params → Tool → Value → AuditEntry
  entry_of a p tool v =
      entry a.clock.now p.name p.arguments a.clock.duration_ms v (tool_definition tool)
        (caller_from a.ctx).name

  pub data Step (t : Calls) : Calls → Type 1 where
    enter : (a : Asked) → Step t (record t { calls = t.calls ++ (entered a ∷ []) })
    look_up :
        (before after : List Call) (a : Asked)
        → t.calls ≡ before ++ (entered a ∷ after)
        → Step t (record t { calls = before ++ (with_params a (decode a.raw) ∷ after) })
    take_slot :
        (before after : List Call) (a : Asked) (p : Params) (tool : Tool)
        → t.calls ≡ before ++ (selecting a p tool ∷ after)
        → t.world.in_use < s.semaphore_size
        → Step t
            (record { world = acquire s t.world; calls = before ++ (holding a p tool ∷ after) })
    time_out :
        (before after : List Call) (a : Asked) (p : Params) (tool : Tool)
        → t.calls ≡ before ++ (selecting a p tool ∷ after)
        → Step t (record t {
          calls =
              before ++ (returned a false (error_result (busy_text a.rt s a.clock a.ctx)) ∷ after);
        })
    handle :
        (before after : List Call) (a : Asked) (p : Params) (tool : Tool)
        → t.calls ≡ before ++ (holding a p tool ∷ after)
        → Step t (record {
          world = record t.world {
            effects = t.world.effects ++ (run_tool a.rt tool p.arguments).0;
          };
          calls = before ++ (after_handle a p tool (run_tool a.rt tool p.arguments).1 ∷ after);
        })
    log :
        (before after : List Call) (a : Asked) (p : Params) (tool : Tool) (v : Value)
        → t.calls ≡ before ++ (handled a p tool v ∷ after)
        → Step t (record {
          world = record t.world { audit_log = t.world.audit_log ++ (entry_of a p tool v ∷ []) };
          calls = before ++ (recorded a p tool v ∷ after);
        })
    count :
        (before after : List Call) (a : Asked) (p : Params) (tool : Tool) (v : Value)
        → t.calls ≡ before ++ (recorded a p tool v ∷ after)
        → Step t (record {
          world = add_metric a.rt s a.clock a.ctx p.name t.world;
          calls = before ++ (leaving a v ∷ after);
        })
    give_back :
        (before after : List Call) (a : Asked) (v : Value)
        → t.calls ≡ before ++ (leaving a v ∷ after)
        → Step t
            (record { world = release s t.world; calls = before ++ (returned a true v ∷ after) })

  abbrev pub Reach : Calls → Calls → Type 1
  Reach = Run Step

abbrev pub no_calls : World → Calls
no_calls w = record { world = w; calls = [] }
