-- ===== src/Server/Calls/Alone.antt =====
-- What a call of HandleToolCall adds to the world, and what calls one after the other add.
use jig_mcp.Prelude.{
  Str, none, some, Option, List, [], ◌∷◌, ◌++◌, Bool, not, ◌||◌, ◌≡◌, refl, sym, append-nil, inl,
  inr, Bool-cases, arith,
}
use jig_mcp.Prelude.Result.{Result, ok, err}
use jig_mcp.Value.{Value}
use jig_mcp.Tools.Registry.{Tool, Effect, get_tool_by_name, run_tool}
use jig_mcp.Server.Call.{
  Server, World, Params, acquire, finish, execute, call_tool, decoded_call, handle_tool_call,
}
use jig_mcp.Server.Calls.{Asked, Call, returned}

abbrev pub idle_world : World
idle_world = record { in_use = 0; audit_log = []; metrics = []; effects = [] }

-- The world `u` is `w` with what `x` holds.
pub record Adds (w u x : World) : Type 0 where
  pub in_use : u.in_use ≡ w.in_use
  pub audit_log : u.audit_log ≡ w.audit_log ++ x.audit_log
  pub metrics : u.metrics ≡ w.metrics ++ x.metrics
  pub effects : u.effects ≡ w.effects ++ x.effects

abbrev nothing_added : (w : World) → Adds w w idle_world
nothing_added w = record {
  in_use = refl;
  audit_log = sym (append-nil w.audit_log);
  metrics = sym (append-nil w.metrics);
  effects = sym (append-nil w.effects);
}

module _ (s : Server) (decode : Str → Result Params) where
  abbrev pub alone : Asked → Bool → World → World × Value
  alone a acquired w = handle_tool_call a.rt s a.clock decode acquired a.ctx a.raw w

  -- What the call adds, whatever world it comes to.
  abbrev pub work : Asked → Bool → World
  work a acquired = (alone a acquired idle_world).0

  abbrev IsAddition : World → World × Value → World × Value → Type 0
  IsAddition w u x = Adds w u.0 x.0 × (u.1 ≡ x.1)

  finish_lem :
      (a : Asked) (p : Params) (tool : Tool) (w : World) (r : List Effect × Option Value)
      → IsAddition w
          (finish a.rt s a.clock a.ctx p tool (acquire s w) r)
          (finish a.rt s a.clock a.ctx p tool (acquire s idle_world) r)
  unfolding finish
  finish_lem a p tool w (effects, none) = (
    record {
      in_use = ground arith;
      audit_log = ground (arith, append-nil w.audit_log);
      metrics = ground (arith, append-nil w.metrics);
      effects = ground arith;
    },
    refl,
  )
  finish_lem a p tool w (effects, some v) = (
    record {
      in_use = ground arith;
      audit_log = ground arith;
      metrics = ground (arith, append-nil w.metrics);
      effects = ground arith;
    },
    refl,
  )

  pub alone_lem :
      (a : Asked) (acquired : Bool) (w : World)
      → IsAddition w (alone a acquired w) (alone a acquired idle_world)
  unfolding handle_tool_call call_tool execute
  alone_lem a acquired w = by_params (decode a.raw)
    where
      by_tool :
          (p : Params) (o : Option Tool)
          → IsAddition w
              (call_tool a.rt s a.clock decode acquired a.ctx p o w)
              (call_tool a.rt s a.clock decode acquired a.ctx p o idle_world)
      by_tool p none = (nothing_added w, refl)
      by_tool p (some tool) = elim (Bool-cases (not s.has_semaphore || acquired)) [
        | inl slot ↦ rw slot (finish_lem a p tool w (run_tool a.rt tool p.arguments))
        | inr busy ↦ rw busy (nothing_added w, refl)
      ]

      by_params :
          (r : Result Params)
          → IsAddition w
              (decoded_call a.rt s a.clock decode acquired a.ctx r w)
              (decoded_call a.rt s a.clock decode acquired a.ctx r idle_world)
      by_params (err e) = (nothing_added w, refl)
      by_params (ok p) = by_tool p (get_tool_by_name s.registry p.name)

  -- The returned calls one after the other, each as one step.
  abbrev pub one_by_one : List Call → World → World
  one_by_one [] w = w
  one_by_one (returned a acquired v ∷ cs) w = one_by_one cs (alone a acquired w).0
  one_by_one (_ ∷ cs) w = one_by_one cs w
