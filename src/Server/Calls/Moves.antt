-- ===== src/Server/Calls/Moves.antt =====
-- What each step of a call changes, after its guards.
use jig_mcp.Prelude.{
  ◌+◌, ◌≤◌, Str, lit, some, none, Option, [], ◌∷◌, ◌++◌, true, false, ◌≡◌, ◌∙◌, refl, sym, ap,
  append-nil, if_split, arith,
}
use jig_mcp.Prelude.Result.{Result, ok, err}
use jig_mcp.Value.{Value}
use jig_mcp.Tools.Base.{error_result}
use jig_mcp.Tools.Registry.{Tool, get_tool_by_name, run_tool}
use jig_mcp.Server.Call.{
  Server, World, Params, acquire, release, add_metric, busy_text, call_tool, decoded_call,
  handle_tool_call,
}
use jig_mcp.Server.Calls.{
  Asked, Call, entered, selecting, holding, handled, recorded, leaving, returned, with_tool,
  with_params, after_handle, entry_of,
}
use jig_mcp.Server.Calls.Alone.{idle_world, alone}
use jig_mcp.Server.Calls.Ledger.{
  still, Moves, Found, Returns, Returns-Work, Found-panics, Right, logged, counted, caused, slots,
}

module _ (s : Server) (decode : Str → Result Params) where
  -- A call that holds nothing yet.
  record Fresh (c : Call) : Type 0 where
    no_log : logged s decode c ≡ []
    no_count : counted s decode c ≡ []
    no_cause : caused s decode c ≡ []
    no_slot : slots s decode c ≡ 0

  record Same (x y : World) : Type 0 where
    log_same : y.audit_log ≡ x.audit_log
    metrics_same : y.metrics ≡ x.metrics
    effects_same : y.effects ≡ x.effects

  -- A step that changes at most the slots.
  quiet-Moves :
      (c d : Call) (x y : World)
      → logged s decode d ≡ logged s decode c
      → counted s decode d ≡ counted s decode c
      → caused s decode d ≡ caused s decode c
      → Same x y
      → y.in_use + slots s decode c ≡ x.in_use + slots s decode d
      → Right s decode d
      → Moves s decode c d x y
  quiet-Moves c d x y l m e same takes right = record {
    logs = still (logged s decode) c d x.audit_log y.audit_log l same.log_same;
    counts = still (counted s decode) c d x.metrics y.metrics m same.metrics_same;
    causes = still (caused s decode) c d x.effects y.effects e same.effects_same;
    takes = takes;
    right = right;
  }

  refused-Moves :
      (c : Call) (a : Asked) (v : Value) (x : World)
      → Fresh c
      → alone s decode a false idle_world ≡ (idle_world, v)
      → Moves s decode c (returned a false v) x x
  refused-Moves c a v x h e = record {
    logs =
        still (logged s decode) c (returned a false v) x.audit_log x.audit_log
          (ap (λ (u : World × Value). u.0.audit_log) e ∙ sym h.no_log) refl;
    counts =
        still (counted s decode) c (returned a false v) x.metrics x.metrics
          (ap (λ (u : World × Value). u.0.metrics) e ∙ sym h.no_count) refl;
    causes =
        still (caused s decode) c (returned a false v) x.effects x.effects
          (ap (λ (u : World × Value). u.0.effects) e ∙ sym h.no_cause) refl;
    takes = omega (arith, h.no_slot);
    right = ap (λ (u : World × Value). u.1) e;
  }

  -- The step from `entered`.
  pub look_up-Moves :
      (a : Asked) (x : World) (r : Result Params)
      → decode a.raw ≡ r
      → Moves s decode (entered a) (with_params s decode a r) x x
  unfolding handle_tool_call call_tool
  look_up-Moves a x (err e) d =
      refused-Moves (entered a) a (error_result (lit "invalid params: " ++ e)) x
        (record { no_log = refl; no_count = refl; no_cause = refl; no_slot = refl })
        (ap (λ r. decoded_call a.rt s a.clock decode false a.ctx r idle_world) d)
  look_up-Moves a x (ok p) d = by_tool (get_tool_by_name s.registry p.name) refl
    where
      unknown :
          get_tool_by_name s.registry p.name ≡ none
          → alone s decode a false idle_world
            ≡ (idle_world, error_result (lit "unknown tool: " ++ p.name))
      unknown g =
          ap (λ r. decoded_call a.rt s a.clock decode false a.ctx r idle_world) d
          ∙ ap (λ o. call_tool a.rt s a.clock decode false a.ctx p o idle_world) g

      by_tool :
          (o : Option Tool)
          → get_tool_by_name s.registry p.name ≡ o
          → Moves s decode (entered a) (with_tool s decode a p o) x x
      by_tool none g =
          refused-Moves (entered a) a (error_result (lit "unknown tool: " ++ p.name)) x
            (record { no_log = refl; no_count = refl; no_cause = refl; no_slot = refl }) (unknown g)
      by_tool (some tool) g =
          if_split (λ c. Moves s decode (entered a) c x x) s.has_semaphore
            (λ limited.
              quiet-Moves (entered a) (selecting a p tool) x x refl refl refl
                (record { log_same = refl; metrics_same = refl; effects_same = refl }) refl
                (record { decodes = d; registered = g }, limited))
            (λ unlimited.
              quiet-Moves (entered a) (holding a p tool) x x refl refl refl
                (record { log_same = refl; metrics_same = refl; effects_same = refl })
                (ground (arith, unlimited)) (record { decodes = d; registered = g }))

  pub take_slot-Moves :
      (a : Asked) (p : Params) (tool : Tool) (x : World)
      → Right s decode (selecting a p tool)
      → Moves s decode (selecting a p tool) (holding a p tool) x (acquire s x)
  take_slot-Moves a p tool x (found, limited) =
      quiet-Moves (selecting a p tool) (holding a p tool) x (acquire s x) refl refl refl
        (record {
          log_same = ground arith;
          metrics_same = ground arith;
          effects_same = ground arith;
        })
        (ground (arith, limited)) found

  pub time_out-Moves :
      (a : Asked) (p : Params) (tool : Tool) (x : World)
      → Right s decode (selecting a p tool)
      → Moves s decode
          (selecting a p tool)
          (returned a false (error_result (busy_text a.rt s a.clock a.ctx)))
          x
          x
  unfolding handle_tool_call call_tool
  time_out-Moves a p tool x (found, limited) =
      refused-Moves (selecting a p tool) a (error_result (busy_text a.rt s a.clock a.ctx)) x
        (record { no_log = refl; no_count = refl; no_cause = refl; no_slot = refl })
        (ap (λ r. decoded_call a.rt s a.clock decode false a.ctx r idle_world) found.decodes
          ∙ ap (λ o. call_tool a.rt s a.clock decode false a.ctx p o idle_world) found.registered
          ∙ rw limited refl)

  pub handle-Moves :
      (a : Asked) (p : Params) (tool : Tool) (x : World) (o : Option Value)
      → (run_tool a.rt tool p.arguments).1 ≡ o
      → Found s decode a p tool
      → Moves s decode
          (holding a p tool)
          (after_handle s decode a p tool o)
          x
          (record x { effects = x.effects ++ (run_tool a.rt tool p.arguments).0 })
  handle-Moves a p tool x none e found =
      let (value, log_of, metrics_of, effects_of) = Found-panics s decode a p tool found e in
      let d = after_handle s decode a p tool none in
      record {
        logs = still (logged s decode) (holding a p tool) d x.audit_log x.audit_log log_of refl;
        counts = still (counted s decode) (holding a p tool) d x.metrics x.metrics metrics_of refl;
        causes = record {
          more = (run_tool a.rt tool p.arguments).0;
          grown = refl;
          kept = effects_of;
        };
        takes = refl;
        right = value;
      }
  handle-Moves a p tool x (some v) e found =
      let returns : Returns s decode a p tool v = record { found = found; result = e } in
      let done = Returns-Work s decode a p tool v returns in
      record {
        logs =
            still (logged s decode) (holding a p tool) (handled a p tool v) x.audit_log x.audit_log
              refl refl;
        counts =
            still (counted s decode) (holding a p tool) (handled a p tool v) x.metrics x.metrics
              refl refl;
        causes = record {
          more = (run_tool a.rt tool p.arguments).0;
          grown = refl;
          kept = done.effects_of;
        };
        takes = refl;
        right = returns;
      }

  pub log-Moves :
      (a : Asked) (p : Params) (tool : Tool) (v : Value) (x : World)
      → Returns s decode a p tool v
      → Moves s decode
          (handled a p tool v)
          (recorded a p tool v)
          x
          (record x { audit_log = x.audit_log ++ (entry_of s decode a p tool v ∷ []) })
  log-Moves a p tool v x returns =
      let done = Returns-Work s decode a p tool v returns in
      record {
        logs = record {
          more = entry_of s decode a p tool v ∷ [];
          grown = refl;
          kept = done.log_of;
        };
        counts =
            still (counted s decode) (handled a p tool v) (recorded a p tool v) x.metrics x.metrics
              refl refl;
        causes =
            still (caused s decode) (handled a p tool v) (recorded a p tool v) x.effects x.effects
              refl refl;
        takes = refl;
        right = returns;
      }

  pub count-Moves :
      (a : Asked) (p : Params) (tool : Tool) (v : Value) (x : World)
      → Returns s decode a p tool v
      → Moves s decode
          (recorded a p tool v)
          (leaving a v)
          x
          (add_metric a.rt s a.clock a.ctx p.name x)
  count-Moves a p tool v x returns =
      let done = Returns-Work s decode a p tool v returns in
      let y = add_metric a.rt s a.clock a.ctx p.name x in
      record {
        logs =
            still (logged s decode) (recorded a p tool v) (leaving a v) x.audit_log y.audit_log refl
              (ground arith);
        counts = record {
          more = (add_metric a.rt s a.clock a.ctx p.name idle_world).metrics;
          grown = ground (arith, append-nil x.metrics);
          kept = done.metrics_of;
        };
        causes =
            still (caused s decode) (recorded a p tool v) (leaving a v) x.effects y.effects refl
              (ground arith);
        takes = ground arith;
        right = done.value_of;
      }

  pub give_back-Moves :
      (a : Asked) (v : Value) (x : World)
      → slots s decode (leaving a v) ≤ x.in_use
      → Right s decode (leaving a v)
      → Moves s decode (leaving a v) (returned a true v) x (release s x)
  give_back-Moves a v x held right =
      quiet-Moves (leaving a v) (returned a true v) x (release s x) refl refl refl
        (record {
          log_same = ground arith;
          metrics_same = ground arith;
          effects_same = ground arith;
        })
        (ground (arith, held)) right
