-- ===== src/Server/Calls/Pool.antt =====
-- Tool calls as calls that wait for a slot, run and give it back.
use jig_mcp.Prelude.{
  ◌-◌, ◌+◌, ℕ, ◌≤◌, Str, some, none, Option, List, [], ◌∷◌, ◌++◌, true, map, ◌≡◌, ◌∙◌, ◌⊎◌, inl,
  inr, refl, sym, ap, subst, here, next, Run-append, run_keeps, arith,
}
use jig_mcp.Prelude.Result.{Result, ok, err}
use jig_mcp.Tools.Registry.{Tool, get_tool_by_name, run_tool}
use jig_mcp.Server.Call.{Server, World, Params}
use jig_mcp.Server.Slots.{Phase, waiting, running, done, Pool, empty_pool, slots_bounded}
use jig_mcp.Server.Slots
use jig_mcp.Server.Calls.{
  Value, Asked, Call, entered, selecting, holding, handled, recorded, leaving, returned, Calls,
  with_tool, with_params, after_handle, Step, enter, look_up, take_slot, time_out, handle, log,
  count, give_back, Reach, no_calls,
}

abbrev pub phase : Call → Phase
phase (entered a) = waiting
phase (selecting a p tool) = waiting
phase (holding a p tool) = running
phase (handled a p tool v) = running
phase (recorded a p tool v) = running
phase (leaving a v) = running
phase (returned a acquired v) = done

abbrev pub pool : ℕ → ℕ → List Call → Pool
pool capacity in_use calls = record {
  capacity = capacity;
  in_use = in_use;
  calls = map phase calls;
}

map-append : (xs ys : List Call) → map phase (xs ++ ys) ≡ map phase xs ++ map phase ys
map-append [] ys = refl
map-append (x ∷ xs) ys = ap (λ (ps : List Phase). phase x ∷ ps) (map-append xs ys)

-- A step of the pool that puts the call in the middle into the phase `q`.
step_to :
    (m n k : ℕ) (cs before after : List Call) (c d : Call) (q : Phase)
    → cs ≡ before ++ (c ∷ after)
    → phase d ≡ q
    → (map phase cs ≡ map phase before ++ (phase c ∷ map phase after)
        → Slots.Step (pool m n cs) (record {
          capacity = m;
          in_use = k;
          calls = map phase before ++ (q ∷ map phase after);
        }))
    → Slots.Reach (pool m n cs) (pool m k (before ++ (d ∷ after)))
step_to m n k cs before after c d q e f st =
    subst
      (λ (ps : List Phase).
        Slots.Reach (pool m n cs) (record { capacity = m; in_use = k; calls = ps }))
      (ap (λ (p : Phase). map phase before ++ (p ∷ map phase after)) (sym f)
        ∙ sym (map-append before (d ∷ after)))
      (next here (st (ap (map phase) e ∙ map-append before (c ∷ after))))

-- A step that the pool does not see.
no_step :
    (m n k : ℕ) (cs before after : List Call) (c d : Call)
    → cs ≡ before ++ (c ∷ after)
    → phase d ≡ phase c
    → k ≡ n
    → Slots.Reach (pool m n cs) (pool m k (before ++ (d ∷ after)))
no_step m n k cs before after c d e f g =
    subst (λ (i : ℕ). Slots.Reach (pool m n cs) (pool m i (before ++ (d ∷ after)))) (sym g)
      (subst
        (λ (ps : List Phase).
          Slots.Reach (pool m n cs) (record { capacity = m; in_use = n; calls = ps }))
        (ap (map phase) e
          ∙ map-append before (c ∷ after)
          ∙ ap (λ (p : Phase). map phase before ++ (p ∷ map phase after)) (sym f)
          ∙ sym (map-append before (d ∷ after)))
        here)

module _ (s : Server) (decode : Str → Result Params) (limited : s.has_semaphore ≡ true) where
  -- The pool of the calls, over the semaphore of the server.
  abbrev pub pool_of : Calls → Pool
  pool_of t = pool s.semaphore_size t.world.in_use t.calls

  with_params-phase :
      (a : Asked) (r : Result Params)
      → (phase (with_params s decode a r) ≡ waiting) ⊎ (phase (with_params s decode a r) ≡ done)
  with_params-phase a (err e) = inr refl
  with_params-phase a (ok p) = by_tool (get_tool_by_name s.registry p.name)
    where
      by_tool :
          (o : Option Tool)
          → (phase (with_tool s decode a p o) ≡ waiting) ⊎ (phase (with_tool s decode a p o) ≡ done)
      by_tool none = inr refl
      by_tool (some tool) = rw limited (inl refl)

  after_handle-phase :
      (a : Asked) (p : Params) (tool : Tool) (o : Option Value)
      → phase (after_handle s decode a p tool o) ≡ running
  after_handle-phase a p tool none = refl
  after_handle-phase a p tool (some v) = refl

  Step-Reach : {t u : Calls} → Step s decode t u → Slots.Reach (pool_of t) (pool_of u)
  Step-Reach {t} (enter a) =
      subst
        (λ (ps : List Phase).
          Slots.Reach (pool_of t)
            (record { capacity = s.semaphore_size; in_use = t.world.in_use; calls = ps }))
        (sym (map-append t.calls (entered a ∷ []))) (next here Slots.arrive)
  Step-Reach {t} (look_up before after a e) =
      let d = with_params s decode a (decode a.raw) in
      elim (with_params-phase a (decode a.raw)) [
        | inl waits ↦
            no_step s.semaphore_size t.world.in_use t.world.in_use t.calls before after (entered a)
              d e waits refl
        | inr ends ↦
            step_to s.semaphore_size t.world.in_use t.world.in_use t.calls before after (entered a)
              d done e ends (Slots.time_out (map phase before) (map phase after))
      ]
  Step-Reach {t} (take_slot before after a p tool e room) = rw limited (
      step_to s.semaphore_size t.world.in_use (t.world.in_use + 1) t.calls before after
        (selecting a p tool) (holding a p tool) running e refl
        (λ f. Slots.acquire (map phase before) (map phase after) f room))
  Step-Reach {t} (time_out before after a p tool e) =
      step_to s.semaphore_size t.world.in_use t.world.in_use t.calls before after
        (selecting a p tool) _ done e refl (Slots.time_out (map phase before) (map phase after))
  Step-Reach {t} (handle before after a p tool e) =
      no_step s.semaphore_size t.world.in_use t.world.in_use t.calls before after (holding a p tool)
        (after_handle s decode a p tool (run_tool a.rt tool p.arguments).1) e
        (after_handle-phase a p tool (run_tool a.rt tool p.arguments).1) refl
  Step-Reach {t} (log before after a p tool v e) =
      no_step s.semaphore_size t.world.in_use t.world.in_use t.calls before after
        (handled a p tool v) (recorded a p tool v) e refl refl
  Step-Reach {t} (count before after a p tool v e) =
      no_step s.semaphore_size t.world.in_use _ t.calls before after (recorded a p tool v)
        (leaving a v) e refl (ground arith)
  Step-Reach {t} (give_back before after a v e) = rw limited (
      step_to s.semaphore_size t.world.in_use (t.world.in_use - 1) t.calls before after
        (leaving a v) (returned a true v) done e refl
        (Slots.release (map phase before) (map phase after)))

  -- With a semaphore, and from a world where no slot is in use: every run of tool calls is a run of the pool
  -- of slots, with the panics, the rejections and the time-outs; so the slots in use are never more than the
  -- configured number.
  pub pool_of-Reach :
      (w : World) {t : Calls}
      → w.in_use ≡ 0
      → Reach s decode (no_calls w) t
      → Slots.Reach (empty_pool s.semaphore_size) (pool_of t) × (t.world.in_use ≤ s.semaphore_size)
  pool_of-Reach w {t} zero_in_use r =
      let runs =
        run_keeps (λ u. Slots.Reach (empty_pool s.semaphore_size) (pool_of u))
          (λ x y st q. Run-append q (Step-Reach st)) r start in
      let (same, few) = slots_bounded s.semaphore_size runs in (runs, omega (arith, same, few))
    where
      start : Slots.Reach (empty_pool s.semaphore_size) (pool_of (no_calls w))
      start =
          subst (λ (i : ℕ). Slots.Reach (empty_pool s.semaphore_size) (pool s.semaphore_size i []))
            (sym zero_in_use) here
