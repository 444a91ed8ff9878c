-- ===== src/Server/Calls/Serial.antt =====
-- Calls in any interleaving, and the same calls one after the other.
use mathlib.Core.List.{Perm}
use mathlib.Core.List.Perm
use jig_mcp.Prelude.{
  ℕ, Str, List, [], ◌∷◌, ◌++◌, Bool, false, true, ◌≡◌, ◌∙◌, refl, sym, ap, subst, append_assoc,
  append-nil, gather, gather-snoc, All, All-append, sum_by, sum_by-snoc, run_keeps, arith,
}
use jig_mcp.Prelude.Result.{Result}
use jig_mcp.Value.{Value}
use jig_mcp.Tools.Registry.{Effect, run_tool}
use jig_mcp.Audit.Entry.{AuditEntry}
use jig_mcp.Server.Call.{Server, World, Params, acquire, release, add_metric, busy_text}
use jig_mcp.Tools.Base.{error_result}
use jig_mcp.Server.Calls.{
  Asked, Call, entered, selecting, holding, handled, recorded, leaving, returned, Calls,
  with_params, after_handle, entry_of, Step, enter, look_up, take_slot, time_out, handle, log,
  count, give_back, Reach, no_calls,
}
use jig_mcp.Server.Calls.Alone.{Adds, alone, work, alone_lem, one_by_one}
use jig_mcp.Server.Calls.Ledger.{Moves-Inv, Inv, Right, logged, counted, caused, slots}
use jig_mcp.Server.Calls.Moves.{
  look_up-Moves, take_slot-Moves, time_out-Moves, handle-Moves, log-Moves, count-Moves,
  give_back-Moves,
}

pub data IsReturned : Call → Type 1 where
  is_returned : (a : Asked) (acquired : Bool) (v : Value) → IsReturned (returned a acquired v)

-- The same slots in use, and the same entries, counts and effects, in any order.
pub record SameWork (u x : World) : Type 0 where
  pub in_use : u.in_use ≡ x.in_use
  pub audit_log : Perm u.audit_log x.audit_log
  pub metrics : Perm u.metrics x.metrics
  pub effects : Perm u.effects x.effects

module _ (s : Server) (decode : Str → Result Params) where
  -- The result is that of the call alone, in whatever world.
  abbrev pub HasResult : Call → Type 0
  HasResult (returned a acquired v) = (w : World) → (alone s decode a acquired w).1 ≡ v
  HasResult _ = Unit

  no_calls-Inv : (w : World) → Inv s decode w (no_calls w)
  unfolding gather sum_by
  no_calls-Inv w = record {
    logs = subst (Perm w.audit_log) (sym (append-nil w.audit_log)) (Perm.refl w.audit_log);
    counts = subst (Perm w.metrics) (sym (append-nil w.metrics)) (Perm.refl w.metrics);
    causes = subst (Perm w.effects) (sym (append-nil w.effects)) (Perm.refl w.effects);
    in_use = omega arith;
    right = tt;
  }

  enter-Inv :
      (w : World) (t : Calls) (a : Asked)
      → Inv s decode w t
      → Inv s decode w (record t { calls = t.calls ++ (entered a ∷ []) })
  enter-Inv w t a v = record {
    logs =
        subst (λ ls. Perm t.world.audit_log (w.audit_log ++ ls))
          (sym (gather-snoc (logged s decode) t.calls (entered a) refl)) v.logs;
    counts =
        subst (λ ms. Perm t.world.metrics (w.metrics ++ ms))
          (sym (gather-snoc (counted s decode) t.calls (entered a) refl)) v.counts;
    causes =
        subst (λ es. Perm t.world.effects (w.effects ++ es))
          (sym (gather-snoc (caused s decode) t.calls (entered a) refl)) v.causes;
    in_use = omega (arith, v.in_use, sum_by-snoc (slots s decode) t.calls (entered a));
    right = All-append (Right s decode) t.calls (entered a ∷ []) v.right (tt, tt);
  }

  Step-Inv : (w : World) {t u : Calls} → Step s decode t u → Inv s decode w t → Inv s decode w u
  Step-Inv w {t} (enter a) v = enter-Inv w t a v
  Step-Inv w {t} (look_up before after a e) v =
      Moves-Inv s decode w t.world t before after (entered a)
        (with_params s decode a (decode a.raw)) e v
        (λ right held. look_up-Moves s decode a t.world (decode a.raw) refl)
  Step-Inv w {t} (take_slot before after a p tool e room) v =
      Moves-Inv s decode w (acquire s t.world) t before after (selecting a p tool)
        (holding a p tool) e v (λ right held. take_slot-Moves s decode a p tool t.world right)
  Step-Inv w {t} (time_out before after a p tool e) v =
      Moves-Inv s decode w t.world t before after (selecting a p tool)
        (returned a false (error_result (busy_text a.rt s a.clock a.ctx))) e v
        (λ right held. time_out-Moves s decode a p tool t.world right)
  Step-Inv w {t} (handle before after a p tool e) v =
      let (effects, o) = run_tool a.rt tool p.arguments in
      Moves-Inv s decode w (record t.world { effects = t.world.effects ++ effects }) t before after
        (holding a p tool) (after_handle s decode a p tool o) e v
        (λ right held. handle-Moves s decode a p tool t.world o refl right)
  Step-Inv w {t} (log before after a p tool v e) i =
      Moves-Inv s decode w
        (record t.world { audit_log = t.world.audit_log ++ (entry_of s decode a p tool v ∷ []) }) t
        before after (handled a p tool v) (recorded a p tool v) e i
        (λ right held. log-Moves s decode a p tool v t.world right)
  Step-Inv w {t} (count before after a p tool v e) i =
      Moves-Inv s decode w (add_metric a.rt s a.clock a.ctx p.name t.world) t before after
        (recorded a p tool v) (leaving a v) e i
        (λ right held. count-Moves s decode a p tool v t.world right)
  Step-Inv w {t} (give_back before after a v e) i =
      Moves-Inv s decode w (release s t.world) t before after (leaving a v) (returned a true v) e i
        (λ right held. give_back-Moves s decode a v t.world held right)

  -- What returned calls add when they come one after the other.
  one_by_one-Adds :
      (cs : List Call) (w : World)
      → All IsReturned cs
      → Adds w (one_by_one s decode cs w) (record {
        in_use = 0;
        audit_log = gather (logged s decode) cs;
        metrics = gather (counted s decode) cs;
        effects = gather (caused s decode) cs;
      })
  unfolding gather
  one_by_one-Adds [] w h = record {
    in_use = refl;
    audit_log = sym (append-nil w.audit_log);
    metrics = sym (append-nil w.metrics);
    effects = sym (append-nil w.effects);
  }
  one_by_one-Adds (c ∷ cs) w (is_returned a acquired v, hs) =
      let first = (alone_lem s decode a acquired w).0 in
      let x = work s decode a acquired in
      let rest = one_by_one-Adds cs (alone s decode a acquired w).0 hs in
      record {
        in_use = rest.in_use ∙ first.in_use;
        audit_log =
            rest.audit_log
            ∙ ap (λ (ls : List AuditEntry). ls ++ gather (logged s decode) cs) first.audit_log
            ∙ append_assoc w.audit_log x.audit_log (gather (logged s decode) cs);
        metrics =
            rest.metrics
            ∙ ap (λ (ms : List (Str × ℕ)). ms ++ gather (counted s decode) cs) first.metrics
            ∙ append_assoc w.metrics x.metrics (gather (counted s decode) cs);
        effects =
            rest.effects
            ∙ ap (λ (es : List Effect). es ++ gather (caused s decode) cs) first.effects
            ∙ append_assoc w.effects x.effects (gather (caused s decode) cs);
      }

  no_slots : (cs : List Call) → All IsReturned cs → sum_by (slots s decode) cs ≡ 0
  unfolding sum_by
  no_slots [] h = refl
  no_slots (c ∷ cs) (is_returned a acquired v, hs) = omega (arith, no_slots cs hs)

  all-HasResult : (cs : List Call) → All IsReturned cs → All (Right s decode) cs → All HasResult cs
  all-HasResult [] h r = tt
  all-HasResult (c ∷ cs) (is_returned a acquired v, hs) (r, rs) =
      ((λ w. (alone_lem s decode a acquired w).1 ∙ r), all-HasResult cs hs rs)

  -- However many calls of HandleToolCall interleave, once all have returned: each has the result that it has
  -- alone, with what the outside answers it and with a slot if it got one, and the audit log, the counted calls and the effects are, up to their
  -- order, those of the calls one after the other, each as one step; and as many slots are in use as before.
  pub calls_serialize :
      (w : World) {t : Calls}
      → Reach s decode (no_calls w) t
      → All IsReturned t.calls
      → SameWork t.world (one_by_one s decode t.calls w) × All HasResult t.calls
  calls_serialize w {t} r h =
      let v = run_keeps (Inv s decode w) (λ x y st k. Step-Inv w st k) r (no_calls-Inv w) in
      let u = one_by_one-Adds t.calls w h in
      (
        record {
          in_use = omega (arith, v.in_use, no_slots t.calls h, u.in_use);
          audit_log = subst (Perm t.world.audit_log) (sym u.audit_log) v.logs;
          metrics = subst (Perm t.world.metrics) (sym u.metrics) v.counts;
          effects = subst (Perm t.world.effects) (sym u.effects) v.causes;
        },
        all-HasResult t.calls h v.right,
      )
