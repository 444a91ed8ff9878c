-- ===== src/Server/Calls/Ledger.antt =====
-- What calls in any interleaving have added to the world so far, and what one step of a call changes.
use mathlib.Core.List.{Perm}
use mathlib.Core.List.Perm
use jig_mcp.Prelude.{
  ℕ, ◌+◌, ◌≤◌, Str, some, none, List, [], ◌∷◌, ◌++◌, true, if◌then◌else◌, ◌≡◌, ◌∙◌, sym, ap, subst,
  append_assoc, append-nil, gather, gather-grows, All, All-take_out, All-put_in, sum_by,
  sum_by-middle, arith,
}
use jig_mcp.Prelude.Result.{Result, ok}
use jig_mcp.Value.{Value}
use jig_mcp.Tools.Registry.{Tool, Effect, get_tool_by_name, run_tool}
use jig_mcp.Audit.Entry.{AuditEntry}
use jig_mcp.Server.Call.{World, Server, Params, finish, acquire, add_metric}
use jig_mcp.Server.Laws.{call_of_runs}
use jig_mcp.Server.Calls.{
  Calls, after_handle, Asked, Call, entered, selecting, holding, handled, recorded, leaving,
  returned, entry_of,
}
use jig_mcp.Server.Calls.Alone.{idle_world, alone, work}

-- What a step adds to a list, the call that makes it holds more by.
pub record Grown {B : Type 0} (held : Call → List B) (c d : Call) (xs ys : List B) : Type 0 where
  pub more : List B
  pub grown : ys ≡ xs ++ more
  pub kept : held d ≡ held c ++ more

-- The list stays as it was.
pub still :
    {B : Type 0} (held : Call → List B) (c d : Call) (xs ys : List B)
    → held d ≡ held c
    → ys ≡ xs
    → Grown held c d xs ys
still held c d xs ys e f = record {
  more = [];
  grown = f ∙ sym (append-nil xs);
  kept = e ∙ sym (append-nil (held c));
}

pub Grown-Perm :
    {B : Type 0} (held : Call → List B) (before after : List Call) (c d : Call) (ws xs ys : List B)
    → Grown held c d xs ys
    → Perm xs (ws ++ gather held (before ++ (c ∷ after)))
    → Perm ys (ws ++ gather held (before ++ (d ∷ after)))
Grown-Perm held before after c d ws xs ys g p =
    subst (λ l. Perm l (ws ++ gather held (before ++ (d ∷ after)))) (sym g.grown)
      (Perm.trans (Perm.append_right g.more p) (
        subst (λ l. Perm l (ws ++ gather held (before ++ (d ∷ after))))
          (sym (append_assoc ws (gather held (before ++ (c ∷ after))) g.more))
          (Perm.append_left ws (gather-grows held before after c d g.more g.kept))))

module _ (s : Server) (decode : Str → Result Params) where
  -- What a call has added so far, to the log, the counters and the world outside.
  abbrev pub logged : Call → List AuditEntry
  logged (recorded a p tool v) = (work s decode a true).audit_log
  logged (leaving a v) = (work s decode a true).audit_log
  logged (returned a acquired v) = (work s decode a acquired).audit_log
  logged _ = []

  abbrev pub counted : Call → List (Str × ℕ)
  counted (leaving a v) = (work s decode a true).metrics
  counted (returned a acquired v) = (work s decode a acquired).metrics
  counted _ = []

  abbrev pub caused : Call → List Effect
  caused (handled a p tool v) = (work s decode a true).effects
  caused (recorded a p tool v) = (work s decode a true).effects
  caused (leaving a v) = (work s decode a true).effects
  caused (returned a acquired v) = (work s decode a acquired).effects
  caused _ = []

  -- The slots that it holds.
  abbrev pub one_slot : ℕ
  one_slot = if s.has_semaphore then 1 else 0

  abbrev pub slots : Call → ℕ
  slots (holding a p tool) = one_slot
  slots (handled a p tool v) = one_slot
  slots (recorded a p tool v) = one_slot
  slots (leaving a v) = one_slot
  slots _ = 0

  pub record Found (a : Asked) (p : Params) (tool : Tool) : Type 0 where
    pub decodes : decode a.raw ≡ ok p
    pub registered : get_tool_by_name s.registry p.name ≡ some tool

  pub record Returns (a : Asked) (p : Params) (tool : Tool) (v : Value) : Type 0 where
    pub found : Found a p tool
    pub result : (run_tool a.rt tool p.arguments).1 ≡ some v

  -- What is known of a call.
  abbrev pub Right : Call → Type 0
  Right (entered a) = Unit
  Right (selecting a p tool) = Found a p tool × (s.has_semaphore ≡ true)
  Right (holding a p tool) = Found a p tool
  Right (handled a p tool v) = Returns a p tool v
  Right (recorded a p tool v) = Returns a p tool v
  Right (leaving a v) = (alone s decode a true idle_world).1 ≡ v
  Right (returned a acquired v) = (alone s decode a acquired idle_world).1 ≡ v

  alone_of_found :
      (a : Asked) (p : Params) (tool : Tool)
      → Found a p tool
      → alone s decode a true idle_world
        ≡ finish a.rt s a.clock a.ctx p tool (acquire s idle_world) (run_tool a.rt tool p.arguments)
  alone_of_found a p tool f =
      call_of_runs a.rt s a.clock decode true a.ctx
        (record { decodes = f.decodes; registered = f.registered; has_slot = ground arith })
        idle_world

  pub record Work (a : Asked) (p : Params) (tool : Tool) (v : Value) : Type 0 where
    pub log_of : (work s decode a true).audit_log ≡ entry_of s decode a p tool v ∷ []
    pub metrics_of :
        (work s decode a true).metrics ≡ (add_metric a.rt s a.clock a.ctx p.name idle_world).metrics
    pub effects_of : (work s decode a true).effects ≡ (run_tool a.rt tool p.arguments).0
    pub value_of : (alone s decode a true idle_world).1 ≡ v

  pub Returns-Work :
      (a : Asked) (p : Params) (tool : Tool) (v : Value) → Returns a p tool v → Work a p tool v
  unfolding finish
  Returns-Work a p tool v r =
      let run = run_tool a.rt tool p.arguments in
      let e =
        alone_of_found a p tool r.found
        ∙ ap (λ o. finish a.rt s a.clock a.ctx p tool (acquire s idle_world) (run.0, o)) r.result in
      record {
        log_of = ap (λ (u : World × Value). u.0.audit_log) e ∙ ground arith;
        metrics_of = ap (λ (u : World × Value). u.0.metrics) e ∙ ground arith;
        effects_of = ap (λ (u : World × Value). u.0.effects) e ∙ ground arith;
        value_of = ap (λ (u : World × Value). u.1) e;
      }

  pub Found-panics :
      (a : Asked) (p : Params) (tool : Tool)
      → Found a p tool
      → (run_tool a.rt tool p.arguments).1 ≡ none
      → Right (after_handle s decode a p tool none)
        × (logged (after_handle s decode a p tool none) ≡ [])
        × (counted (after_handle s decode a p tool none) ≡ [])
        × (caused (after_handle s decode a p tool none) ≡ (run_tool a.rt tool p.arguments).0)
  unfolding finish
  Found-panics a p tool f none_left =
      let run = run_tool a.rt tool p.arguments in
      let e =
        alone_of_found a p tool f
        ∙ ap (λ o. finish a.rt s a.clock a.ctx p tool (acquire s idle_world) (run.0, o))
            none_left in
      (
        ap (λ (u : World × Value). u.1) e,
        ap (λ (u : World × Value). u.0.audit_log) e ∙ ground arith,
        ap (λ (u : World × Value). u.0.metrics) e ∙ ground arith,
        ap (λ (u : World × Value). u.0.effects) e ∙ ground arith,
      )

  -- A step of a call, from the world `x` to `y`.
  pub record Moves (c d : Call) (x y : World) : Type 0 where
    pub logs : Grown logged c d x.audit_log y.audit_log
    pub counts : Grown counted c d x.metrics y.metrics
    pub causes : Grown caused c d x.effects y.effects
    pub takes : y.in_use + slots c ≡ x.in_use + slots d
    pub right : Right d

  -- The world holds what there was and what the calls have added.
  pub record Inv (w : World) (t : Calls) : Type 0 where
    pub logs : Perm t.world.audit_log (w.audit_log ++ gather logged t.calls)
    pub counts : Perm t.world.metrics (w.metrics ++ gather counted t.calls)
    pub causes : Perm t.world.effects (w.effects ++ gather caused t.calls)
    pub in_use : t.world.in_use ≡ w.in_use + sum_by slots t.calls
    pub right : All Right t.calls

  pub Moves-Inv :
      (w y : World) (t : Calls) (before after : List Call) (c d : Call)
      → t.calls ≡ before ++ (c ∷ after)
      → Inv w t
      → (Right c → slots c ≤ t.world.in_use → Moves c d t.world y)
      → Inv w (record { world = y; calls = before ++ (d ∷ after) })
  Moves-Inv w y t before after c d e v moves =
      let (right_c, rest) = All-take_out Right before c after (subst (All Right) e v.right) in
      let held = v.in_use ∙ ap (λ (cs : List Call). w.in_use + sum_by slots cs) e in
      let m = moves right_c (omega (arith, held, sum_by-middle slots before c after)) in
      record {
        logs =
            Grown-Perm logged before after c d w.audit_log t.world.audit_log y.audit_log m.logs
              (subst (λ cs. Perm t.world.audit_log (w.audit_log ++ gather logged cs)) e v.logs);
        counts =
            Grown-Perm counted before after c d w.metrics t.world.metrics y.metrics m.counts
              (subst (λ cs. Perm t.world.metrics (w.metrics ++ gather counted cs)) e v.counts);
        causes =
            Grown-Perm caused before after c d w.effects t.world.effects y.effects m.causes
              (subst (λ cs. Perm t.world.effects (w.effects ++ gather caused cs)) e v.causes);
        in_use = omega (
          arith,
          held,
          m.takes,
          sum_by-middle slots before c after,
          sum_by-middle slots before d after,
        );
        right = All-put_in Right before d after m.right rest;
      }
