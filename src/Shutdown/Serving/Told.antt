-- ===== src/Shutdown/Serving/Told.antt =====
-- The sessions, the servers and the log when main returns.
use mathlib.Core.Option
use jig_mcp.Prelude.{
  lookup-map, HasAt-map, [], ◌∷◌, List, Str, some, Bool, true, false, map, ◌≡◌, ◌⊎◌, inl, inr, refl,
  ap, ◌∙◌, subst, lookup, HasAt, run_keeps,
}
use jig_mcp.Prelude.Result.{Result}
use jig_mcp.Auth.Caller.{Context}
use jig_mcp.Audit.Writer.{nil}
use jig_mcp.Audit.Writer
use jig_mcp.Server.Call.{World}
use jig_mcp.Server.{Request, Response}
use jig_mcp.Sse.{leave}
use jig_mcp.Sse.Message.{close_session-registered}
use jig_mcp.Sse.Traffic.{
  Traffic, Conn, Move, receive, tick, see_done, drain, drained, client_gone, taken, put_in, closed,
  over, idle,
}
use jig_mcp.Sse.Traffic
use jig_mcp.Sse.Traffic.Kept.{IsStable, Step-HasAt}
use jig_mcp.Sse.Traffic.Closing.{closed-done, IsLive, Reach-IsLive, deliver-flags}
use jig_mcp.Shutdown.Serving.{
  Stage, listening, stopping, shutting, waiting, closing, exited, Serving, sessions_closed, Step,
  client, signal, server_failed, close_sessions, shut, waited, close_log, Reach,
}

-- The session is out of the map, and its stream has returned or was told to.
pub record IsTold (c : Conn) : Type 0 where
  pub unregistered : c.session.registered ≡ false
  pub told : (c.phase ≡ over) ⊎ (c.session.done ≡ true)

closed-IsTold : (id : Str) (c : Conn) → IsLive id c → IsTold (closed c)
closed-IsTold id c live = record {
  unregistered = close_session-registered c.session;
  told = elim live [ inl o ↦ inl o | inr flags ↦ inr (closed-done c.session flags) ];
}

taken-IsTold :
    (c : Conn) (m : Str) (ms : List Str)
    → c.session.messages ≡ m ∷ ms
    → IsTold c
    → IsTold (taken m c)
taken-IsTold c m ms e v = record {
  unregistered = (deliver-flags c.session m ms e).0 ∙ v.unregistered;
  told = elim v.told [
    | inl o ↦ inl o
    | inr asked ↦ inr ((deliver-flags c.session m ms e).1 ∙ asked)
  ];
}

Move-IsTold : {c d : Conn} → Move c d → IsTold c → IsTold d
unfolding leave
Move-IsTold {c} (receive m ms e full) v = taken-IsTold c m ms full v
Move-IsTold (tick e) v = record { unregistered = v.unregistered; told = v.told }
Move-IsTold (see_done e asked) v = record { unregistered = v.unregistered; told = inr asked }
Move-IsTold {c} (drain m ms e full) v = taken-IsTold c m ms full v
Move-IsTold (drained e empty) v = record { unregistered = refl; told = inl refl }
Move-IsTold (client_gone e) v = record { unregistered = refl; told = inl refl }

IsTold-IsStable : IsStable IsTold
IsTold-IsStable = record {
  on_move = Move-IsTold;
  on_close =
      λ c v. closed-IsTold [] c (elim v.told [ inl o ↦ inl o | inr asked ↦ inr (inr asked) ]);
  on_put = λ m c v. record { unregistered = v.unregistered; told = v.told };
}

module _ {Http : Type 0} (shutdown : Http → Http)
    (process : Bool → Context → Request → World → World × Response) (decode : Str → Result Request)
    (encode : Response → Result Str) where
  -- What is done at a stage after CloseAllSessions, with the servers of before.
  abbrev DoneAt : Stage → Serving Http → Serving Http → Type 0
  DoneAt shutting s q = q.servers ≡ s.servers
  DoneAt waiting s q = q.servers ≡ map shutdown s.servers
  DoneAt closing s q = q.servers ≡ map shutdown s.servers
  DoneAt exited s q = (q.servers ≡ map shutdown s.servers) × (q.audit.writer.file ≡ nil)
  DoneAt _ s q = ⊥

  Step-DoneAt :
      (s : Serving Http) {q u : Serving Http}
      → DoneAt q.stage s q
      → Step shutdown process decode encode q u
      → DoneAt u.stage s u
  unfolding Writer.close
  Step-DoneAt s {q} h (client {t} st may) = at_stage t q.stage h
    where
      at_stage : (t : Traffic) (g : Stage) → DoneAt g s q → DoneAt g s (record q { traffic = t })
      at_stage t listening k = absurd k
      at_stage t stopping k = absurd k
      at_stage t shutting k = k
      at_stage t waiting k = k
      at_stage t closing k = k
      at_stage t exited k = k
  Step-DoneAt s {q} h (signal e) = absurd (subst (λ g. DoneAt g s q) e h)
  Step-DoneAt s {q} h (server_failed why e) = absurd (subst (λ g. DoneAt g s q) e h)
  Step-DoneAt s {q} h (close_sessions e) = absurd (subst (λ g. DoneAt g s q) e h)
  Step-DoneAt s {q} h (shut e) = ap (map shutdown) (subst (λ g. DoneAt g s q) e h)
  Step-DoneAt s {q} h (waited e) = subst (λ g. DoneAt g s q) e h
  Step-DoneAt s {q} h (close_log e) = (subst (λ g. DoneAt g s q) e h, refl)

  Step-HasTold :
      (id : Str) {q u : Serving Http}
      → Step shutdown process decode encode q u
      → HasAt IsTold id q.traffic.conns
      → HasAt IsTold id u.traffic.conns
  Step-HasTold id (client st may) h =
      Step-HasAt process decode encode IsTold IsTold-IsStable id st h
  Step-HasTold id (signal e) h = h
  Step-HasTold id (server_failed why e) h = h
  Step-HasTold id {q} (close_sessions e) h =
      HasAt-map IsTold closed id q.traffic.conns IsTold-IsStable.on_close h
  Step-HasTold id (shut e) h = h
  Step-HasTold id (waited e) h = h
  Step-HasTold id (close_log e) h = h

  -- Over SSE, whatever the clients do meanwhile: once CloseAllSessions has passed, then when main has
  -- returned, each HTTP server has been shut down, the audit log is closed, and each session that there was is
  -- out of the map, with its stream returned or told to return. Of sessions that connect after
  -- CloseAllSessions and before Shutdown it says nothing.
  pub exited-HasTold :
      (w : World) (s : Serving Http) {q : Serving Http}
      → Traffic.Reach process decode encode (idle w) s.traffic
      → Reach shutdown process decode encode
          (record s { stage = shutting; traffic = sessions_closed s.traffic })
          q
      → q.stage ≡ exited
      → (q.servers ≡ map shutdown s.servers)
        × (q.audit.writer.file ≡ nil)
        × ((id : Str) (c : Conn)
            → lookup id s.traffic.conns ≡ some c
            → HasAt IsTold id q.traffic.conns)
  exited-HasTold w s {q} before r e =
      let (shut_down, log_closed) =
        subst (λ g. DoneAt g s q) e
          (run_keeps (λ u. DoneAt u.stage s u) (λ x y st h. Step-DoneAt s h st) r refl) in
      (
        shut_down,
        log_closed,
        λ id c there.
            run_keeps (λ u. HasAt IsTold id u.traffic.conns) (λ x y st h. Step-HasTold id st h) r
              (
                closed c,
                lookup-map closed id s.traffic.conns ∙ ap (Option.map closed) there,
                closed-IsTold id c (Reach-IsLive process decode encode w id before there),
              ),
      )
