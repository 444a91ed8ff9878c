-- ===== src/Shutdown/Serving.antt =====
-- The end of a run of cmd/jig-mcp/main.go over SSE: main after StartSSEServer, and gracefulShutdown, while
-- the clients go on. Over SSE no goroutine adds to inflightTools, so its Wait returns at once.
pub mod Told
mod Tests
use jig_mcp.Prelude.{List, Str, Bool, true, false, not, map, ◌≡◌, Run}
use jig_mcp.Prelude.Result.{Result}
use jig_mcp.Auth.Caller.{Context}
use jig_mcp.Audit.Writer
use jig_mcp.Server.Call.{World}
use jig_mcp.Server.{Request, Response}
use jig_mcp.Sse.Traffic.{Traffic, closed, connect, refuse, arrive}
use jig_mcp.Sse.Traffic

-- In the select on the signals and sseErrCh; before CloseAllSessions; before the servers' Shutdown; in
-- inflightTools.Wait; before audit.Close; returned.
pub data Stage : Type 0 where
  listening stopping shutting waiting closing exited : Stage

pub record Serving {ℓ} (Http : Type ℓ) : Type ℓ where
  pub stage : Stage
  pub traffic : Traffic
  pub servers : List Http
  pub audit : Writer.World

abbrev pub sessions_closed : Traffic → Traffic
sessions_closed t = record t { conns = map (λ e. (e.0, closed e.1)) t.conns }

module _ {ℓ} {Http : Type ℓ} (shutdown : Http → Http)
    (process : Bool → Context → Request → World → World × Response) (decode : Str → Result Request)
    (encode : Response → Result Str) where
  -- The step begins with a new connection.
  abbrev pub is_new : {t u : Traffic} → Traffic.Step process decode encode t u → Bool
  is_new (connect bytes fresh) = true
  is_new (refuse r why) = true
  is_new (arrive r) = true
  is_new _ = false

  -- After Shutdown no connection is accepted, and after the return of main nothing runs.
  abbrev pub may_go : Stage → Bool → Bool
  may_go waiting new = not new
  may_go closing new = not new
  may_go exited new = false
  may_go _ new = true

  pub data Step (s : Serving Http) : Serving Http → Type ℓ where
    client :
        {t : Traffic} (st : Traffic.Step process decode encode s.traffic t)
        → may_go s.stage (is_new st) ≡ true
        → Step s (record s { traffic = t })
    signal : s.stage ≡ listening → Step s (record s { stage = stopping })
    server_failed : (e : Str) → s.stage ≡ listening → Step s (record s { stage = stopping })
    close_sessions :
        s.stage ≡ stopping
        → Step s (record s { stage = shutting; traffic = sessions_closed s.traffic })
    shut :
        s.stage ≡ shutting → Step s (record s { stage = waiting; servers = map shutdown s.servers })
    waited : s.stage ≡ waiting → Step s (record s { stage = closing })
    close_log :
        s.stage ≡ closing → Step s (record s { stage = exited; audit = Writer.close s.audit })

  abbrev pub Reach : Serving Http → Serving Http → Type ℓ
  Reach = Run Step
