-- ===== src/Shutdown.antt =====
-- The end of a run of cmd/jig-mcp/main.go over stdio: main after it has started runStdioServer, and
-- gracefulShutdown, while the goroutines of the requests go on. Serving has the end of a run over SSE.
pub mod Ends
pub mod Orderly
pub mod Completes
pub mod Serving
mod Tests
use jig_mcp.Prelude.{Run, run_keeps, ℕ, List, [], ◌∷◌, Bool, true, false, map, sum_by, ◌≡◌, Str}
use jig_mcp.Prelude.Result.{Result}
use jig_mcp.Auth.Caller.{Context}
use jig_mcp.Audit.Writer
use jig_mcp.Server.Call.{World}
use jig_mcp.Server.{Request, Response}
use jig_mcp.Stdio.{Worker, Stdio, queued, serving, answered}
use jig_mcp.Stdio

-- Where main is: in the first select; in requestWg.Wait after the end of stdin; before the servers are shut
-- down; in inflightTools.Wait; before audit.Close; returned.
pub data Phase : Type 0 where
  reading draining stopping waiting closing exited : Phase

abbrev pub is_running : Phase → Bool
is_running exited = false
is_running _ = true

-- An element of `Http` is an http.Server. `orderly` says that no signal came and no grace period expired.
pub record Process {ℓ} (Http : Type ℓ) : Type ℓ where
  pub phase : Phase
  pub stdio : Stdio
  pub servers : List Http
  pub audit : Writer.World
  pub orderly : Bool

-- The counter of inflightTools: the goroutines that are past the test for a notification.
abbrev counted : Worker → ℕ
counted (queued line) = 0
counted (serving req) = 1
counted (answered resp) = 1

unfoldable pub in_flight : Stdio → ℕ
in_flight s = sum_by counted s.workers

-- gracefulShutdown up to inflightTools.Wait: Shutdown of each server. `shutdown` is http.Server.Shutdown. Over
-- stdio no SSE server is started, so there is no session that CloseAllSessions could close.
unfoldable pub stop_servers {ℓ} : {Http : Type ℓ} → (Http → Http) → Process Http → Process Http
stop_servers shutdown p = record p { servers = map shutdown p.servers }

module _ {ℓ} {Http : Type ℓ} (shutdown : Http → Http)
    (process : Bool → Context → Request → World → World × Response) (decode : Str → Result Request)
    (encode : Response → Result Str) where
  pub data Step (p : Process Http) : Process Http → Type ℓ where
    -- the loop and the goroutines go on until main returns
    work :
        {t : Stdio}
        → is_running p.phase ≡ true
        → Stdio.Step process decode encode p.stdio t
        → Step p (record p { stdio = t })
    end_of_input : p.phase ≡ reading → p.stdio.input ≡ [] → Step p (record p { phase = draining })
    signal : p.phase ≡ reading → Step p (record p { phase = stopping; orderly = false })
    drained : p.phase ≡ draining → p.stdio.workers ≡ [] → Step p (record p { phase = stopping })
    drain_expired : p.phase ≡ draining → Step p (record p { phase = stopping; orderly = false })
    stop : p.phase ≡ stopping → Step p (record (stop_servers shutdown p) { phase = waiting })
    waited : p.phase ≡ waiting → in_flight p.stdio ≡ 0 → Step p (record p { phase = closing })
    wait_expired : p.phase ≡ waiting → Step p (record p { phase = closing; orderly = false })
    close_log :
        p.phase ≡ closing → Step p (record p { phase = exited; audit = Writer.close p.audit })

  abbrev pub Reach : Process Http → Process Http → Type ℓ
  Reach = Run Step
