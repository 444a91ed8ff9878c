-- ===== src/Dashboard/Routes/Slots.antt =====
-- The concurrency that the dashboard reports.
use jig_mcp.Prelude.{ℕ, ◌-◌, Str, List, true, ◌≡◌, arith}
use jig_mcp.Prelude.Int.{pos}
use jig_mcp.Prelude.Result.{Result}
use jig_mcp.Server.Slots.{Pool, Reach, empty_pool, count_running, slots_bounded}
use jig_mcp.Dashboard.Logs.{AuditLine}
use jig_mcp.Dashboard.Routes.{Sources, Api, api_metrics}

module _ {Float : Type 0} (zero_float : Float) (quotient : ℕ → ℕ → Float) (scan : Str → List Str)
    (decode : Str → Result AuditLine) (encode : Api Float → Str) (page : Str) where
  -- Whatever calls there are: the slots that the dashboard reports as in use are the calls that are running,
  -- those that it reports as available are the others of the configured number, and never negative.
  pub api_metrics-Reach :
      (n : ℕ) {p : Pool} (s : Sources)
      → Reach (empty_pool n) p
      → s.has_semaphore ≡ true
      → s.semaphore_size ≡ n
      → s.in_use ≡ p.in_use
      → ((api_metrics zero_float quotient scan decode encode page s).in_use ≡ count_running p.calls)
        × ((api_metrics zero_float quotient scan decode encode page s).available
            ≡ pos (n - count_running p.calls))
  unfolding api_metrics
  api_metrics-Reach n {p} s r has size used = ground (arith, has, size, used, slots_bounded n r)
