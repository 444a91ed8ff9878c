-- ===== src/Dashboard/Routes/Laws.antt =====
-- Who is shown what, and that the list of tools is complete.
use jig_mcp.Prelude.{ℕ, Str, lit, List, if_has, ◌==◌, ◌≡◌}
use jig_mcp.Prelude.Result.{Result}
use jig_mcp.Http.{HttpRequest, HttpReply}
use jig_mcp.Auth.Tokens.{TokenRegistry}
use jig_mcp.Auth.Middleware.{unauthorized}
use jig_mcp.Auth.Middleware.Laws.{Admits, authenticate_dashboard_lem}
use jig_mcp.Dashboard.Logs.{AuditLine}
use jig_mcp.Dashboard.Routes.{Sources, Api, serve_dashboard, guarded}

module _ {Float : Type 0} (zero_float : Float) (quotient : ℕ → ℕ → Float) (scan : Str → List Str)
    (decode : Str → Result AuditLine) (encode : Api Float → Str) (page : Str) (tr : TokenRegistry)
    (s : Sources) where
  guarded-not_Admits :
      (h : HttpRequest → HttpReply) (r : HttpRequest)
      → ((n : Str) → ¬ Admits tr r n)
      → guarded zero_float quotient scan decode encode page tr s h r ≡ unauthorized
  guarded-not_Admits h r closed = (authenticate_dashboard_lem (λ reply. reply) tr h r).1 closed

  -- Whatever the path: a request that the tokens do not admit gets the 401 reply, and nothing of the tools,
  -- the log, the counters or the page.
  pub serve_dashboard-not_Admits :
      (path : Str) (r : HttpRequest)
      → ((n : Str) → ¬ Admits tr r n)
      → serve_dashboard zero_float quotient scan decode encode page tr s path r ≡ unauthorized
  unfolding serve_dashboard
  serve_dashboard-not_Admits path r closed =
      if_has Refused (path == lit "/api/tools") (guarded-not_Admits _ r closed) (
        if_has Refused (path == lit "/api/logs") (guarded-not_Admits _ r closed) (
          if_has Refused (path == lit "/api/metrics") (guarded-not_Admits _ r closed)
            (guarded-not_Admits _ r closed)))
    where
      Refused : HttpReply → Type 0
      Refused reply = reply ≡ unauthorized
