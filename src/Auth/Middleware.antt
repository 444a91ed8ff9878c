-- ===== src/Auth/Middleware.antt =====
-- `authenticate` of internal/sse/sse.go and of internal/dashboard/dashboard.go: the middleware in
-- front of a handler. A handler takes a request and gives what it does of any type `R`; `reject` is
-- what is done with a reply that the middleware writes itself.
pub mod Laws
use jig_mcp.Prelude.{
  Str, lit, Bool, true, false, not, ◌==◌, if◌then◌else◌, List, [], ◌∷◌, Option, none, some, cut,
  to_lower,
}
use jig_mcp.Auth.Caller.{CallerIdentity, Context, with_caller}
use jig_mcp.Auth.Tokens.{TokenRegistry, lookup_token, auth_required}
use jig_mcp.Http.{HttpRequest, HttpReply}

-- The token of an Authorization header, "" if it has another form.
unfoldable pub bearer : Str → Str
bearer auth_header = elim (cut b' ' auth_header) [
  | none ↦ []
  | some (scheme, rest) ↦ if to_lower scheme == lit "bearer" then rest else []
]

unfoldable pub candidate_token : HttpRequest → Str
candidate_token r =
    let from_header = if r.authorization == [] then [] else bearer r.authorization in
    if from_header == [] then r.query (lit "token") else from_header

abbrev pub unauthorized : HttpReply
unauthorized = record {
  status = 401;
  header = (lit "WWW-Authenticate", lit "Bearer realm=\"jig-mcp\"") ∷ [];
  body = lit "Unauthorized: missing or invalid token";
}

abbrev pub as_caller : HttpRequest → Str → HttpRequest
as_caller r name = record r {
  ctx = with_caller r.ctx (record { name = name; transport = lit "sse" });
}

module _ {R : Type 0} (reject : HttpReply → R) (tr : TokenRegistry) (h : HttpRequest → R) where
  abbrev found_or_reject : HttpRequest → Str × Bool → R
  found_or_reject r (name, true) = h (as_caller r name)
  found_or_reject r (name, false) = reject unauthorized

  -- sse.go
  unfoldable pub authenticate : HttpRequest → R
  authenticate r =
      if not (auth_required tr)
      then h (as_caller r (lit "anonymous"))
      else found_or_reject r (lookup_token tr (candidate_token r))

  abbrev pass_or_reject : HttpRequest → Str × Bool → R
  pass_or_reject r (name, true) = h r
  pass_or_reject r (name, false) = reject unauthorized

  -- dashboard.go: the request is passed on as it came.
  unfoldable pub authenticate_dashboard : HttpRequest → R
  authenticate_dashboard r =
      if not (auth_required tr) then h r else pass_or_reject r (lookup_token tr (candidate_token r))
