-- ===== src/Auth/Middleware/Laws.antt =====
-- Which requests the middleware lets through, and as whom.
use jig_mcp.Prelude.{
  Bool, not, if_has, Str, lit, true, false, [], ◌∷◌, ◌++◌, to_lower, ◌≡◌, ◌≢◌, refl, arith, eq_iff,
  eq_refl, has_byte, cut-append, append-ne-nil,
}
use jig_mcp.Auth.Tokens.{TokenRegistry, auth_required, lookup_token}
use jig_mcp.Auth.Tokens.Lookup.{IsFirstOwner, lookup_token_lem}
use jig_mcp.Auth.Middleware.{
  bearer, found_or_reject, candidate_token, unauthorized, as_caller, authenticate,
  authenticate_dashboard,
}
use jig_mcp.Http.{HttpRequest, HttpReply}

-- The registry lets the request through as the caller `n`.
pub data Admits (tr : TokenRegistry) (r : HttpRequest) (n : Str) : Type 0 where
  open_to_all : tr.entries ≡ [] → n ≡ lit "anonymous" → Admits tr r n
  owner : tr.entries ≢ [] → IsFirstOwner (candidate_token r) n tr.entries → Admits tr r n

auth_required-nil : (tr : TokenRegistry) → tr.entries ≡ [] → auth_required tr ≡ false
unfolding auth_required
auth_required-nil tr e = rw e

auth_required-cons : (tr : TokenRegistry) → tr.entries ≢ [] → auth_required tr ≡ true
unfolding auth_required
auth_required-cons tr h = ground (arith, h)

module _ (tr : TokenRegistry) (r : HttpRequest) (none_fits : (n : Str) → ¬ Admits tr r n) where
  nonempty_of_not_Admits : tr.entries ≢ []
  nonempty_of_not_Admits e = none_fits (lit "anonymous") (open_to_all e refl)

  not_owner_of_not_Admits : (n : Str) → ¬ IsFirstOwner (candidate_token r) n tr.entries
  not_owner_of_not_Admits n o = none_fits n (owner nonempty_of_not_Admits o)

module _ {R : Type 0} (reject : HttpReply → R) (tr : TokenRegistry) (h : HttpRequest → R) where
  authenticate-Admits :
      (r : HttpRequest) (n : Str) → Admits tr r n → authenticate reject tr h r ≡ h (as_caller r n)
  unfolding authenticate
  authenticate-Admits r n (open_to_all e f) = rw (auth_required-nil tr e, f)
  authenticate-Admits r n (owner e o) =
      rw (auth_required-cons tr e, ((lookup_token_lem tr (candidate_token r)).0 n).1 o)

  authenticate-not_Admits :
      (r : HttpRequest)
      → ((n : Str) → ¬ Admits tr r n)
      → authenticate reject tr h r ≡ reject unauthorized
  unfolding authenticate
  authenticate-not_Admits r none_fits = rw (
    auth_required-cons tr (nonempty_of_not_Admits tr r none_fits),
    (lookup_token_lem tr (candidate_token r)).1 (not_owner_of_not_Admits tr r none_fits),
  )

  -- A request is let through exactly if no token is configured, as "anonymous", or if its token is
  -- registered, as the first owner of that token: the handler then sees the request with this caller
  -- in its context. Any other request is answered 401 and the handler is not run.
  pub authenticate_lem :
      (r : HttpRequest)
      → ((n : Str) → Admits tr r n → authenticate reject tr h r ≡ h (as_caller r n))
        × (((n : Str) → ¬ Admits tr r n) → authenticate reject tr h r ≡ reject unauthorized)
  authenticate_lem r = (authenticate-Admits r, authenticate-not_Admits r)

module _ {R : Type 0} (reject : HttpReply → R) (tr : TokenRegistry) (h : HttpRequest → R)
    (P : R → Type 0) where
  found_or_reject_has :
      ((reply : HttpReply) → P (reject reply))
      → ((r : HttpRequest) → P (h r))
      → (r : HttpRequest) (x : Str × Bool) → P (found_or_reject reject tr h r x)
  found_or_reject_has p q r (name, true) = q (as_caller r name)
  found_or_reject_has p q r (name, false) = p unauthorized

  -- The middleware does nothing but what the handler does or what is done with its own reply.
  pub authenticate_has :
      ((reply : HttpReply) → P (reject reply))
      → ((r : HttpRequest) → P (h r))
      → (r : HttpRequest) → P (authenticate reject tr h r)
  unfolding authenticate
  authenticate_has p q r =
      if_has P (not (auth_required tr)) (q (as_caller r (lit "anonymous")))
        (found_or_reject_has p q r (lookup_token tr (candidate_token r)))

module _ {R : Type 0} (reject : HttpReply → R) (tr : TokenRegistry) (h : HttpRequest → R) where
  dashboard-Admits :
      (r : HttpRequest) (n : Str) → Admits tr r n → authenticate_dashboard reject tr h r ≡ h r
  unfolding authenticate_dashboard
  dashboard-Admits r n (open_to_all e f) = rw (auth_required-nil tr e)
  dashboard-Admits r n (owner e o) =
      rw (auth_required-cons tr e, ((lookup_token_lem tr (candidate_token r)).0 n).1 o)

  dashboard-not_Admits :
      (r : HttpRequest)
      → ((n : Str) → ¬ Admits tr r n)
      → authenticate_dashboard reject tr h r ≡ reject unauthorized
  unfolding authenticate_dashboard
  dashboard-not_Admits r none_fits = rw (
    auth_required-cons tr (nonempty_of_not_Admits tr r none_fits),
    (lookup_token_lem tr (candidate_token r)).1 (not_owner_of_not_Admits tr r none_fits),
  )

  -- The dashboard lets the same requests through as the SSE transport, with the request unchanged, and
  -- gives any other the same 401 reply.
  pub authenticate_dashboard_lem :
      (r : HttpRequest)
      → ((n : Str) → Admits tr r n → authenticate_dashboard reject tr h r ≡ h r)
        × (((n : Str) → ¬ Admits tr r n)
            → authenticate_dashboard reject tr h r ≡ reject unauthorized)
  authenticate_dashboard_lem r = (dashboard-Admits r, dashboard-not_Admits r)

-- A request whose Authorization header is a scheme that reads "bearer" in any letter case, a space
-- and a token that is not empty has this token as its candidate, whatever its query parameters.
candidate_token-bearer :
    (r : HttpRequest) (scheme token : Str)
    → has_byte b' ' scheme ≡ false
    → to_lower scheme ≡ lit "bearer"
    → token ≢ []
    → r.authorization ≡ scheme ++ (b' ' ∷ token)
    → candidate_token r ≡ token
unfolding candidate_token bearer
candidate_token-bearer r scheme token plain bearer_word given header = ground (
  arith,
  header,
  cut-append b' ' scheme token plain,
  eq_iff (scheme ++ (b' ' ∷ token)) [],
  eq_iff token [],
  eq_refl (lit "bearer"),
  append-ne-nil scheme b' ' token,
)
