-- ===== src/Tools/Http/Allowed.antt =====
-- Which URLs the allowed prefixes let through, and that no other URL is requested.
use jig_mcp.Prelude.{
  Str, Map, Option, none, some, List, [], ◌∷◌, ◌++◌, true, false, not, ◌≡◌, ◌≢◌, ◌↔◌, ◌⊎◌, inl, inr,
  refl, arith, ◌==◌, eq_iff, has_prefix_sound, has_prefix-append, any, Any, All, All-imp,
  Bool-cases,
}
use jig_mcp.Prelude.Result.{Result, ok, err}
use jig_mcp.Value.{Value}
use jig_mcp.Config.{ToolConfig}
use jig_mcp.Tools.Runtime.{Runtime, HttpCall}
use jig_mcp.Tools.Http.{
  has_variable, http_list, prefix_allows, url_allowed, target_url, full_query, http_call, send_call,
  parsed, handle_url, handle,
}

module _ (rt : Runtime) where
  -- A prefix lets a URL through: it names a variable and expands to nothing, or it expands to a text that
  -- the URL begins with.
  abbrev pub Lets : Str → Str → Type 0
  Lets url p =
      ((rt.expand_env p ≡ []) × (has_variable p ≡ true))
      ⊎ ((rt.expand_env p ≢ []) × ((rest : Str) × (url ≡ rt.expand_env p ++ rest)))

  abbrev pub IsAllowed : List Str → Str → Type 0
  IsAllowed prefixes url = Any (Lets url) prefixes ⊎ All (λ p. rt.expand_env p ≡ []) prefixes

  prefix_allows_sound : (url p : Str) → prefix_allows rt url p ≡ true → Lets url p
  unfolding prefix_allows
  prefix_allows_sound url p h = elim (Bool-cases (rt.expand_env p == [])) [
    | inl e ↦ inl ((eq_iff (rt.expand_env p) []).0 e, ground arith)
    | inr e ↦ inr (
      (λ q. ground (arith, eq_iff (rt.expand_env p) [])),
      has_prefix_sound url (rt.expand_env p) (ground arith),
    )
  ]

  prefix_allows_complete : (url p : Str) → Lets url p → prefix_allows rt url p ≡ true
  unfolding prefix_allows
  prefix_allows_complete url p (inl (e, v)) = ground (arith, eq_iff (rt.expand_env p) [])
  prefix_allows_complete url p (inr (e, (rest, q))) =
      ground (arith, eq_iff (rt.expand_env p) [], has_prefix-append (rt.expand_env p) rest)

  any_prefix_sound :
      (url : Str) (ps : List Str) → any (prefix_allows rt url) ps ≡ true → Any (Lets url) ps
  any_prefix_sound url [] h = cc
  any_prefix_sound url (p ∷ ps) h = elim (Bool-cases (prefix_allows rt url p)) [
    | inl e ↦ inl (prefix_allows_sound url p e)
    | inr e ↦ inr (any_prefix_sound url ps (ground arith))
  ]

  any_prefix_complete :
      (url : Str) (ps : List Str) → Any (Lets url) ps → any (prefix_allows rt url) ps ≡ true
  any_prefix_complete url [] h = absurd h
  any_prefix_complete url (p ∷ ps) (inl l) = ground (arith, prefix_allows_complete url p l)
  any_prefix_complete url (p ∷ ps) (inr l) = ground (arith, any_prefix_complete url ps l)

  All-empty_sound :
      (ps : List Str)
      → any (λ p. not (rt.expand_env p == [])) ps ≡ false
      → All (λ p. rt.expand_env p ≡ []) ps
  All-empty_sound [] h = tt
  All-empty_sound (p ∷ ps) h =
      (ground (arith, eq_iff (rt.expand_env p) []), All-empty_sound ps (ground arith))

  All-empty_complete :
      (ps : List Str)
      → All (λ p. rt.expand_env p ≡ []) ps
      → any (λ p. not (rt.expand_env p == [])) ps ≡ false
  All-empty_complete [] h = refl
  All-empty_complete (p ∷ ps) (e, h) =
      ground (arith, eq_iff (rt.expand_env p) [], All-empty_complete ps h)

  -- A URL passes the check exactly if a prefix that expands to a text is a prefix of it, or a prefix with
  -- a variable expands to nothing, or no prefix expands to anything.
  url_allowed_iff :
      (prefixes : List Str) (url : Str)
      → (url_allowed rt prefixes url ≡ true) ↔ IsAllowed prefixes url
  unfolding url_allowed
  url_allowed_iff prefixes url = (to, from)
    where
      to : url_allowed rt prefixes url ≡ true → IsAllowed prefixes url
      to h = elim (Bool-cases (any (prefix_allows rt url) prefixes)) [
        | inl e ↦ inl (any_prefix_sound url prefixes e)
        | inr e ↦ inr (All-empty_sound prefixes (ground arith))
      ]

      from : IsAllowed prefixes url → url_allowed rt prefixes url ≡ true
      from (inl l) = ground (arith, any_prefix_complete url prefixes l)
      from (inr l) = ground (arith, All-empty_complete prefixes l)

  module _ (config : ToolConfig) (args : Map Value) where
    abbrev prefixes : List Str
    prefixes = http_list (λ h. h.allowed_url_prefixes) config.http

    -- The request goes to a URL that is parsed from the text `url` and differs from it in its query only.
    abbrev pub GoesTo : Str → HttpCall → Type 0
    GoesTo url call =
        (u : rt.Url) × (rt.parse_url url ≡ ok u)
        × (call.url ≡ rt.url_text u (full_query rt config args (rt.query u)))

    send_call-GoesTo :
        (url : Str) (u : rt.Url) (o : Option Str)
        → rt.parse_url url ≡ ok u
        → All (GoesTo url) (send_call rt config (http_call rt config args u) o).0
    unfolding http_call
    send_call-GoesTo url u none e = ((u, e, refl), tt)
    send_call-GoesTo url u (some x) e = tt

    parsed-GoesTo :
        (url : Str) (r : Result rt.Url)
        → rt.parse_url url ≡ r
        → All (GoesTo url) (parsed rt config args r).0
    parsed-GoesTo url (err x) e = tt
    parsed-GoesTo url (ok u) e = send_call-GoesTo url u _ e

    handle_url_sound :
        (url : Str)
        → All (λ c. IsAllowed prefixes url × GoesTo url c) (handle_url rt config args url).0
    unfolding handle_url
    handle_url_sound url = elim (Bool-cases (url_allowed rt prefixes url)) [
      | inl fits ↦ rw fits (
          All-imp _ _ _ (λ c g. ((url_allowed_iff prefixes url).0 fits, g))
            (parsed-GoesTo url (rt.parse_url url) refl))
      | inr differs ↦ rw differs tt
    ]

    -- A call sends a request only to the URL of its arguments or of the manifest, with its variables
    -- expanded, and only if the allowed prefixes of the manifest let this URL through.
    pub handle-IsAllowed :
        All
          (λ c.
            IsAllowed
              (http_list (λ h. h.allowed_url_prefixes) config.http)
              (rt.expand_env (target_url rt config args))
            × GoesTo (rt.expand_env (target_url rt config args)) c)
          (handle rt config args).0
    unfolding handle
    handle-IsAllowed = elim (Bool-cases (target_url rt config args == [])) [
      | inl missing ↦ rw missing tt
      | inr given ↦ rw given (handle_url_sound (rt.expand_env (target_url rt config args)))
    ]
