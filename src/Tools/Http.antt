-- ===== src/Tools/Http.antt =====
-- internal/tools/http.go: HTTPTool.Handle, in the order of the code. It returns the requests that it
-- sent and its result. A map of query values is an association list of lists; redirects are not followed, so that
-- one call sends at most one request.
pub mod Allowed
pub mod Laws
mod Tests
use jig_mcp.Prelude.{
  ℕ, ◌*◌, ◌^◌, Str, lit, Map, Option, none, some, List, [], ◌∷◌, ◌++◌, Bool, true, false, ◌||◌,
  ◌&&◌, not, if◌then◌else◌, ◌==◌, lookup, insert, has_prefix, contains, is_empty, any, leb,
}
use jig_mcp.Prelude.Result.{Result, ok, err}
use jig_mcp.Value.{
  Value, null, bool, float, int, text, list, maps, object, header, field, fields, end, items,
  as_object, assert_at, text_at, also, no_more,
}
use jig_mcp.Config.{ToolConfig, HttpConfig}
use jig_mcp.Tools.Runtime.{Runtime, HttpCall, HttpAnswer}
use jig_mcp.Tools.Base.{effective_timeout, error_result, text_content}

-- url.Values with Set and Add.
abbrev pub Query : Type 0
Query = Map (List Str)

abbrev pub values_set : Str → Str → Query → Query
values_set k v q = insert k (v ∷ []) q

abbrev pub values_of : Option (List Str) → List Str
values_of none = []
values_of (some vs) = vs

abbrev pub values_add : Str → Str → Query → Query
values_add k v q = insert k (values_of (lookup k q) ++ (v ∷ [])) q

abbrev pub default_http_timeout : ℕ
default_http_timeout = 15 * 10 ^ 9

unfoldable pub is_reserved : Str → Bool
is_reserved k =
    k == lit "url"
    || k == lit "method"
    || k == lit "headers"
    || k == lit "body"
    || k == lit "query_params"

abbrev pub has_variable : Str → Bool
has_variable s = contains s (lit "${")

-- A parameter of the manifest, or none of its kind where the manifest has no http section.
abbrev pub http_text : (HttpConfig → Str) → Option HttpConfig → Str
http_text get none = []
http_text get (some http) = get http

abbrev pub http_list {ℓ} : {A : Type ℓ} → (HttpConfig → List A) → Option HttpConfig → List A
http_list get none = []
http_list get (some http) = get http

module _ (rt : Runtime) where
  -- One round of the loop over the allowed prefixes: whether it stops with `allowed`.
  unfoldable pub prefix_allows : Str → Str → Bool
  prefix_allows url prefix =
      let expanded = rt.expand_env prefix in
      (expanded == [] && has_variable prefix) || (not (expanded == []) && has_prefix url expanded)

  unfoldable pub url_allowed : List Str → Str → Bool
  url_allowed prefixes url =
      any (prefix_allows url) prefixes || not (any (λ p. not (rt.expand_env p == [])) prefixes)

  -- The query parameters of the manifest, those of the argument query_params, and for GET the other
  -- arguments, each laid over what is there.
  unfoldable pub add_configured : Map Str → Query → Query
  add_configured [] q = q
  add_configured ((k, v) ∷ m) q = add_configured m (values_set k (rt.expand_env v) q)

  unfoldable pub add_items : Str → List Value → Query → Query
  add_items k [] q = q
  add_items k (v ∷ vs) q = add_items k vs (values_add k (rt.sprint v) q)

  unfoldable pub add_explicit : Map Value → Query → Query
  add_explicit [] q = q
  add_explicit ((k, text s) ∷ m) q = add_explicit m (values_set k s q)
  add_explicit ((k, list vs) ∷ m) q = add_explicit m (add_items k (items vs) q)
  add_explicit ((k, v) ∷ m) q = add_explicit m (values_set k (rt.sprint v) q)

  abbrev pub set_if_ok : Str → Result Str → Query → Query
  set_if_ok k (ok s) q = values_set k s q
  set_if_ok k (err e) q = q

  -- A value as a query parameter of a GET request.
  unfoldable pub add_argument : Str → Value → Query → Query
  add_argument k (text s) q = if s == [] then q else values_set k s q
  add_argument k (int n) q = values_set k (rt.sprint (int n)) q
  add_argument k (float n) q = values_set k (rt.sprint (float n)) q
  add_argument k (bool b) q = values_set k (rt.sprint (bool b)) q
  add_argument k null q = q
  add_argument k v q = set_if_ok k (rt.marshal v) q

  unfoldable pub add_arguments : Map Value → Query → Query
  add_arguments [] q = q
  add_arguments ((k, v) ∷ m) q = add_arguments m (if is_reserved k then q else add_argument k v q)

  -- The JSON body of the arguments that are neither reserved nor nil.
  abbrev pub is_null : Value → Bool
  is_null null = true
  is_null _ = false

  unfoldable pub body_map : Map Value → Map Value
  body_map [] = []
  body_map ((k, v) ∷ m) =
      let rest = body_map m in if is_reserved k || is_null v then rest else (k, v) ∷ rest

  abbrev pub json_or_nothing : Result Str → Str
  json_or_nothing (ok s) = s
  json_or_nothing (err e) = []

  abbrev pub body_text : Value → Str
  body_text (text s) = s
  body_text v = json_or_nothing (rt.marshal v)

  abbrev pub has_body_method : Str → Bool
  has_body_method m = m == lit "POST" || m == lit "PUT" || m == lit "PATCH"

  unfoldable pub request_body : Str → Map Value → Option Str
  request_body method args =
      let built = body_map args in
      elim (lookup (lit "body") args) [
        | some b ↦ some (body_text b)
        | none ↦
            if has_body_method method && not (is_empty built)
            then some (json_or_nothing (rt.marshal (object (fields built))))
            else none
      ]

  -- Headers of the manifest, then those of the call.
  unfoldable pub configured_headers : Map Str → Map Str → Map Str
  configured_headers [] h = h
  configured_headers ((k, v) ∷ m) h =
      let expanded = rt.expand_env v in
      configured_headers m
        (if expanded == [] && has_variable v then h else insert (rt.canonical k) expanded h)

  unfoldable pub given_headers : Map Value → Map Str → Map Str
  given_headers [] h = h
  given_headers ((k, v) ∷ m) h = given_headers m (insert (rt.canonical k) (rt.sprint v) h)

  abbrev pub or_empty : Option (Map Value) → Map Value
  or_empty none = []
  or_empty (some m) = m

  abbrev pub error_flag : ℕ → Map Value
  error_flag status = if leb 400 status then (lit "isError", bool true) ∷ [] else []

  unfoldable pub answer_result : Result HttpAnswer → Value
  answer_result (err e) = error_result (lit "request failed: " ++ e)
  answer_result (ok a) = elim a.body [
    | err e ↦ error_result (lit "failed to read response body: " ++ e)
    | ok body ↦ object (
        fields (
          (lit "content", text_content body)
          ∷ (lit "status", int a.status)
          ∷ (lit "headers", header a.header)
          ∷ error_flag a.status))
  ]

  module _ (config : ToolConfig) where
    unfoldable pub target_url : Map Value → Str
    target_url args =
        let given = text_at (lit "url") args in
        if given == [] then http_text (λ h. h.url) config.http else given

    unfoldable pub http_method : Map Value → Str
    http_method args =
        let given = text_at (lit "method") args in
        let configured = http_text (λ h. rt.expand_env h.method) config.http in
        let chosen = if given == [] then configured else given in
        if chosen == [] then lit "GET" else chosen

    unfoldable pub full_query : Map Value → Query → Query
    full_query args q =
        let configured = add_configured (http_list (λ h. h.query_params) config.http) q in
        let explicit =
          add_explicit (or_empty (assert_at as_object (lit "query_params") args)) configured in
        if http_method args == lit "GET" then add_arguments args explicit else explicit

    unfoldable pub http_call : Map Value → rt.Url → HttpCall
    http_call args u = record {
      method = http_method args;
      url = rt.url_text u (full_query args (rt.query u));
      header =
          given_headers (or_empty (assert_at as_object (lit "headers") args))
            (configured_headers (http_list (λ h. h.headers) config.http) []);
      body = request_body (http_method args) args;
      timeout = effective_timeout rt config default_http_timeout;
    }

    abbrev pub send_call : HttpCall → Option Str → List HttpCall × Value
    send_call call (some e) = ([], error_result (lit "failed to create request: " ++ e))
    send_call call none = (call ∷ [], answer_result (rt.send call))

    abbrev pub parsed : Map Value → Result rt.Url → List HttpCall × Value
    parsed args (err e) = ([], error_result (lit "invalid URL: " ++ e))
    parsed args (ok u) =
        send_call (http_call args u)
          (rt.new_request (http_call args u).method (http_call args u).url)

    unfoldable pub handle_url : Map Value → Str → List HttpCall × Value
    handle_url args url =
        if not (url_allowed (http_list (λ h. h.allowed_url_prefixes) config.http) url)
        then (
          [],
          error_result (lit "URL " ++ (rt.quote url ++ lit " does not match any allowed prefix")),
        )
        else parsed args (rt.parse_url url)

    unfoldable pub handle : Map Value → List HttpCall × Value
    handle args =
        let url = target_url args in
        if url == []
        then ([], error_result (lit "missing mandatory parameter: url"))
        else handle_url args (rt.expand_env url)
