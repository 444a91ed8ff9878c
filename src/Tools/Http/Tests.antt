-- ===== src/Tools/Http/Tests.antt =====
-- The HTTP tool on concrete URLs and arguments.
use jig_mcp.Prelude.{
  lit, Map, some, [], ◌∷◌, true, false, ◌≡◌, refl, ◌==◌, insert, All, has_prefix, contains,
}
use jig_mcp.Value.{Value, text}
use jig_mcp.Config.{ToolConfig, HttpConfig}
use jig_mcp.Tools.Sample.{sample, blank_config}
use jig_mcp.Tools.Http.{
  add_argument, http_list, url_allowed, prefix_allows, target_url, handle, is_reserved,
  add_arguments,
}
use jig_mcp.Tools.Http.Allowed.{IsAllowed, GoesTo, handle-IsAllowed}

abbrev http : HttpConfig
http = record {
  url = [];
  method = [];
  headers = [];
  query_params = [];
  allowed_url_prefixes = lit "${API}" ∷ lit "http://localhost/" ∷ [];
}

abbrev config : ToolConfig
config = record blank_config { http = some http }

abbrev args : Map Value
args = (lit "url", text (lit "http://localhost/x")) ∷ (lit "q", text (lit "1")) ∷ []

prefixes_checked :
    (url_allowed sample http.allowed_url_prefixes (lit "http://localhost/x") ≡ true)
    × (url_allowed sample http.allowed_url_prefixes (lit "http://evil/") ≡ false)
    × (url_allowed sample (lit "${OPT}" ∷ http.allowed_url_prefixes) (lit "http://evil/") ≡ true)
unfolding url_allowed prefix_allows has_prefix contains ◌==◌
prefixes_checked = (refl, refl, refl)

handle-IsAllowed_example :
    All
      (λ c.
        IsAllowed sample
          (http_list (λ h. h.allowed_url_prefixes) config.http)
          (sample.expand_env (target_url sample config args))
        × GoesTo sample config args (sample.expand_env (target_url sample config args)) c)
      (handle sample config args).0
handle-IsAllowed_example = handle-IsAllowed sample config args

arguments_to_query : add_arguments sample args [] ≡ (lit "q", lit "1" ∷ []) ∷ []
unfolding add_arguments add_argument is_reserved insert ◌==◌
arguments_to_query = refl
