-- ===== src/Auth/Tests.antt =====
-- Runs of the token registry and the middleware, and the theorems at concrete inputs.
use jig_mcp.Prelude.{
  some, ℕ, Str, lit, ◌==◌, if◌then◌else◌, [], ◌∷◌, ◌≡◌, refl, has_byte, cut, to_lower, split,
  trim_space,
}
use jig_mcp.Auth.Caller.{background}
use jig_mcp.Auth.Tokens.{
  TokenRegistry, TokenEntry, lookup_token, init_token_registry, parse_entry, parse_entries,
  auth_required,
}
use jig_mcp.Auth.Tokens.Parse.{IsWritable, init_token_registry-tokens_text}
use jig_mcp.Auth.Middleware.{bearer, candidate_token, authenticate}
use jig_mcp.Auth.Middleware.Laws.{Admits, authenticate_lem}
use jig_mcp.Http.{HttpRequest, HttpReply}

abbrev alice : TokenEntry
alice = record { name = lit "alice"; token = lit "s1:x" }

abbrev bob : TokenEntry
bob = record { name = lit "bob"; token = lit "s2" }

abbrev two : TokenRegistry
two = record { entries = alice ∷ bob ∷ [] }

abbrev env : Str → Str
env k = if k == lit "JIG_AUTH_TOKENS" then lit "alice:s1:x,bob:s2" else []

abbrev messy_env : Str → Str
messy_env k = if k == lit "JIG_AUTH_TOKENS" then lit " ,nocolon, :t, bob:s2 ,x:" else []

messy_entries : (init_token_registry messy_env (record { entries = [] })).entries ≡ bob ∷ []
unfolding init_token_registry parse_entries parse_entry split cut trim_space ◌==◌
messy_entries = refl

-- A no-break space is white space.
trimmed_entry : parse_entry (0xc2 ∷ 0xa0 ∷ lit "bob:s2") ≡ some bob
unfolding parse_entry cut trim_space ◌==◌
trimmed_entry = refl

alice-IsWritable : IsWritable alice
unfolding has_byte trim_space
alice-IsWritable = record {
  named = λ e. cc;
  tokened = λ e. cc;
  no_colon = refl;
  name_no_comma = refl;
  token_no_comma = refl;
  no_space_around = refl;
}

bob-IsWritable : IsWritable bob
unfolding has_byte trim_space
bob-IsWritable = record {
  named = λ e. cc;
  tokened = λ e. cc;
  no_colon = refl;
  name_no_comma = refl;
  token_no_comma = refl;
  no_space_around = refl;
}

init_token_registry-tokens_text_example :
    (init_token_registry env (record { entries = [] })).entries ≡ alice ∷ bob ∷ []
unfolding ◌==◌
init_token_registry-tokens_text_example =
    init_token_registry-tokens_text env (record { entries = [] }) alice (bob ∷ [])
      (alice-IsWritable, (bob-IsWritable, tt)) refl

abbrev with_bearer : HttpRequest
with_bearer = record {
  method = lit "GET";
  authorization = lit "BEARER s2";
  query = λ k. [];
  remote_addr = lit "10.0.0.2:4000";
  body = [];
  ctx = background;
}

abbrev status_of : HttpReply → ℕ
status_of reply = reply.status

authenticate_lem_example :
    ((n : Str) → Admits two with_bearer n → authenticate status_of two (λ r. 200) with_bearer ≡ 200)
    × (((n : Str) → ¬ Admits two with_bearer n)
        → authenticate status_of two (λ r. 200) with_bearer ≡ 401)
authenticate_lem_example = authenticate_lem status_of two (λ r. 200) with_bearer

bob_is_admitted : authenticate status_of two (λ r. 200) with_bearer ≡ 200
unfolding authenticate auth_required lookup_token candidate_token bearer cut to_lower ◌==◌
bob_is_admitted = refl

stranger_is_rejected :
    authenticate status_of two (λ r. 200) (record with_bearer { authorization = lit "Basic s2" })
    ≡ 401
unfolding authenticate auth_required lookup_token candidate_token bearer cut to_lower ◌==◌
stranger_is_rejected = refl
