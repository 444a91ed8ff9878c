-- ===== src/Auth/Tokens/Parse.antt =====
-- What InitTokenRegistry stores for the values of JIG_AUTH_TOKENS and JIG_AUTH_TOKEN.
use jig_mcp.Prelude.{
  if◌then◌else◌, is_empty, Str, lit, false, ◌==◌, eq_iff, ◌≡◌, ◌≢◌, refl, List, [], ◌∷◌, ◌++◌, some,
  arith, Bool-cases, Option-cases, inl, inr, All, has_byte, split, cut, trim_space, split_of_no_sep,
  split-append, cut-append, cut_sound, has_byte-append, append-ne-nil,
}
use jig_mcp.Auth.Tokens.{
  TokenEntry, TokenRegistry, parse_entry, parse_entries, init_token_registry, lookup_token,
}
use jig_mcp.Auth.Tokens.Lookup.{IsFirstOwner, here, later, lookup_token_lem}

-- The form "name:token" of an entry, and the value of JIG_AUTH_TOKENS for a list of them.
abbrev pub pair_text : TokenEntry → Str
pair_text e = e.name ++ (b':' ∷ e.token)

abbrev pub tokens_text : List TokenEntry → Str
tokens_text [] = []
tokens_text (e ∷ []) = pair_text e
tokens_text (e ∷ f ∷ es) = pair_text e ++ (b',' ∷ tokens_text (f ∷ es))

-- An entry that the format can hold: both parts are there, the name has no colon, neither has a comma,
-- and the pair has no white space at its ends.
pub record IsWritable (e : TokenEntry) : Type 0 where
  pub named : e.name ≢ []
  pub tokened : e.token ≢ []
  pub no_colon : has_byte b':' e.name ≡ false
  pub name_no_comma : has_byte b',' e.name ≡ false
  pub token_no_comma : has_byte b',' e.token ≡ false
  pub no_space_around : trim_space (pair_text e) ≡ pair_text e

parse_entry-pair : (e : TokenEntry) → IsWritable e → parse_entry (pair_text e) ≡ some e
unfolding parse_entry
parse_entry-pair e w = ground (
  arith,
  w.no_space_around,
  cut-append b':' e.name e.token w.no_colon,
  eq_iff (pair_text e) [],
  eq_iff e.name [],
  eq_iff e.token [],
  w.named,
  w.tokened,
)

pair-no_comma : (e : TokenEntry) → IsWritable e → has_byte b',' (pair_text e) ≡ false
unfolding has_byte
pair-no_comma e w =
    rw (has_byte-append b',' e.name (b':' ∷ e.token))
      (ground (arith, w.name_no_comma, w.token_no_comma))

parse_entries-text :
    (e : TokenEntry) (es : List TokenEntry)
    → All IsWritable (e ∷ es)
    → parse_entries (split b',' (tokens_text (e ∷ es))) ≡ e ∷ es
unfolding parse_entries
parse_entries-text e [] (w, _) =
    rw (split_of_no_sep b',' (pair_text e) (pair-no_comma e w)) (rw (parse_entry-pair e w))
parse_entries-text e (f ∷ es) (w, ws) =
    rw (split-append b',' (pair_text e) (tokens_text (f ∷ es)) (pair-no_comma e w))
      (rw (parse_entry-pair e w, parse_entries-text f es ws))

tokens_text-ne-nil :
    (e : TokenEntry) (es : List TokenEntry) → IsWritable e → tokens_text (e ∷ es) ≢ []
tokens_text-ne-nil e [] w h = absurd (append-ne-nil e.name b':' e.token h)
tokens_text-ne-nil e (f ∷ es) w h =
    absurd (append-ne-nil (pair_text e) b',' (tokens_text (f ∷ es)) h)

-- For a list of at least one entry, each of which the format can hold, if JIG_AUTH_TOKENS is the list
-- written as "name1:token1,name2:token2", then the registry holds exactly this list, in this order.
pub init_token_registry-tokens_text :
    (getenv : Str → Str) (tr : TokenRegistry) (e : TokenEntry) (es : List TokenEntry)
    → All IsWritable (e ∷ es)
    → getenv (lit "JIG_AUTH_TOKENS") ≡ tokens_text (e ∷ es)
    → (init_token_registry getenv tr).entries ≡ e ∷ es
unfolding init_token_registry
init_token_registry-tokens_text getenv tr e es ws set =
    rw (set, parse_entries-text e es ws)
      (ground (arith, tokens_text-ne-nil e es ws.0, eq_iff (tokens_text (e ∷ es)) []))

-- What every stored entry satisfies.
pub record IsUsable (e : TokenEntry) : Type 0 where
  pub named : e.name ≢ []
  pub tokened : e.token ≢ []
  pub no_colon : has_byte b':' e.name ≡ false

parse_entry-IsUsable : (raw : Str) (e : TokenEntry) → parse_entry raw ≡ some e → IsUsable e
unfolding parse_entry
parse_entry-IsUsable raw e h = elim (Option-cases (cut b':' (trim_space raw))) [
  | inl missing ↦ absurd (ground arith)
  | inr ((name, token), found) ↦
      ground
        (arith, cut_sound b':' (trim_space raw) name token found, eq_iff name [], eq_iff token [])
]

parse_entries-IsUsable : (parts : List Str) → All IsUsable (parse_entries parts)
unfolding parse_entries
parse_entries-IsUsable [] = tt
parse_entries-IsUsable (raw ∷ rest) = elim (Option-cases (parse_entry raw)) [
  | inl skipped ↦ rw skipped (parse_entries-IsUsable rest)
  | inr (e, parsed) ↦ rw parsed (parse_entry-IsUsable raw e parsed, parse_entries-IsUsable rest)
]

default-no_colon : has_byte b':' (lit "default") ≡ false
unfolding has_byte
default-no_colon = refl

abbrev or_fresh : List TokenEntry → TokenRegistry
or_fresh es = if is_empty es then record { entries = [] } else record { entries = es }

keep-IsUsable : (es : List TokenEntry) → All IsUsable es → All IsUsable (or_fresh es).entries
keep-IsUsable [] us = tt
keep-IsUsable (e ∷ es) us = us

-- Whatever the environment, every entry that a fresh registry is given has a name without a colon and
-- a token, and neither is empty.
init_token_registry-IsUsable :
    (getenv : Str → Str)
    → All IsUsable (init_token_registry getenv (record { entries = [] })).entries
unfolding init_token_registry
init_token_registry-IsUsable getenv = elim (Bool-cases (getenv (lit "JIG_AUTH_TOKENS") == [])) [
  | inl unset ↦ elim (Bool-cases (getenv (lit "JIG_AUTH_TOKEN") == [])) [
    | inl no_single ↦ rw (unset, no_single) tt
    | inr single ↦
        rw (unset, single)
          (ground (arith, eq_iff (getenv (lit "JIG_AUTH_TOKEN")) [], default-no_colon), tt)
  ]
  | inr given ↦
      rw given
        (keep-IsUsable _ (parse_entries-IsUsable (split b',' (getenv (lit "JIG_AUTH_TOKENS")))))
]

not-IsFirstOwner_empty : (n : Str) (es : List TokenEntry) → All IsUsable es → ¬ IsFirstOwner [] n es
not-IsFirstOwner_empty n _ us (here p q) = us.0.tokened p
not-IsFirstOwner_empty n _ us (later p o) = not-IsFirstOwner_empty n _ us.1 o

-- Whatever the environment, the empty candidate, which a request without a token has, is never found.
lookup_token-empty :
    (getenv : Str → Str)
    → lookup_token (init_token_registry getenv (record { entries = [] })) [] ≡ ([], false)
lookup_token-empty getenv =
    (lookup_token_lem _ []).1
      (λ n. not-IsFirstOwner_empty n _ (init_token_registry-IsUsable getenv))
