-- ===== src/Auth/Tokens/Lookup.antt =====
-- Which name a candidate token is resolved to.
use jig_mcp.Prelude.{
  Str, true, false, ◌==◌, eq_iff, ◌≡◌, ◌≢◌, ◌↔◌, refl, List, [], ◌∷◌, arith, Bool-cases, inl, inr,
}
use jig_mcp.Auth.Tokens.{TokenEntry, TokenRegistry, lookup_entries, lookup_token}

-- `n` is the name of the first entry whose token is `c`.
pub data IsFirstOwner (c n : Str) : List TokenEntry → Type 0 where
  here :
      {e : TokenEntry} {es : List TokenEntry} → e.token ≡ c → e.name ≡ n → IsFirstOwner c n (e ∷ es)
  later :
      {e : TokenEntry} {es : List TokenEntry}
      → e.token ≢ c
      → IsFirstOwner c n es
      → IsFirstOwner c n (e ∷ es)

lookup_sound :
    (c n : Str) (es : List TokenEntry) → lookup_entries c es ≡ (n, true) → IsFirstOwner c n es
unfolding lookup_entries
lookup_sound c n [] h = absurd (ground arith)
lookup_sound c n (e ∷ es) h = elim (Bool-cases (c == e.token)) [
  | inl same ↦ here (ground (arith, eq_iff c e.token)) (ground arith)
  | inr other ↦ later (ground (arith, eq_iff c e.token)) (lookup_sound c n es (rw other at h))
]

lookup_complete :
    {c n : Str} {es : List TokenEntry} → IsFirstOwner c n es → lookup_entries c es ≡ (n, true)
unfolding lookup_entries
lookup_complete {c} (here {e} p q) = ground (arith, eq_iff c e.token)
lookup_complete {c} (later {e} {es} p o) = ground (arith, eq_iff c e.token, lookup_complete o)

lookup-none_of :
    (c : Str) (es : List TokenEntry)
    → ((n : Str) → ¬ IsFirstOwner c n es)
    → lookup_entries c es ≡ ([], false)
unfolding lookup_entries
lookup-none_of c [] h = refl
lookup-none_of c (e ∷ es) h = elim (Bool-cases (c == e.token)) [
  | inl same ↦ absurd (h e.name (here (ground (arith, eq_iff c e.token)) refl))
  | inr other ↦
      rw other (lookup-none_of c es (λ n o. h n (later (ground (arith, eq_iff c e.token)) o)))
]

-- A candidate resolves to a name exactly if it is the token of an entry, and then to the name of the
-- first such entry; a candidate that no entry has gives ("", false).
pub lookup_token_lem :
    (tr : TokenRegistry) (c : Str)
    → ((n : Str) → (lookup_token tr c ≡ (n, true)) ↔ IsFirstOwner c n tr.entries)
      × (((n : Str) → ¬ IsFirstOwner c n tr.entries) → lookup_token tr c ≡ ([], false))
unfolding lookup_token
lookup_token_lem tr c =
    (λ n. (lookup_sound c n tr.entries, lookup_complete), lookup-none_of c tr.entries)
