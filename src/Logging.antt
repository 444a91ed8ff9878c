-- ===== src/Logging.antt =====
-- internal/logging/logging.go: the log level and the cleaning of logged texts.
mod Tests
use jig_mcp.Prelude.{
  ℕ, Str, lit, Option, none, some, List, [], ◌∷◌, ◌++◌, Bool, true, false, ◌||◌, if◌then◌else◌,
  ◌==◌, eqb, trim_space, to_lower, has_byte, ◌≡◌, ◌≢◌, refl, inl, inr, Bool-cases, arith,
}
use jig_mcp.Prelude.Result.{Result, ok, err}

pub data Level : Type 0 where
  debug info warn error : Level

-- `quote` is the verb %q.
unfoldable pub parse_log_level : (Str → Str) → Str → Result Level
parse_log_level quote s =
    let t = to_lower (trim_space s) in
    if t == lit "debug"
    then ok debug
    else if (t == lit "info") || (t == [])
    then ok info
    else if (t == lit "warn") || (t == lit "warning")
    then ok warn
    else if t == lit "error"
    then ok error
    else err (lit "unknown log level: " ++ quote s)

abbrev or_info : Result Level → Level
or_info (ok l) = l
or_info (err e) = info

-- The level that InitLogging sets for JIG_LOG_LEVEL.
unfoldable pub init_level : (Str → Str) → Str → Level
init_level quote v = if v == [] then info else or_info (parse_log_level quote v)

-- strings.Map over a text in UTF-8: no byte of a longer rune is a line feed or a carriage return.
unfoldable pub sanitize : Str → Str
sanitize [] = []
sanitize (c ∷ v) = let rest = sanitize v in if eqb c 10 || eqb c 13 then rest else c ∷ rest

-- `b := struct{ safe T }{safe: v}`
pub record Safe {ℓ} (A : Type ℓ) : Type ℓ where
  pub safe : A

unfoldable pub untaint {ℓ} : {A : Type ℓ} → A → A
untaint {A} v = let b : Safe A = record { safe = v } in b.safe

-- What is logged has no line feed and no carriage return, and a text without those
-- bytes is kept as it is.
sanitize_lem :
    (v : Str)
    → (has_byte 10 (sanitize v) ≡ false)
      × (has_byte 13 (sanitize v) ≡ false)
      × ((has_byte 10 v ≡ false) → (has_byte 13 v ≡ false) → sanitize v ≡ v)
unfolding sanitize has_byte
sanitize_lem [] = (refl, refl, λ a b. refl)
sanitize_lem (c ∷ v) =
    let (no_lf, no_cr, kept) = sanitize_lem v in
    (ground (arith, no_lf), ground (arith, no_cr), λ a b. ground (arith, a, b, kept))
