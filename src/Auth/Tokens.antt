-- ===== src/Auth/Tokens.antt =====
-- internal/auth/auth.go: TokenRegistry, InitTokenRegistry, Lookup, AuthRequired and Clear. The mutex
-- makes each operation one step.
pub mod Lookup
pub mod Parse
use jig_mcp.Prelude.{
  Str, lit, Bool, true, false, not, ◌||◌, ◌==◌, if◌then◌else◌, List, [], ◌∷◌, Option, none, some,
  split, cut, trim_space, is_empty,
}

pub record TokenEntry : Type 0 where
  pub name : Str
  pub token : Str

pub record TokenRegistry : Type 0 where
  pub entries : List TokenEntry

-- The body of the loop of InitTokenRegistry; `none` is its `continue`.
unfoldable pub parse_entry : Str → Option TokenEntry
parse_entry raw =
    let pair = trim_space raw in
    if pair == [] then none else elim (cut b':' pair) [
      | none ↦ none
      | some (name, token) ↦
          if name == [] || token == [] then none else some (record { name = name; token = token })
    ]

abbrev pub keep : Option TokenEntry → List TokenEntry → List TokenEntry
keep none es = es
keep (some e) es = e ∷ es

unfoldable pub parse_entries : List Str → List TokenEntry
parse_entries [] = []
parse_entries (raw ∷ rest) = keep (parse_entry raw) (parse_entries rest)

-- `getenv` is os.Getenv: "" for a variable that is not set.
unfoldable pub init_token_registry : (Str → Str) → TokenRegistry → TokenRegistry
init_token_registry getenv tr =
    let plural = getenv (lit "JIG_AUTH_TOKENS") in
    let single = getenv (lit "JIG_AUTH_TOKEN") in
    let entries = parse_entries (split b',' plural) in
    if not (plural == [])
    then if is_empty entries then tr else record { entries = entries }
    else if not (single == [])
    then record { entries = record { name = lit "default"; token = single } ∷ [] }
    else tr

-- The loop of Lookup. subtle.ConstantTimeCompare is equality of the two byte slices.
unfoldable pub lookup_entries : Str → List TokenEntry → Str × Bool
lookup_entries candidate [] = ([], false)
lookup_entries candidate (e ∷ es) =
    if candidate == e.token then (e.name, true) else lookup_entries candidate es

unfoldable pub lookup_token : TokenRegistry → Str → Str × Bool
unfolding lookup_entries
lookup_token tr candidate = lookup_entries candidate tr.entries

unfoldable pub auth_required : TokenRegistry → Bool
auth_required tr = not (is_empty tr.entries)

unfoldable pub clear : TokenRegistry → TokenRegistry
clear tr = record { entries = [] }
