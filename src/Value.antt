-- ===== src/Value.antt =====
-- Go values of type `any` as the program meets them: what encoding/json decodes, and the maps and
-- slices that the handlers build. `[]any` and `[]map[string]any` are different types for Go's type
-- assertions, and so are two constructors.
use jig_mcp.Prelude.{ℕ, Str, Map, Bool, List, [], ◌∷◌, Option, none, some, lookup, ◌≡◌, refl, ap}

mutual
  pub data Value : Type 0 where
    null : Value
    bool : Bool → Value
    -- a float64, by its 64 bits
    float : ℕ → Value
    int : ℕ → Value
    text : Str → Value
    -- []any
    list : Items → Value
    -- []map[string]any
    maps : Objects → Value
    -- map[string]any
    object : Fields → Value
    -- map[string][]string, the type of http.Header
    header : List (Str × List Str) → Value

  pub data Items : Type 0 where
    nil : Items
    cons : Value → Items → Items

  pub data Objects : Type 0 where
    no_more : Objects
    also : Fields → Objects → Objects

  pub data Fields : Type 0 where
    end : Fields
    field : Str → Value → Fields → Fields

-- The entries of a map, and a map with given entries.
abbrev pub entries : Fields → Map Value
entries end = []
entries (field k v fs) = (k, v) ∷ entries fs

abbrev pub fields : Map Value → Fields
fields [] = end
fields ((k, v) ∷ m) = field k v (fields m)

abbrev pub items : Items → List Value
items nil = []
items (cons v vs) = v ∷ items vs

abbrev pub objects : Objects → List (Map Value)
objects no_more = []
objects (also fs os) = entries fs ∷ objects os

abbrev pub singleton : Value → Items
singleton v = cons v nil

pub entries-fields : (m : Map Value) → entries (fields m) ≡ m
entries-fields [] = refl
entries-fields ((k, v) ∷ m) = ap (λ (r : Map Value). (k, v) ∷ r) (entries-fields m)

-- The type assertions v.(string), v.(bool), v.([]any) and v.(map[string]any), with their ok value.
abbrev pub as_text : Value → Option Str
as_text (text s) = some s
as_text _ = none

abbrev pub as_bool : Value → Option Bool
as_bool (bool b) = some b
as_bool _ = none

abbrev pub as_list : Value → Option (List Value)
as_list (list vs) = some (items vs)
as_list _ = none

abbrev pub as_maps : Value → Option (List (Map Value))
as_maps (maps os) = some (objects os)
as_maps _ = none

abbrev pub as_object : Value → Option (Map Value)
as_object (object fs) = some (entries fs)
as_object _ = none

-- An assertion on the value of a key: a missing key reads as nil, which has none of these types.
abbrev pub assert_at {ℓ} : {A : Type ℓ} → (Value → Option A) → Str → Map Value → Option A
assert_at assertion key m = elim (lookup key m) [ none ↦ none | some v ↦ assertion v ]

-- s, _ := m[key].(string)
unfoldable pub text_at : Str → Map Value → Str
text_at key m = elim (assert_at as_text key m) [ none ↦ [] | some s ↦ s ]
