-- ===== src/Tools/Http/Laws.antt =====
-- What the arguments of a call contribute to the request.
use jig_mcp.Prelude.{
  Str, Map, none, some, [], ◌∷◌, true, false, ◌≡◌, refl, ◌∙◌, arith, ◌==◌, eq_iff, lookup,
  lookup-insert, Bool-cases, inl, inr,
}
use jig_mcp.Prelude.Result.{Result, ok, err}
use jig_mcp.Value.{Value, null, bool, float, int, text, list, maps, object, header}
use jig_mcp.Tools.Runtime.{Runtime}
use jig_mcp.Tools.Http.{
  Query, values_set, is_reserved, is_null, body_map, add_argument, add_arguments, set_if_ok,
}

module _ (rt : Runtime) where
  -- The body that is built from the arguments has no reserved argument, and keeps the value of every other
  -- argument that is not nil.
  body_map_lem :
      (args : Map Value) (k : Str)
      → (is_reserved k ≡ true → lookup k (body_map rt args) ≡ none)
        × ((v : Value)
            → is_reserved k ≡ false
            → is_null rt v ≡ false
            → lookup k args ≡ some v
            → lookup k (body_map rt args) ≡ some v)
  unfolding body_map lookup
  body_map_lem [] k = (λ r. refl, λ v r n h. h)
  body_map_lem ((j, w) ∷ args) k =
      let (drops, keeps) = body_map_lem args k in
      (λ r. ground (arith, eq_iff j k, drops), λ v r n h. ground (arith, eq_iff j k, keeps v))

  set_ne :
      (k j : Str) (s : Str) (q : Query)
      → (j == k) ≡ false
      → lookup k (values_set j s q) ≡ lookup k q
  set_ne k j s q d = lookup-insert j k (s ∷ []) q ∙ rw d

  set_if_ok_ne :
      (k j : Str) (r : Result Str) (q : Query)
      → (j == k) ≡ false
      → lookup k (set_if_ok rt j r q) ≡ lookup k q
  set_if_ok_ne k j (ok s) q d = set_ne k j s q d
  set_if_ok_ne k j (err e) q d = refl

  add_argument_ne :
      (k j : Str) (v : Value) (q : Query)
      → (j == k) ≡ false
      → lookup k (add_argument rt j v q) ≡ lookup k q
  unfolding add_argument
  add_argument_ne k j (text s) q d = elim (Bool-cases (s == [])) [
    | inl e ↦ rw e
    | inr e ↦ rw e (set_ne k j s q d)
  ]
  add_argument_ne k j (int n) q d = set_ne k j _ q d
  add_argument_ne k j (float n) q d = set_ne k j _ q d
  add_argument_ne k j (bool b) q d = set_ne k j _ q d
  add_argument_ne k j null q d = refl
  add_argument_ne k j (list vs) q d = set_if_ok_ne k j _ q d
  add_argument_ne k j (maps vs) q d = set_if_ok_ne k j _ q d
  add_argument_ne k j (object vs) q d = set_if_ok_ne k j _ q d
  add_argument_ne k j (header vs) q d = set_if_ok_ne k j _ q d

  differs_of_reserved :
      (j k : Str) → is_reserved k ≡ true → is_reserved j ≡ false → (j == k) ≡ false
  differs_of_reserved j k r s = ground (arith, eq_iff j k)

  -- The reserved arguments url, method, headers, body and query_params of a GET request never become
  -- query parameters: under their names the query is what it was.
  add_arguments-reserved :
      (args : Map Value) (q : Query) (k : Str)
      → is_reserved k ≡ true
      → lookup k (add_arguments rt args q) ≡ lookup k q
  unfolding add_arguments
  add_arguments-reserved [] q k r = refl
  add_arguments-reserved ((j, v) ∷ args) q k r = elim (Bool-cases (is_reserved j)) [
    | inl e ↦ rw e (add_arguments-reserved args q k r)
    | inr e ↦ rw e (
        add_arguments-reserved args (add_argument rt j v q) k r
        ∙ add_argument_ne k j v q (differs_of_reserved j k r e))
  ]
