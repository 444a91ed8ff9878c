-- ===== src/Tools/External/Images.antt =====
-- The images of a result's content.
use jig_mcp.Prelude.{
  ◌⊎◌, Str, lit, Map, Option, none, some, List, [], ◌∷◌, ◌≡◌, ◌≢◌, refl, arith, eq_iff,
  Option-cases, inl, inr, All,
}
use jig_mcp.Value.{Value, object, fields, as_list, as_object, assert_at, text_at}
use jig_mcp.Tools.Runtime.{Runtime}
use jig_mcp.Tools.Base.{error_result}
use jig_mcp.Tools.External.{item_error, content_error, checked, base64_failure, object_error}

-- If the item is an object whose type is "image", it has data, and the data is valid base64.
abbrev pub HasValidImage : Runtime → Value → Type 0
HasValidImage rt v =
    (m : Map Value)
    → as_object v ≡ some m
    → text_at (lit "type") m ≡ lit "image"
    → (text_at (lit "data") m ≢ []) × (rt.base64_error (text_at (lit "data") m) ≡ none)

module _ (rt : Runtime) where
  base64_failure-none : (o : Option Str) → base64_failure rt o ≡ none → o ≡ none
  base64_failure-none none h = refl
  base64_failure-none (some e) h = cc

  object_error_sound :
      (m : Map Value)
      → object_error rt (some m) ≡ none
      → text_at (lit "type") m ≡ lit "image"
      → (text_at (lit "data") m ≢ []) × (rt.base64_error (text_at (lit "data") m) ≡ none)
  object_error_sound m h image = ground (
    arith,
    eq_iff (text_at (lit "type") m) (lit "image"),
    eq_iff (text_at (lit "data") m) [],
    base64_failure-none (rt.base64_error (text_at (lit "data") m)),
  )

  item_error_sound : (v : Value) → item_error rt v ≡ none → HasValidImage rt v
  unfolding item_error
  item_error_sound v h m e image = object_error_sound m (rw e at h) image

  content_error_sound : (vs : List Value) → content_error rt vs ≡ none → All (HasValidImage rt) vs
  unfolding content_error
  content_error_sound [] h = tt
  content_error_sound (v ∷ vs) h = elim (Option-cases (item_error rt v)) [
    | inl fine ↦ (item_error_sound v fine, content_error_sound vs (rw fine at h))
    | inr (e, bad) ↦ absurd (ground arith)
  ]

  -- An object with a list of content is returned as it is only if each of its images has data in valid
  -- base64; otherwise the result is an error.
  checked-HasValidImage :
      (resp : Map Value) (vs : List Value)
      → assert_at as_list (lit "content") resp ≡ some vs
      → ((checked rt resp ≡ object (fields resp)) × All (HasValidImage rt) vs)
        ⊎ ((e : Str) × (content_error rt vs ≡ some e) × (checked rt resp ≡ error_result e))
  unfolding checked
  checked-HasValidImage resp vs found = elim (Option-cases (content_error rt vs)) [
    | inl fine ↦ inl (rw (found, fine), content_error_sound vs fine)
    | inr (e, bad) ↦ inr (e, bad, rw (found, bad))
  ]
