-- ===== src/Audit/Redact/Laws.antt =====
-- Sensitive arguments do not reach the audit log.
use jig_mcp.Prelude.{
  Str, lit, Map, none, some, [], ◌∷◌, true, false, if◌then◌else◌, lookup, ◌==◌, eq_iff, eq_refl,
  ◌∙◌, ◌≡◌, ◌⊎◌, inl, inr, refl, ap, arith, Bool-cases, Option-cases,
}
use mathlib.Core.Option
use jig_mcp.Value.{Value, as_object, as_bool, assert_at}
use jig_mcp.Tools.Base.{ToolDef}
use jig_mcp.Audit.Redact.{
  redacted, is_sensitive, redact_with, schema_of, properties_of, redact_arguments,
}

-- The schema of the tool marks the argument as sensitive.
pub record IsSensitive (def : ToolDef) (k : Str) : Type 0 where
  pub properties : Map Value
  pub has_properties :
      assert_at as_object (lit "properties") (schema_of def.input_schema) ≡ some properties
  pub prop : Map Value
  pub has_prop : assert_at as_object k properties ≡ some prop
  pub marked : assert_at as_bool (lit "sensitive") prop ≡ some true

-- Two lists of arguments have the same keys in the same order, and differ at most in the values of
-- sensitive ones.
abbrev pub AgreeOnPublic : ToolDef → Map Value → Map Value → Type 0
AgreeOnPublic def [] [] = Unit
AgreeOnPublic def [] (_ ∷ _) = ⊥
AgreeOnPublic def (_ ∷ _) [] = ⊥
AgreeOnPublic def ((k, v) ∷ m) ((j, w) ∷ n) =
    (k ≡ j) × ((v ≡ w) ⊎ IsSensitive def k) × AgreeOnPublic def m n

is_sensitive_lem :
    (def : ToolDef) (props : Map Value) (k : Str)
    → properties_of def ≡ some props
    → IsSensitive def k
    → is_sensitive props k ≡ true
unfolding is_sensitive
is_sensitive_lem def props k e s =
    let same : props ≡ s.properties = cc (e, s.has_properties) in
    rw same (rw s.has_prop (rw s.marked))

redact_with_agree :
    (def : ToolDef) (props : Map Value) (m n : Map Value)
    → properties_of def ≡ some props
    → AgreeOnPublic def m n
    → redact_with props m ≡ redact_with props n
unfolding redact_with
redact_with_agree def props [] [] e h = refl
redact_with_agree def props [] (_ ∷ _) e h = absurd h
redact_with_agree def props (_ ∷ _) [] e h = absurd h
redact_with_agree def props ((k, v) ∷ m) ((j, w) ∷ n) e (kj, inl vw, h) =
    cc (kj, vw, redact_with_agree def props m n e h)
redact_with_agree def props ((k, v) ∷ m) ((j, w) ∷ n) e (kj, inr s, h) = rw (← kj) (
    rw (is_sensitive_lem def props k e s)
      (ap (λ (r : Map Value). (k, redacted) ∷ r) (redact_with_agree def props m n e h)))

agree_of_no_properties :
    (def : ToolDef) (m n : Map Value) → properties_of def ≡ none → AgreeOnPublic def m n → m ≡ n
agree_of_no_properties def [] [] e h = refl
agree_of_no_properties def [] (_ ∷ _) e h = absurd h
agree_of_no_properties def (_ ∷ _) [] e h = absurd h
agree_of_no_properties def ((k, v) ∷ m) ((j, w) ∷ n) e (kj, inl vw, h) =
    cc (kj, vw, agree_of_no_properties def m n e h)
agree_of_no_properties def ((k, v) ∷ m) ((j, w) ∷ n) e (kj, inr s, h) =
    absurd (ground (arith, s.has_properties))

-- What is logged of the arguments does not depend on the values of sensitive ones: calls that agree on
-- everything else are logged alike.
pub redact_arguments_noninterference :
    (def : ToolDef) (m n : Map Value)
    → AgreeOnPublic def m n
    → redact_arguments def m ≡ redact_arguments def n
unfolding redact_arguments
redact_arguments_noninterference def m n h = elim (Option-cases (properties_of def)) [
  | inl missing ↦ rw missing (agree_of_no_properties def m n missing h)
  | inr (props, found) ↦ rw found (redact_with_agree def props m n found h)
]

redact_with_lem :
    (props m : Map Value) (k : Str)
    → lookup k (redact_with props m)
      ≡ (if is_sensitive props k then Option.map (λ v. redacted) (lookup k m) else lookup k m)
unfolding redact_with lookup
redact_with_lem props [] k = ground arith
redact_with_lem props ((j, v) ∷ m) k = elim (Bool-cases (j == k)) [
  | inl e ↦ rw ((eq_iff j k).0 e, eq_refl k) (ground arith)
  | inr e ↦ rw e (redact_with_lem props m k)
]

module _ (def : ToolDef) (m : Map Value) (k : Str) where
  not_sensitive_lem :
      (props : Map Value)
      → properties_of def ≡ some props
      → ¬ IsSensitive def k
      → is_sensitive props k ≡ false
  unfolding is_sensitive
  not_sensitive_lem props e h = elim (Option-cases (assert_at as_object k props)) [
    | inl missing ↦ rw missing
    | inr (prop, found) ↦ elim (Option-cases (assert_at as_bool (lit "sensitive") prop)) [
      | inl unset ↦ rw (found, unset)
      | inr (true, marked) ↦ absurd (
          h (record {
            properties = props;
            has_properties = e;
            prop = prop;
            has_prop = found;
            marked = marked;
          }))
      | inr (false, marked) ↦ rw (found, marked)
    ]
  ]

  redact-sensitive :
      IsSensitive def k
      → lookup k (redact_arguments def m) ≡ Option.map (λ v. redacted) (lookup k m)
  unfolding redact_arguments
  redact-sensitive s = rw s.has_properties (
      redact_with_lem s.properties m k
      ∙ rw (is_sensitive_lem def s.properties k s.has_properties s))

  redact-public : ¬ IsSensitive def k → lookup k (redact_arguments def m) ≡ lookup k m
  unfolding redact_arguments
  redact-public h = elim (Option-cases (properties_of def)) [
    | inl missing ↦ rw missing
    | inr (props, found) ↦
        rw found (redact_with_lem props m k ∙ rw (not_sensitive_lem props found h))
  ]

  -- The log shows "[REDACTED]" for each argument that the schema marks as sensitive, and the value of each
  -- argument that it does not mark.
  pub redact_arguments_lem :
      (IsSensitive def k
        → lookup k (redact_arguments def m) ≡ Option.map (λ v. redacted) (lookup k m))
      × (¬ IsSensitive def k → lookup k (redact_arguments def m) ≡ lookup k m)
  redact_arguments_lem = (redact-sensitive, redact-public)
