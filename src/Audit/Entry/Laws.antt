-- ===== src/Audit/Entry/Laws.antt =====
-- What an entry says of the result of its call.
use jig_mcp.Prelude.{
  ℕ, Str, lit, Map, none, some, [], ◌∷◌, true, false, ◌==◌, eq_iff, lookup, ◌≡◌, ◌≢◌, refl, arith,
  Bool-cases, inl, inr,
}
use jig_mcp.Value.{Value, as_object}
use jig_mcp.Tools.Base.{ToolDef, error_result, text_result}
use jig_mcp.Audit.Entry.{entry, failed, error_message, error_field, message_of_object}

error_of_failure : (m : Str) → (e : Str) × (e ≢ []) × (error_field true m ≡ some e)
error_of_failure [] = (lit "unknown error", (λ h. cc), unfold ◌==◌ in refl)
error_of_failure (c ∷ m) = (c ∷ m, (λ h. cc), unfold ◌==◌ in refl)

module _ (now name : Str) (args : Map Value) (ms : ℕ) (def : ToolDef) (caller : Str) where
  -- An entry has an error exactly if it is a failure, and this error is not empty.
  pub entry-error_iff :
      (result : Value)
      → ((entry now name args ms result def caller).success ≡ true
          → (entry now name args ms result def caller).error ≡ none)
        × ((entry now name args ms result def caller).success ≡ false
            → (e : Str) × (e ≢ []) × ((entry now name args ms result def caller).error ≡ some e))
  unfolding entry error_message ◌==◌
  entry-error_iff result = elim (Bool-cases (failed result)) [
    | inl bad ↦ rw bad (λ h. cc, λ h. error_of_failure (message_of_object (as_object result)))
    | inr fine ↦ rw fine (λ h. refl, λ h. cc)
  ]

  -- An error result that a handler builds is logged as a failure with its message, and a text result as
  -- a success without one.
  entry_of_results :
      (msg : Str)
      → msg ≢ []
      → ((entry now name args ms (error_result msg) def caller).success ≡ false)
        × ((entry now name args ms (error_result msg) def caller).error ≡ some msg)
        × ((entry now name args ms (text_result msg) def caller).success ≡ true)
        × ((entry now name args ms (text_result msg) def caller).error ≡ none)
  unfolding entry failed error_message error_result text_result lookup ◌==◌
  entry_of_results msg given = (refl, ground (arith, eq_iff msg []), refl, refl)
