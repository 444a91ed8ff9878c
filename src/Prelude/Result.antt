-- ===== src/Prelude/Result.antt =====
-- A Go result (value, error): the value, or the text of the error.
use jig_mcp.Prelude.Text.{Str}

pub data Result {ℓ} (A : Type ℓ) : Type ℓ where
  ok : A → Result A
  err : Str → Result A

infixl 5 ◌>>=◌
abbrev pub ◌>>=◌ {ℓ κ} : {A : Type ℓ} {B : Type κ} → Result A → (A → Result B) → Result B
ok a >>= f = f a
err e >>= f = err e
