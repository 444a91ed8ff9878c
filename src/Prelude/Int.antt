-- ===== src/Prelude/Int.antt =====
-- Go's int over the native numbers, under the library's names (its ℤ stands on the unary ℕ). A value
-- is kept as the integer that it stands for.
use Prim.Native.Nat.{ℕ, suc, ◌+◌, ◌-◌, ◌%◌, ◌^◌, ◌≤◌}
use mathlib.Core.Bool.{Bool}
use jig_mcp.Prelude.Tests.{if◌then◌else◌, leb}

-- `negsuc n` is -(n + 1).
pub data ℤ : Type 0 where
  pos : ℕ → ℤ
  negsuc : ℕ → ℤ

abbrev pub pos_part : ℤ → ℕ
pos_part (pos n) = n
pos_part (negsuc n) = 0

abbrev pub neg_part : ℤ → ℕ
neg_part (pos n) = 0
neg_part (negsuc n) = suc n

infix 50 ◌≤ℤ◌
abbrev pub ◌≤ℤ◌ : ℤ → ℤ → Type 0
a ≤ℤ b = pos_part a + neg_part b ≤ pos_part b + neg_part a

abbrev pub leb_ℤ : ℤ → ℤ → Bool
leb_ℤ a b = leb (pos_part a + neg_part b) (pos_part b + neg_part a)

-- The conversions uint32(x) and uint64(x): the value modulo 2 ^ w.
abbrev pub to_uint : ℕ → ℤ → ℕ
to_uint w (pos n) = n % 2 ^ w
to_uint w (negsuc n) = (2 ^ w - suc n % 2 ^ w) % 2 ^ w

-- a - b, as an integer.
abbrev pub sub_ℕ : ℕ → ℕ → ℤ
sub_ℕ a b = if leb b a then pos (a - b) else negsuc (b - a - 1)
