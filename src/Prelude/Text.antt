-- ===== src/Prelude/Text.antt =====
-- Go's strings and byte slices as lists of bytes, and what the program uses of package strings.
-- Letter case is that of ASCII text.
use Prim.Native.Nat.{ℕ, zero, suc, ◌+◌, ◌-◌, ◌*◌}
use Prim.Native.Char.{code}
use Prim.Native.String.{String}
use mathlib.Core.Path.{◌≡◌, refl, ap}
use mathlib.Core.Logic.{◌≢◌, ◌↔◌}
use mathlib.Core.List.{List, [], ◌∷◌, map}
use mathlib.Core.Bool.{Bool, true, false, ◌&&◌, ◌||◌}
use mathlib.Core.Option.{Option, none, some}
use native.Mathlib.Omega.{arith}
use jig_mcp.Prelude.Tests.{leb, ltb, eqb, if◌then◌else◌}
use jig_mcp.Prelude.Lists.{any, length}

abbrev pub Str : Type 0
Str = List ℕ

-- The bytes of an ASCII literal.
abbrev pub lit : String → Str
lit String.[] = []
lit (String.◌∷◌ c s) = code c ∷ lit s

infix 50 ◌==◌
unfoldable pub ◌==◌ : Str → Str → Bool
[] == [] = true
(a ∷ s) == (b ∷ t) = eqb a b && s == t
_ == _ = false

pub eq_refl : (s : Str) → (s == s) ≡ true
unfolding ◌==◌
eq_refl [] = refl
eq_refl (a ∷ s) = ground (arith, eq_refl s)

pub eq_sound : (s t : Str) → (s == t) ≡ true → s ≡ t
unfolding ◌==◌
eq_sound [] [] h = refl
eq_sound [] (b ∷ t) h = cc
eq_sound (a ∷ s) [] h = cc
eq_sound (a ∷ s) (b ∷ t) h = ground (arith, eq_sound s t)

pub eq_iff : (s t : Str) → ((s == t) ≡ true) ↔ (s ≡ t)
eq_iff s t = (eq_sound s t, λ e. cc (eq_refl s, ap (λ u. s == u) e))

pub ne_of_test : (s t : Str) → (s == t) ≡ false → s ≢ t
ne_of_test s t h e = cc (h, (eq_iff s t).1 e)

-- strings.HasPrefix
unfoldable pub has_prefix : Str → Str → Bool
has_prefix s [] = true
has_prefix [] (b ∷ p) = false
has_prefix (a ∷ s) (b ∷ p) = eqb a b && has_prefix s p

-- strings.Contains
unfoldable pub contains : Str → Str → Bool
contains [] p = has_prefix [] p
contains (a ∷ s) p = has_prefix (a ∷ s) p || contains s p

-- Whether a byte occurs in a text: strings.ContainsAny tests the bytes of its second argument.
unfoldable pub has_byte : ℕ → Str → Bool
has_byte c [] = false
has_byte c (a ∷ s) = eqb a c || has_byte c s

unfoldable pub contains_any : Str → Str → Bool
contains_any s chars = any (λ c. has_byte c s) chars

-- strings.Split at a separator of one byte; `cur` is the reverse of the part read so far.
abbrev pub push_front : ℕ → List Str → List Str
push_front a [] = (a ∷ []) ∷ []
push_front a (p ∷ ps) = (a ∷ p) ∷ ps

unfoldable pub split : ℕ → Str → List Str
split sep [] = [] ∷ []
split sep (a ∷ s) = let rest = split sep s in if eqb a sep then [] ∷ rest else push_front a rest

-- strings.SplitN(s, sep, 2): one part if the separator is missing, else the parts around the first.
abbrev pub push_left : ℕ → Option (Str × Str) → Option (Str × Str)
push_left a none = none
push_left a (some (l, r)) = some (a ∷ l, r)

unfoldable pub cut : ℕ → Str → Option (Str × Str)
cut sep [] = none
cut sep (a ∷ s) = let rest = cut sep s in if eqb a sep then some ([], s) else push_left a rest

-- The length in bytes of the white space rune of Unicode that a text in UTF-8 begins with, or 0: ASCII white
-- space, U+0085 and U+00A0, and U+1680, U+2000 to U+200A, U+2028, U+2029, U+202F, U+205F and U+3000.
abbrev pub is_space : ℕ → Bool
is_space c = eqb c 32 || (leb 9 c && leb c 13)

abbrev is_space_of_two : ℕ → ℕ → Bool
is_space_of_two a b = eqb a 0xc2 && (eqb b 0x85 || eqb b 0xa0)

abbrev is_space_of_three : ℕ → ℕ → ℕ → Bool
is_space_of_three a b c =
    (eqb a 0xe1 && eqb b 0x9a && eqb c 0x80)
    || (eqb a 0xe2
        && eqb b 0x80
        && ((leb 0x80 c && leb c 0x8a) || eqb c 0xa8 || eqb c 0xa9 || eqb c 0xaf))
    || (eqb a 0xe2 && eqb b 0x81 && eqb c 0x9f)
    || (eqb a 0xe3 && eqb b 0x80 && eqb c 0x80)

unfoldable pub space_width : Str → ℕ
space_width [] = 0
space_width (a ∷ []) = if is_space a then 1 else 0
space_width (a ∷ b ∷ []) = if is_space a then 1 else if is_space_of_two a b then 2 else 0
space_width (a ∷ b ∷ c ∷ s) =
    if is_space a
    then 1
    else if is_space_of_two a b
    then 2
    else if is_space_of_three a b c
    then 3
    else 0

-- The text without the first `n` bytes, and without the white space that follows them.
unfoldable pub trim_from : ℕ → Str → Str
trim_from n [] = []
trim_from zero (a ∷ s) =
    let rest = trim_from (space_width (a ∷ s) - 1) s in
    if eqb (space_width (a ∷ s)) 0 then a ∷ s else rest
trim_from (suc n) (a ∷ s) = trim_from n s

abbrev pub trim_left : Str → Str
trim_left s = trim_from 0 s

-- A text ends where only white space follows: no encoding of white space is the end of another rune.
unfoldable pub trim_right : Str → Str
trim_right [] = []
trim_right (a ∷ s) = let rest = trim_right s in if trim_left (a ∷ s) == [] then [] else a ∷ rest

-- strings.TrimSpace
unfoldable pub trim_space : Str → Str
unfolding space_width trim_from trim_right ◌==◌
trim_space s = trim_right (trim_left s)

-- The lines that a bufio.Scanner gives of a text: without the carriage return at the end, and without an
-- empty last one. It stops at the first line that does not fit with its end into 64 KB.
abbrev pub max_line : ℕ
max_line = 64 * 1024 - 1

unfoldable pub drop_cr : Str → Str
drop_cr [] = []
drop_cr (c ∷ []) = if eqb c 13 then [] else c ∷ []
drop_cr (c ∷ d ∷ s) = c ∷ drop_cr (d ∷ s)

unfoldable pub scan_parts : List Str → List Str
scan_parts [] = []
scan_parts (l ∷ []) = if l == [] || ltb max_line (length l) then [] else drop_cr l ∷ []
scan_parts (l ∷ k ∷ ks) =
    let rest = scan_parts (k ∷ ks) in if ltb max_line (length l) then [] else drop_cr l ∷ rest

unfoldable pub scan_lines : Str → List Str
scan_lines s = scan_parts (split b'\n' s)

-- strings.ToLower
unfoldable pub to_lower : Str → Str
to_lower = map (λ c. if leb b'A' c && leb c b'Z' then c + 32 else c)
