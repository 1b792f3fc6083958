-- ===== src/Cli/Numbers.antt =====
-- The lambdas `parseUInt` and `parseInt` of src/main.cpp, with `strtoull` and `strtoll` of the C
-- standard library at base 10, for 64-bit results.
use Prim.Native.Char.{code}
use Prim.Native.String.{String}
use babel_stream.Prelude.{
  ℕ, ◌+◌, ◌-◌, ◌*◌, ◌%◌, ◌^◌, Bool, true, false, ◌&&◌, ◌||◌, List, [], ◌∷◌, Option, none, some, ltb,
  leb, ◌==◌, if◌then◌else◌,
}

abbrev pub Bytes : Type 0
Bytes = List ℕ

-- The bytes of an ASCII text.
abbrev pub codes : String → Bytes
codes String.[] = []
codes (String.◌∷◌ c s) = code c ∷ codes s

abbrev pub same_bytes : Bytes → Bytes → Bool
same_bytes [] [] = true
same_bytes [] (_ ∷ _) = false
same_bytes (_ ∷ _) [] = false
same_bytes (x ∷ xs) (y ∷ ys) = x == y && same_bytes xs ys

-- `negsuc n` is -(n + 1).
pub data ℤ : Type 0 where
  pos : ℕ → ℤ
  negsuc : ℕ → ℤ

-- `isspace` in the C locale
abbrev pub is_space : ℕ → Bool
is_space c = (leb 9 c && leb c 13) || c == 32

abbrev pub is_digit : ℕ → Bool
is_digit c = leb b'0' c && leb c b'9'

unfoldable pub skip_space : Bytes → Bytes
skip_space [] = []
skip_space (c ∷ s) = let rest = skip_space s in if is_space c then rest else c ∷ s

-- The digits at the front, after `acc`, and the rest.
unfoldable pub read_digits : ℕ → Bytes → ℕ × Bytes
read_digits acc [] = (acc, [])
read_digits acc (c ∷ s) =
    let more = read_digits (10 * acc + (c - b'0')) s in if is_digit c then more else (acc, c ∷ s)

-- A sign and a magnitude; `none` without a digit.
abbrev pub Numeral : Type 0
Numeral = record { negative : Bool; magnitude : ℕ; rest : Bytes }

unfoldable pub read_unsigned : Bool → Bytes → Option Numeral
unfolding read_digits
read_unsigned negative [] = none
read_unsigned negative (c ∷ s) =
    if is_digit c
    then (let (m, rest) = read_digits (c - b'0') s in
        some (record { negative = negative; magnitude = m; rest = rest }))
    else none

abbrev pub read_signed : Bytes → Option Numeral
read_signed [] = none
read_signed (c ∷ s) =
    if c == b'-'
    then read_unsigned true s
    else if c == b'+'
    then read_unsigned false s
    else read_unsigned false (c ∷ s)

-- Out of range the result is the nearest bound. A minus sign negates in the unsigned type.
abbrev pub unsigned_value : Numeral → ℕ
unsigned_value n =
    if ltb n.magnitude (2 ^ 64)
    then (if n.negative then (2 ^ 64 - n.magnitude) % 2 ^ 64 else n.magnitude)
    else 2 ^ 64 - 1

abbrev pub signed_value : Numeral → ℤ
signed_value n =
    if n.negative
    then (if n.magnitude == 0
        then pos 0
        else if leb n.magnitude (2 ^ 63)
        then negsuc (n.magnitude - 1)
        else negsuc (2 ^ 63 - 1))
    else if ltb n.magnitude (2 ^ 63)
    then pos n.magnitude
    else pos (2 ^ 63 - 1)

-- With no digit the result is 0, and `next` is the whole text.
abbrev pub converted : {A : Type 0} → A → (Numeral → A) → Bytes → Option Numeral → A × Bytes
converted nothing value str none = (nothing, str)
converted nothing value str (some n) = (value n, n.rest)

unfoldable pub strtoull : Bytes → ℕ × Bytes
unfolding skip_space read_unsigned
strtoull str = converted 0 unsigned_value str (read_signed (skip_space str))

unfoldable pub strtoll : Bytes → ℤ × Bytes
unfolding skip_space read_unsigned
strtoll str = converted (pos 0) signed_value str (read_signed (skip_space str))

abbrev pub at_end {ℓ} : {A : Type ℓ} → A × Bytes → Option A
at_end (v, []) = some v
at_end (v, _ ∷ _) = none

-- `return !strlen(next);`
unfoldable pub parse_uint : Bytes → Option ℕ
unfolding strtoull
parse_uint str = at_end (strtoull str)

unfoldable pub parse_int : Bytes → Option ℤ
unfolding strtoll
parse_int str = at_end (strtoll str)
