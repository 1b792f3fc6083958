-- ===== src/Cli/Decimal.antt =====
-- Decimal numbers as a user writes them, for `parseUInt` and `parseInt` of src/main.cpp.
use babel_stream.Prelude.{
  ℕ, zero, suc, ◌+◌, ◌-◌, ◌*◌, ◌/◌, ◌%◌, ◌^◌, ◌<◌, ◌≡◌, refl, sym, ap, ◌∙◌, Bool, true, false,
  Bool-cases, inl, inr, [], ◌∷◌, ◌++◌, some, ltb, ◌==◌, lt→ltb, if◌then◌else◌, arith,
}
use mathlib.Core.List.{append_assoc, append-nil}
use babel_stream.Cli.Numbers.{
  Bytes, pos, is_digit, is_space, skip_space, read_digits, read_unsigned, read_signed, parse_uint,
  parse_int,
}

unfoldable pub digits_fuel : ℕ → ℕ → Bytes
digits_fuel zero n = []
digits_fuel (suc f) n =
    let more = digits_fuel f (n / 10) ++ ((n % 10 + b'0') ∷ []) in
    if ltb n 10 then (n + b'0') ∷ [] else more

-- The shortest decimal numeral of `n`.
unfoldable pub digits : ℕ → Bytes
unfolding digits_fuel
digits n = digits_fuel (n + 1) n

read_digits-digits_fuel :
    (f n : ℕ) (s : Bytes) → n < f → read_digits 0 (digits_fuel f n ++ s) ≡ read_digits n s
unfolding digits_fuel read_digits
read_digits-digits_fuel zero n s h = absurd (omega arith)
read_digits-digits_fuel (suc f) n s h = elim (Bool-cases (ltb n 10)) [
  | inl small ↦
      let digit : is_digit (n + b'0') ≡ true = ground arith in
      let value : 10 * 0 + (n + b'0' - b'0') ≡ n = omega arith in rw (small, digit, value) refl
  | inr large ↦
      let digit : is_digit (n % 10 + b'0') ≡ true = ground arith in
      let value : 10 * (n / 10) + (n % 10 + b'0' - b'0') ≡ n = omega arith in
      rw
        (
          large,
          append_assoc (digits_fuel f (n / 10)) ((n % 10 + b'0') ∷ []) s,
          read_digits-digits_fuel f (n / 10) ((n % 10 + b'0') ∷ s) (ground arith),
          digit,
          value,
        )
        refl
]

-- The numeral begins with a digit.
digits_fuel_head :
    (f n : ℕ) → n < f → (c : ℕ) × (s : Bytes) × (digits_fuel f n ≡ c ∷ s) × (is_digit c ≡ true)
unfolding digits_fuel
digits_fuel_head zero n h = absurd (omega arith)
digits_fuel_head (suc f) n h = elim (Bool-cases (ltb n 10)) [
  | inl small ↦ rw small (n + b'0', [], refl, ground arith)
  | inr large ↦
      let (c, s, e, digit) = digits_fuel_head f (n / 10) (ground arith) in
      rw (large, e) (c, _, refl, digit)
]

read_digits_first :
    (c : ℕ) (s : Bytes) {v : ℕ × Bytes}
    → is_digit c ≡ true
    → read_digits 0 (c ∷ s) ≡ v
    → read_digits (c - b'0') s ≡ v
unfolding read_digits
read_digits_first c s digit e =
    let first : 10 * 0 + (c - b'0') ≡ c - b'0' = omega arith in rw (digit, first) at e

read_digits_end : (n : ℕ) → read_digits n [] ≡ (n, [])
unfolding read_digits
read_digits_end n = refl

read_unsigned-digits :
    (negative : Bool) (n : ℕ)
    → read_unsigned negative (digits n)
      ≡ some (record { negative = negative; magnitude = n; rest = [] })
unfolding digits read_unsigned
read_unsigned-digits negative n =
    let (c, s, e, digit) = digits_fuel_head (n + 1) n (omega arith) in
    let whole : read_digits 0 (digits_fuel (n + 1) n ++ []) ≡ (n, []) =
      read_digits-digits_fuel (n + 1) n [] (omega arith) ∙ read_digits_end n in
    let front : read_digits 0 (c ∷ s) ≡ (n, []) =
      ap (read_digits 0) (sym (append-nil (digits_fuel (n + 1) n) ∙ e)) ∙ whole in
    rw (e, digit, read_digits_first c s digit front) refl

-- A digit is no white space and no sign.
read_signed-digits : (n : ℕ) → read_signed (skip_space (digits n)) ≡ read_unsigned false (digits n)
unfolding skip_space digits
read_signed-digits n =
    let (c, s, e, digit) = digits_fuel_head (n + 1) n (omega arith) in
    let no_space : is_space c ≡ false = ground arith in
    let no_minus : (c == b'-') ≡ false = ground arith in
    let no_plus : (c == b'+') ≡ false = ground arith in rw (e, no_space, no_minus, no_plus) refl

-- `parseUInt` reads back the decimal digits of every number below 2^64.
pub parse_uint-digits : (n : ℕ) → n < 2 ^ 64 → parse_uint (digits n) ≡ some n
unfolding parse_uint
parse_uint-digits n h =
    rw (read_signed-digits n, read_unsigned-digits false n, lt→ltb n (2 ^ 64) h) refl

-- `parseInt` reads back the decimal digits of every number below 2^63.
pub parse_int-digits : (n : ℕ) → n < 2 ^ 63 → parse_int (digits n) ≡ some (pos n)
unfolding parse_int
parse_int-digits n h =
    rw (read_signed-digits n, read_unsigned-digits false n, lt→ltb n (2 ^ 63) h) refl

-- `parseUInt` accepts a negative number, and takes it modulo 2^64.
pub parse_uint_negative :
    (n : ℕ) → n < 2 ^ 64 → parse_uint (b'-' ∷ digits n) ≡ some ((2 ^ 64 - n) % 2 ^ 64)
unfolding parse_uint
parse_uint_negative n h = rw (read_unsigned-digits true n, lt→ltb n (2 ^ 64) h) refl

-- `parseUInt` accepts the empty text, as zero.
pub parse_uint_empty : parse_uint [] ≡ some 0
unfolding parse_uint
parse_uint_empty = refl
