-- ===== src/Cli/Bounds.antt =====
-- The bounds of the settings of src/main.cpp, and what the two number parsers contribute.
use babel_stream.Prelude.{
  ℕ, ◌^◌, ◌<◌, ◌≤◌, ◌≡◌, Bool, true, false, [], ◌∷◌, Option, none, some, if◌then◌else◌, arith,
}
use babel_stream.Options.{Options, default_options}
use babel_stream.Cli.Numbers.{
  Bytes, ℤ, pos, Numeral, converted, unsigned_value, signed_value, parse_uint, parse_int, at_end,
  read_signed, skip_space,
}
use babel_stream.Cli.{Stop, Effect, alone, with_next, stop}

-- What `run` relies on: a positive size, and two times at least, all within their C++ types.
pub record IsValid (o : Options) : Type 0 where
  pub size_pos : 1 ≤ o.array_size
  pub size_lt : o.array_size < 2 ^ 63
  pub times_ge : 2 ≤ o.num_times
  pub times_lt : o.num_times < 2 ^ 64
  pub device_lt : o.device_index < 2 ^ 64

pub default-IsValid : IsValid default_options
default-IsValid = omega arith

unsigned_value-lt : (n : Numeral) → unsigned_value n < 2 ^ 64
unsigned_value-lt n = ground arith

abbrev IsSmall : Option ℕ → Type 0
IsSmall none = Unit
IsSmall (some n) = n < 2 ^ 64

at_end-IsSmall : (v : ℕ) (s : Bytes) → v < 2 ^ 64 → IsSmall (at_end (v, s))
at_end-IsSmall v [] h = h
at_end-IsSmall v (_ ∷ _) h = tt

converted-IsSmall :
    (str : Bytes) (n : Option Numeral) → IsSmall (at_end (converted 0 unsigned_value str n))
converted-IsSmall str none = at_end-IsSmall 0 str (omega arith)
converted-IsSmall str (some n) = at_end-IsSmall (unsigned_value n) n.rest (unsigned_value-lt n)

parse_uint-IsSmall : (str : Bytes) → IsSmall (parse_uint str)
unfolding parse_uint
parse_uint-IsSmall str = converted-IsSmall str (read_signed (skip_space str))

pub parse_uint-lt : (str : Bytes) {n : ℕ} → parse_uint str ≡ some n → n < 2 ^ 64
parse_uint-lt str e = rw e at (parse_uint-IsSmall str)

abbrev IsSigned : Option ℤ → Type 0
IsSigned (some (pos n)) = n < 2 ^ 63
IsSigned _ = Unit

at_end-IsSigned : (v : ℤ) (s : Bytes) → IsSigned (some v) → IsSigned (at_end (v, s))
at_end-IsSigned v [] h = h
at_end-IsSigned v (_ ∷ _) h = tt

signed_value-IsSigned : (n : Numeral) → IsSigned (some (signed_value n))
signed_value-IsSigned n = ground arith

converted-IsSigned :
    (str : Bytes) (n : Option Numeral) → IsSigned (at_end (converted (pos 0) signed_value str n))
converted-IsSigned str none = at_end-IsSigned (pos 0) str (omega arith)
converted-IsSigned str (some n) = at_end-IsSigned (signed_value n) n.rest (signed_value-IsSigned n)

pub parse_int-lt : (str : Bytes) {n : ℕ} → parse_int str ≡ some (pos n) → n < 2 ^ 63
unfolding parse_int
parse_int-lt str e = rw e at (converted-IsSigned str (read_signed (skip_space str)))

-- The new settings of an effect.
unfoldable pub Sets : Effect → (Options → Type 0) → Type 0
Sets (alone o) P = P o
Sets (with_next o) P = P o
Sets (stop _) P = Unit

pub Sets-if :
    (P : Options → Type 0) (b : Bool) (x y : Effect)
    → Sets x P
    → Sets y P
    → Sets (if b then x else y) P
Sets-if P true x y p q = p
Sets-if P false x y p q = q

pub Sets-alone : (P : Options → Type 0) {o : Options} → P o → Sets (alone o) P
unfolding Sets
Sets-alone P h = h

pub Sets-stop : (P : Options → Type 0) (why : Stop) → Sets (stop why) P
unfolding Sets
Sets-stop P why = tt
