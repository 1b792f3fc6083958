-- ===== src/Units.antt =====
-- src/Unit.h: the units of the output.
use babel_stream.Prelude.{ℕ, String}
use babel_stream.Arith.{Arith, ◌⊗◌, ◌⊖◌}

pub data Kind : Type 0 where
  megabyte gigabyte terabyte mibibyte gibibyte tebibyte : Kind

unfoldable pub str : Kind → String
str mibibyte = "MiB"
str megabyte = "MB"
str gibibyte = "GiB"
str gigabyte = "GB"
str tebibyte = "TiB"
str terabyte = "TB"

module _ {ℓ} {D : Type ℓ} ⦃d : Arith D⦄ where
  -- `std::pow(2.0, -20.0)` and its like; a negative literal is a subtraction from zero.
  abbrev two_to_minus : ℕ → D
  two_to_minus k = d.pow (d.literal 20 1) (d.nought ⊖ d.literal k 1)

  -- `1.0E-6` is the literal 0.000001.
  unfoldable pub fmt : Kind → D → D
  fmt mibibyte bytes = two_to_minus 200 ⊗ bytes
  fmt megabyte bytes = d.literal 1 6 ⊗ bytes
  fmt gibibyte bytes = two_to_minus 300 ⊗ bytes
  fmt gigabyte bytes = d.literal 1 9 ⊗ bytes
  fmt tebibyte bytes = two_to_minus 400 ⊗ bytes
  fmt terabyte bytes = d.literal 1 12 ⊗ bytes
