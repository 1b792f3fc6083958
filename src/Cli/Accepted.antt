-- ===== src/Cli/Accepted.antt =====
-- Arguments of src/main.cpp where a user might expect an error.
use babel_stream.Prelude.{ℕ, ◌-◌, ◌%◌, ◌^◌, ◌≤◌, ◌≡◌, refl, false, List, ◌∷◌, some, ltb, arith}
use babel_stream.Options.{Options}
use babel_stream.Cli.Numbers.{Bytes, codes}
use babel_stream.Cli.Decimal.{digits, parse_uint_negative}
use babel_stream.Cli.{argument, with_next, set_num_times, parse_arguments}
use babel_stream.Cli.Render.{pair_step}

negative_effect :
    (o : Options) (k : ℕ)
    → 1 ≤ k
    → k ≤ 2 ^ 64 - 2
    → argument o (codes "--numtimes") (some (b'-' ∷ digits k))
      ≡ with_next (record o { num_times = 2 ^ 64 - k })
unfolding argument
negative_effect o k pos_k le =
    let value : (2 ^ 64 - k) % 2 ^ 64 ≡ 2 ^ 64 - k = omega arith in
    let enough : ltb (2 ^ 64 - k) 2 ≡ false = ground arith in
    rw (parse_uint_negative k (omega arith), set_num_times, value, enough) refl

-- A negative number of times is accepted: `-k` stands for 2^64 - k, for `k` from 1 to 2^64 - 2.
pub num_times_negative :
    (o : Options) (k : ℕ) (rest : List Bytes)
    → 1 ≤ k
    → k ≤ 2 ^ 64 - 2
    → parse_arguments o (codes "--numtimes" ∷ ((b'-' ∷ digits k) ∷ rest))
      ≡ parse_arguments (record o { num_times = 2 ^ 64 - k }) rest
num_times_negative o k rest pos_k le =
    pair_step o (record o { num_times = 2 ^ 64 - k }) (codes "--numtimes") (b'-' ∷ digits k) rest
      (negative_effect o k pos_k le)
