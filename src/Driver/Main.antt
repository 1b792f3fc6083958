-- ===== src/Driver/Main.antt =====
-- `main` of src/main.cpp, without the marks for Caliper.
pub mod Ends
use babel_stream.Prelude.{
  none, ℕ, String, List, [], ◌∷◌, ◌++◌, Run, ok, exited, ◌>>=◌, if◌then◌else◌,
}
use babel_stream.Arith.{Arith}
use babel_stream.Benchmark.{BenchId}
use babel_stream.Options.{Options, default_options}
use babel_stream.Stream.{Stream}
use babel_stream.Cli.{Parsed, status, parse_arguments, proceed, stopped}
use babel_stream.Cli.Numbers.{Bytes}
use babel_stream.Driver.RunAll.{Host}
use babel_stream.Driver.Output.{Token, text, endl}
use babel_stream.Driver.Program.{run}

-- `VERSION_STRING`
abbrev version : String
version = "5.0"

module _ {κ} {D : Type κ} where
  -- The lines before `run`.
  unfoldable pub title : Options → (implementation : String) → List (Token D)
  title o implementation =
      if o.output_as_csv
      then []
      else text "BabelStream"
        ∷ endl
        ∷ text "Version: "
        ∷ text version
        ∷ endl
        ∷ text "Implementation: "
        ∷ text implementation
        ∷ endl
        ∷ []

-- The two instances of `run`: `float` has 4 bytes, `double` has 8.
module _ {ℓ κ} {F G : Type ℓ} {D : Type κ} ⦃f : Arith F⦄ ⦃g : Arith G⦄ ⦃d : Arith D⦄ (SF : Stream F)
    (make_float : BenchId → ℕ → ℕ → F → F → F → Run SF.State) (SG : Stream G)
    (make_double : BenchId → ℕ → ℕ → G → G → G → Run SG.State) (host : Host D)
    (implementation : String) where
  -- `run<float>` or `run<double>`
  unfoldable pub benchmarks : Options → Run (List (Token D))
  benchmarks o = if o.use_float then run SF make_float host 4 o else run SG make_double host 8 o

  -- What follows `parseArguments`.
  unfoldable pub after_parsing : Parsed → Run (List (Token D))
  unfolding benchmarks
  after_parsing (stopped why) = exited (status why)
  after_parsing (proceed o) = do out ← benchmarks o; ok (title o implementation ++ out)

  -- `main` on the arguments from `argv[1]` on; `EXIT_SUCCESS` is a normal end.
  unfoldable pub main : List Bytes → Run (List (Token D))
  unfolding after_parsing
  main args = after_parsing (parse_arguments default_options args)
