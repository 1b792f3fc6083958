-- ===== src/Driver/Program/Success.antt =====
-- `run` of src/main.cpp over any back end.
use babel_stream.Prelude.{
  ◌++◌, if◌then◌else◌, ℕ, ◌≤◌, ◌≡◌, none, refl, ap, ◌∙◌, List, [], replicate, Run, ok, Returns,
}
use babel_stream.Arith.{Arith, ◌⊗◌}
use babel_stream.Benchmark.{BenchId, bench, start_a, start_b, start_c}
use babel_stream.Options.{Options}
use babel_stream.Stream.{Stream, Row, Implements}
use babel_stream.Driver.RunAll.{World, Host}
use babel_stream.Driver.Gold.{Gold, gold_solution}
use babel_stream.Driver.Agreement.{run_all-Agrees}
use babel_stream.Driver.Check.{check_solution}
use babel_stream.Driver.Check.Verdict.{IsStable, SumPasses, check_solution_passes}
use babel_stream.Driver.Summary.Rows.{HasRows, result_rows_ok}
use babel_stream.Driver.Output.{Token, run_banner, table_head}
use babel_stream.Driver.Program.{run}

-- The banner, unless the output is CSV, then the head of the table and its rows.
abbrev pub HasTable {κ} : {D : Type κ} ⦃d : Arith D⦄ → ℕ → Options → List (Token D) → Type κ
HasTable {D} size_of o out =
    (rows : List (Token D)) × (out
      ≡ (if o.output_as_csv then [] else run_banner o size_of) ++ (table_head o ++ rows))
    × HasRows o size_of bench rows

module _ {ℓ κ} {T : Type ℓ} {D : Type κ} ⦃r : Arith T⦄ ⦃d : Arith D⦄ (S : Stream T)
    (make : BenchId → ℕ → ℕ → T → T → T → Run S.State) (host : Host D) (size_of : ℕ)
    {Holds : S.State → List (Row T) → Type ℓ} {Dots : List (Row T) → T → Type ℓ}
    (lawful : Implements S Holds Dots) where
  -- A run ends normally: no access outside the arrays, no exception, no abort and no failed
  -- validation. It prints a row for every selected benchmark. It needs that the constructor fills the
  -- arrays, that the dot product of constant arrays passes its check, that the sum of no products
  -- passes too, that the reference values pass a comparison with themselves, two rounds at least,
  -- and room for the times of that many rounds.
  pub run_ok :
      (o : Options)
      → 2 ≤ o.num_times
      → host.refuses o.num_times ≡ none
      → Returns
          (make o.selection o.array_size o.device_index start_a start_b start_c)
          (λ s. Holds s (replicate o.array_size (record { a = start_a; b = start_b; c = start_c })))
      → ((x : Row T) (v : T)
          → Dots (replicate o.array_size x) v
          → SumPasses v (x.a ⊗ x.b ⊗ r.of_nat o.array_size))
      → SumPasses r.nought (r.literal 0 1)
      → ((g : Gold T) → gold_solution o ≡ ok g → IsStable g)
      → Returns (run S make host size_of o) (HasTable size_of o)
  unfolding run
  run_ok o ge roomy (s, made, held) dots start stable =
      let w : World T S = record { stream = s; sum = r.nought; ticks = 0 } in
      let (g, gold, (v, ran, (agrees, recorded))) =
        run_all-Agrees S host lawful o.array_size SumPasses dots o refl roomy w
          (record { rows = held; sums = start }) in
      let (h, got, (same, _)) = lawful.get_arrays_ok v.1.stream _ agrees.rows in
      let passed = check_solution_passes o g v.1.sum gold (stable g gold) agrees.sums in
      let passed' : check_solution o h.0 v.1.sum ≡ ok (record { failed = 0; reports = [] }) =
        ap (λ a. check_solution o a v.1.sum) same ∙ passed in
      let (rows, printed, has_rows) = result_rows_ok o size_of o.num_times ge bench v.0 recorded in
      rw (made, ran, got, passed', printed) (_, refl, (rows, refl, has_rows))
