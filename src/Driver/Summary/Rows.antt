-- ===== src/Driver/Summary/Rows.antt =====
-- The rows of the table that the last loop of `run` in src/main.cpp prints.
use babel_stream.Prelude.{
  ℕ, ◌≤◌, ◌≡◌, refl, Bool-cases, inl, inr, List, [], ◌∷◌, ◌++◌, length, Returns, if◌then◌else◌,
  arith,
}
use babel_stream.Arith.{Arith}
use babel_stream.Benchmark.{Benchmark, run_benchmark}
use babel_stream.Options.{Options}
use babel_stream.Driver.Output.{Token, fmt_result}
use babel_stream.Driver.Agreement.{Recorded}
use babel_stream.Driver.Summary.{result_row, result_rows}

module _ {κ} {D : Type κ} ⦃d : Arith D⦄ where
  -- The row of a benchmark, with some bandwidth, minimum, maximum and average.
  abbrev pub IsRow : Options → ℕ → Benchmark → List (Token D) → Type κ
  IsRow o size_of b row =
      (bandwidth : D) × (dt_min : D) × (dt_max : D) × (dt_avg : D) × (row
        ≡ fmt_result o b.label o.num_times o.array_size size_of bandwidth dt_min dt_max dt_avg)

  -- The output is a row for every selected benchmark, in the order of the list, and no more.
  unfoldable pub HasRows : Options → ℕ → List Benchmark → List (Token D) → Type κ
  HasRows o size_of [] out = out ≡ []
  HasRows o size_of (b ∷ bs) out =
      if run_benchmark o.selection b
      then ((row : List (Token D)) × (rest : List (Token D)) × (out ≡ row ++ rest)
          × IsRow o size_of b row
          × HasRows o size_of bs rest)
      else HasRows o size_of bs out

  result_row_ok :
      (o : Options) (size_of : ℕ) (b : Benchmark) (ts : List D)
      → 2 ≤ length ts
      → Returns (result_row o size_of b ts) (IsRow o size_of b)
  unfolding result_row
  result_row_ok o size_of b [] h = absurd (omega arith)
  result_row_ok o size_of b (_ ∷ []) h = absurd (omega arith)
  result_row_ok o size_of b (_ ∷ (x ∷ xs)) h = (_, refl, (_, _, _, _, refl))

  -- With two times at least for every selected benchmark, all rows are printed.
  pub result_rows_ok :
      (o : Options) (size_of k : ℕ)
      → 2 ≤ k
      → (bs : List Benchmark) (tss : List (List D)) → Recorded o.selection k bs tss
      → Returns (result_rows o size_of bs tss) (HasRows o size_of bs)
  unfolding result_rows HasRows
  result_rows_ok o size_of k ge [] tss r = ([], refl, refl)
  result_rows_ok o size_of k ge (b ∷ bs) [] r = absurd r
  result_rows_ok o size_of k ge (b ∷ bs) (ts ∷ tss) (l, r) =
      elim (Bool-cases (run_benchmark o.selection b)) [
        | inl e ↦
            let count : length ts ≡ k = rw e at l in
            let (row, printed, is_row) = result_row_ok o size_of b ts (omega arith) in
            let (rest, printed', has_rows) = result_rows_ok o size_of k ge bs tss r in
            rw (e, printed, printed') (row ++ rest, refl, (row, rest, refl, is_row, has_rows))
        | inr e ↦ rw e (result_rows_ok o size_of k ge bs tss r)
      ]
