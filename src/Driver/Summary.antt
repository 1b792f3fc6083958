-- ===== src/Driver/Summary.antt =====
-- The last loop of `run` in src/main.cpp: minimum, maximum and average of the times.
pub mod Extremes
pub mod Rows
use babel_stream.Prelude.{
  ℕ, ◌+◌, ◌-◌, ◌%◌, Bool, true, false, List, [], ◌∷◌, ◌++◌, if◌then◌else◌, Run, ok, fault, ◌>>=◌,
}
use mathlib.Core.List.{foldl}
use babel_stream.Arith.{Arith, ◌⊕◌, ◌⊘◌}
use babel_stream.Benchmark.{BenchId, Benchmark, run_benchmark}
use babel_stream.Options.{Options}
use babel_stream.Driver.Output.{Token, fmt_bw, fmt_result, size_mod}

module _ {κ} {D : Type κ} ⦃d : Arith D⦄ where
  -- `std::minmax_element` of a range that begins with `x`: the first smallest item.
  unfoldable pub smallest : D → List D → D
  smallest x [] = x
  smallest x (y ∷ ys) = smallest (if d.lt y x then y else x) ys

  -- And the last largest one.
  unfoldable pub largest : D → List D → D
  largest x [] = x
  largest x (y ∷ ys) = largest (if d.lt y x then x else y) ys

  -- The row of a benchmark. The two iterators of `minmax_element` are dereferenced, which an empty
  -- range does not allow; `begin() + 1` of an empty vector is past its end.
  unfoldable pub result_row : Options → ℕ → Benchmark → List D → Run (List (Token D))
  unfolding smallest largest fmt_result fmt_bw
  result_row o size_of b [] = fault
  result_row o size_of b (_ ∷ []) = fault
  result_row o size_of b (_ ∷ (x ∷ xs)) =
      let average =
        foldl (λ s t. s ⊕ t) (d.literal 0 1) (x ∷ xs)
        ⊘ d.of_nat ((o.num_times + size_mod - 1) % size_mod) in
      let dt_min = smallest x xs in
      let dt_max = largest x xs in
      ok (
        fmt_result o b.label o.num_times o.array_size size_of (fmt_bw o size_of b.weight dt_min)
          dt_min dt_max average)

  unfoldable pub result_rows : Options → ℕ → List Benchmark → List (List D) → Run (List (Token D))
  unfolding result_row run_benchmark
  result_rows o size_of [] tss = ok []
  result_rows o size_of (b ∷ bs) [] = fault
  result_rows o size_of (b ∷ bs) (ts ∷ tss) =
      if run_benchmark o.selection b
      then (do
        row ← result_row o size_of b ts
        rest ← result_rows o size_of bs tss
        ok (row ++ rest))
      else result_rows o size_of bs tss
