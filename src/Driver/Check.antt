-- ===== src/Driver/Check.antt =====
-- `check_solution` of src/main.cpp: the comparison of the arrays with the reference solution.
pub mod Tallies
pub mod Verdict
use babel_stream.Prelude.{
  ℕ, zero, suc, ◌+◌, String, Bool, true, false, not, ◌&&◌, ◌||◌, List, [], ◌∷◌, ◌++◌, Option, none,
  some, ltb, Run, ok, exited, ◌>>=◌, if◌then◌else◌,
}
use babel_stream.Arith.{Arith, ◌⊕◌, ◌⊖◌, ◌⊗◌}
use babel_stream.Benchmark.{BenchId, Benchmark, bench, run_benchmark, same_id, dot}
use babel_stream.Loop.{read, for_each, range}
use babel_stream.Options.{Options}
use babel_stream.Stream.{Arrays}
use babel_stream.Driver.Gold.{Gold, gold_solution}

-- A comparison, with what the message prints of it; `index` is `none` for `size_t(-1)`.
pub record Report {ℓ} (T : Type ℓ) : Type ℓ where
  pub name : String
  pub index : Option ℕ
  pub is : T
  pub should : T
  pub max_rel : T

-- `failed`, and the messages on the error stream.
pub record Tally {ℓ} (T : Type ℓ) : Type ℓ where
  pub failed : ℕ
  pub reports : List (Report T)

module _ {ℓ} {T : Type ℓ} ⦃r : Arith T⦄ where
  -- `!same || std::isnan(is)`
  unfoldable pub differs : Report T → Bool
  differs c =
      let diff = r.abs (c.is ⊖ c.should) in
      let largest = r.greater (r.abs c.is) (r.abs c.should) in
      not (r.le diff (largest ⊗ c.max_rel)) || r.is_nan c.is

  -- The lambda `check`: every failure is counted, the first ten are printed.
  unfoldable pub check : Report T → Tally T → Tally T
  check c t =
      if differs c
      then (let failed = t.failed + 1 in
          if ltb 10 failed
          then record t { failed = failed }
          else record { failed = failed; reports = t.reports ++ (c ∷ []) })
      else t

  abbrev pub max_rel : T
  max_rel = r.epsilon ⊗ r.literal 1000 1

  abbrev pub max_rel_dot : T
  max_rel_dot = r.epsilon ⊗ r.literal 100000000 1

  -- The loop under `// Sum`, which ends at the first `Dot`.
  unfoldable pub check_sum : BenchId → List Benchmark → T → T → Tally T → Tally T
  unfolding run_benchmark
  check_sum selection [] sum should t = t
  check_sum selection (b ∷ bs) sum should t =
      let rest = check_sum selection bs sum should t in
      if not (same_id b.id dot)
      then rest
      else if run_benchmark selection b
      then check
          (record { name = "sum"; index = none; is = sum; should = should; max_rel = max_rel_dot })
          t
      else t

  abbrev pub item : String → ℕ → T → T → Report T
  item name i is should = record {
    name = name;
    index = some i;
    is = is;
    should = should;
    max_rel = max_rel;
  }

  -- The body of the loop over the arrays.
  unfoldable pub check_index : Gold T → Arrays T → ℕ → Tally T → Run (Tally T)
  unfolding read check
  check_index g h i t = do
    x ← read h.a i
    y ← read h.b i
    z ← read h.c i
    ok (check (item "c" i z g.c) (check (item "b" i y g.b) (check (item "a" i x g.a) t)))

  unfoldable pub validate : Options → Arrays T → T → Run (Tally T)
  unfolding check_sum check_index for_each gold_solution
  validate o h sum = do
    g ← gold_solution o
    for_each (range o.array_size) (check_index g h)
        (check_sum o.selection bench sum g.s (record { failed = 0; reports = [] }))

  -- `EXIT_FAILURE` is 1.
  unfoldable pub verdict : Options → Tally T → Run (Tally T)
  verdict o t = if ltb 0 t.failed && not o.silence_errors then exited 1 else ok t

  unfoldable pub check_solution : Options → Arrays T → T → Run (Tally T)
  unfolding validate verdict
  check_solution o h sum = do t ← validate o h sum; verdict o t
