-- ===== src/Driver/Gold.antt =====
-- The reference solution of `check_solution` in src/main.cpp.
use babel_stream.Prelude.{ℕ, zero, suc, List, [], ◌∷◌, Run, ok, aborted, ◌>>=◌, if◌then◌else◌}
use babel_stream.Arith.{Arith, ◌⊕◌, ◌⊗◌}
use babel_stream.Benchmark.{
  BenchId, Benchmark, bench, run_benchmark, copy, mul, add, triad, nstream, dot, all, start_a,
  start_b, start_c, start_scalar,
}
use babel_stream.Options.{Options, BenchOrder, isolated}

-- `goldA`, `goldB`, `goldC` and `goldS`
pub record Gold {ℓ} (T : Type ℓ) : Type ℓ where
  pub a : T
  pub b : T
  pub c : T
  pub s : T

module _ {ℓ} {T : Type ℓ} ⦃r : Arith T⦄ where
  abbrev pub gold_start : Gold T
  gold_start = record { a = start_a; b = start_b; c = start_c; s = r.literal 0 1 }

  -- The lambda `run`: the effect of one benchmark.
  unfoldable pub gold_step : ℕ → BenchId → Gold T → Run (Gold T)
  gold_step n copy g = ok (record g { c = g.a })
  gold_step n mul g = ok (record g { b = start_scalar ⊗ g.c })
  gold_step n add g = ok (record g { c = g.a ⊕ g.b })
  gold_step n triad g = ok (record g { a = g.b ⊕ start_scalar ⊗ g.c })
  gold_step n nstream g = ok (record g { a = g.a ⊕ (g.b ⊕ start_scalar ⊗ g.c) })
  gold_step n dot g = ok (record g { s = g.a ⊗ g.b ⊗ r.of_nat n })
  gold_step n BenchId.classic g = aborted
  gold_step n all g = aborted

  unfoldable pub gold_repeat : ℕ → ℕ → BenchId → Gold T → Run (Gold T)
  gold_repeat n zero id g = ok g
  gold_repeat n (suc times) id g = do g' ← gold_step n id g; gold_repeat n times id g'

  unfoldable pub gold_round : ℕ → BenchId → List Benchmark → Gold T → Run (Gold T)
  gold_round n selection [] g = ok g
  gold_round n selection (b ∷ bs) g =
      let rest = gold_round n selection bs g in
      if run_benchmark selection b
      then (do g' ← gold_step n b.id g; gold_round n selection bs g')
      else rest

  unfoldable pub gold_rounds : ℕ → ℕ → BenchId → Gold T → Run (Gold T)
  gold_rounds n zero selection g = ok g
  gold_rounds n (suc times) selection g = do
    g' ← gold_round n selection bench g
    gold_rounds n times selection g'

  unfoldable pub gold_isolated : ℕ → ℕ → BenchId → List Benchmark → Gold T → Run (Gold T)
  gold_isolated n times selection [] g = ok g
  gold_isolated n times selection (b ∷ bs) g =
      let rest = gold_isolated n times selection bs g in
      if run_benchmark selection b
      then (do g' ← gold_repeat n times b.id g; gold_isolated n times selection bs g')
      else rest

  unfoldable pub gold_solution : Options → Run (Gold T)
  unfolding gold_rounds gold_round gold_isolated gold_repeat gold_step run_benchmark
  gold_solution o = elim o.order [
    | BenchOrder.classic ↦ gold_rounds o.array_size o.num_times o.selection gold_start
    | isolated ↦ gold_isolated o.array_size o.num_times o.selection bench gold_start
  ]
