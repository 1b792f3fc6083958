-- ===== src/Driver/RunAll.antt =====
-- `time` and `run_all` of src/main.cpp.
use babel_stream.Prelude.{
  ℕ, zero, suc, ◌+◌, List, [], ◌∷◌, ◌++◌, replicate, Option, none, some, String, Run, ok, fault,
  aborted, threw, ◌>>=◌, ◌>>◌, if◌then◌else◌,
}
use babel_stream.Arith.{Arith, ◌⊖◌, ◌⊘◌}
use babel_stream.Benchmark.{
  BenchId, Benchmark, bench, num_benchmarks, run_benchmark, copy, mul, add, triad, nstream, dot,
  all,
}
use babel_stream.Options.{Options, BenchOrder, isolated}
use babel_stream.Stream.{Stream}

-- The back end's object, `sum`, and how often the clock has been read.
pub record World {ℓ} (T : Type ℓ) (S : Stream T) : Type ℓ where
  pub stream : S.State
  pub sum : T
  pub ticks : ℕ

-- What the driver expects of the standard library: `clock k` is the reading number `k` of
-- `std::chrono::high_resolution_clock`, and `refuses n` the exception of `reserve(n)` for a vector of
-- times, if there is one: `std::length_error` for more than `max_size()` items, or `std::bad_alloc`.
pub record Host {κ} (D : Type κ) : Type κ where
  pub clock : ℕ → D
  pub refuses : (items : ℕ) → Option String

-- `timings[i].reserve(num_times)` for every selected benchmark.
unfoldable pub reserve_all {κ} :
    {D : Type κ} (host : Host D) (times : ℕ) → BenchId → List Benchmark → Run (Unit {0})
reserve_all host times selection [] = ok tt
reserve_all host times selection (b ∷ bs) =
    let rest = reserve_all host times selection bs in
    if run_benchmark selection b
    then elim (host.refuses times) [ none ↦ rest | some what ↦ threw what ]
    else rest

module _ {ℓ κ} {T : Type ℓ} {D : Type κ} ⦃d : Arith D⦄ (S : Stream T) (host : Host D) where
  -- The lambda `run`.
  unfoldable pub run_kernel : BenchId → World T S → Run (World T S)
  run_kernel copy w = do t ← S.copy w.stream; ok (record w { stream = t })
  run_kernel mul w = do t ← S.mul w.stream; ok (record w { stream = t })
  run_kernel add w = do t ← S.add w.stream; ok (record w { stream = t })
  run_kernel triad w = do t ← S.triad w.stream; ok (record w { stream = t })
  run_kernel nstream w = do t ← S.nstream w.stream; ok (record w { stream = t })
  run_kernel dot w = do (v, t) ← S.dot w.stream; ok (record w { stream = t; sum = v })
  run_kernel BenchId.classic w = aborted
  run_kernel all w = aborted

  unfoldable pub time : (World T S → Run (World T S)) → World T S → Run (D × World T S)
  time f w = do
    w' ← f (record w { ticks = w.ticks + 1 })
    ok (host.clock w'.ticks ⊖ host.clock w.ticks, record w' { ticks = w'.ticks + 1 })

  -- `for (k = 0; k < times; k++) run(b)`
  unfoldable pub repeat : ℕ → BenchId → World T S → Run (World T S)
  repeat zero id w = ok w
  repeat (suc times) id w = do w' ← run_kernel id w; repeat times id w'

  -- One round of the classic order: `timings[i].push_back(dt(bench[i]))`.
  unfoldable pub classic_round :
      BenchId → List Benchmark → List (List D) → World T S → Run (List (List D) × World T S)
  classic_round selection [] tss w = ok ([], w)
  classic_round selection (b ∷ bs) [] w = fault
  classic_round selection (b ∷ bs) (ts ∷ tss) w =
      if run_benchmark selection b
      then (do
        (dt, w') ← time (run_kernel b.id) w
        (rest, w'') ← classic_round selection bs tss w'
        ok ((ts ++ (dt ∷ [])) ∷ rest, w''))
      else (do (rest, w') ← classic_round selection bs tss w; ok (ts ∷ rest, w'))

  unfoldable pub classic_rounds :
      ℕ → BenchId → List (List D) → World T S → Run (List (List D) × World T S)
  classic_rounds zero selection tss w = ok (tss, w)
  classic_rounds (suc times) selection tss w = do
    (tss', w') ← classic_round selection bench tss w
    classic_rounds times selection tss' w'

  -- The isolated order: `timings[i].resize(num_times, t / (double)num_times)` of an empty vector.
  unfoldable pub isolated_runs :
      ℕ → BenchId → List Benchmark → World T S → Run (List (List D) × World T S)
  isolated_runs times selection [] w = ok ([], w)
  isolated_runs times selection (b ∷ bs) w =
      if run_benchmark selection b
      then (do
        (t, w') ← time (repeat times b.id) w
        (rest, w'') ← isolated_runs times selection bs w'
        ok (replicate times (t ⊘ d.of_nat times) ∷ rest, w''))
      else (do (rest, w') ← isolated_runs times selection bs w; ok ([] ∷ rest, w'))

  unfoldable pub run_all : Options → World T S → Run (List (List D) × World T S)
  unfolding classic_rounds classic_round isolated_runs repeat time run_kernel run_benchmark
      reserve_all
  run_all o w = do
    reserve_all host o.num_times o.selection bench
    elim o.order [
      | BenchOrder.classic ↦ classic_rounds o.num_times o.selection (replicate num_benchmarks []) w
      | isolated ↦ isolated_runs o.num_times o.selection bench w
    ]
