-- ===== src/Tests/Runs.antt =====
-- Runs of the driver over several back ends, in whole numbers.
use babel_stream.Prelude.{
  ap, subst, ◌-◌, ◌^◌, ltb, if◌then◌else◌, ℕ, String, none, ◌*◌, ◌≡◌, refl, ◌∙◌, true, false, List,
  [], ◌∷◌, replicate, Option, some, Run, ok, exited, Returns, length-replicate, arith,
}
use babel_stream.Arith.{whole, whole-IsExact, ◌⊗◌}
use babel_stream.Benchmark.{BenchId, all, bench, run_benchmark}
use babel_stream.Options.{Options, default_options}
use babel_stream.Stream.{Row, arrays_of}
use babel_stream.Stream.Dot.{dot_rows-replicate}
use babel_stream.Backend.Memory.{Allocator, IsAllocator, IsSize}
use babel_stream.Backend.Serial.{
  SerialStream, serial_stream, construct, construct_ok, serial_implements, IsLeftSum,
  IsLeftSum-dot_rows,
}
use babel_stream.Backend.Parallel.{one_thread, one_thread-IsRuntime}
use babel_stream.Backend.Blocks.{one_block, one_block-IsPartitioner}
use babel_stream.Backend.Algorithms.{from_left, from_left-IsAlgorithms}
use babel_stream.Backend.Std
use babel_stream.Backend.Omp
use babel_stream.Backend.Kokkos
use babel_stream.Backend.Tbb
use babel_stream.Backend.Raja
use babel_stream.Driver.Program.Exact.{
  IsReflexive, omp_run_ok, kokkos_run_ok, tbb_run_ok, std_run_ok, raja_run_ok,
}
use babel_stream.Cli.{Parsed, parse_arguments, proceed, stopped}
use babel_stream.Cli.Numbers.{codes, parse_uint, parse_int}
use babel_stream.Driver.Main.{main}
use babel_stream.Driver.Main.Ends.{Ends, omp_main-Ends}
use babel_stream.Driver.RunAll.{World, Host, run_all}
use babel_stream.Driver.Gold.{Gold, gold_solution}
use babel_stream.Driver.Agreement.{Agrees, Recorded, run_all-Agrees}
use babel_stream.Driver.Check.{differs, item, validate, check_solution}
use babel_stream.Driver.Check.Tallies.{failures}
use babel_stream.Driver.Check.Verdict.{IsStable, SumPasses, validate_tally, check_solution_lem}
use babel_stream.Driver.Program.{run}
use babel_stream.Driver.Program.Success.{HasTable, run_ok}

-- Memory that holds sevens before it is written.
abbrev pub sevens : Allocator ℕ
sevens block items = some (replicate items 7)

pub sevens-IsAllocator : IsAllocator sevens
sevens-IsAllocator k n = (replicate n 7, refl, length-replicate n 7)

wide : IsSize 8 3
wide = record { some_bytes = omega arith; no_wrap = omega arith }

abbrev options : Options
options = record default_options { array_size = 3; num_times = 2; selection = all }

-- A vector has room for `max_size()` times.
abbrev pub host : Host ℕ
host = record {
  clock = λ k. k * k;
  refuses = λ n. if ltb (2 ^ 60 - 1) n then some "vector::reserve" else none;
}

abbrev make : BenchId → ℕ → ℕ → ℕ → ℕ → ℕ → Run (SerialStream ℕ)
make id n device x y z = construct 8 sevens n x y z

abbrev start_world : World ℕ serial_stream
start_world = record {
  stream = record {
    array_size = 3;
    arrays = record { a = 1 ∷ 1 ∷ 1 ∷ []; b = 2 ∷ 2 ∷ 2 ∷ []; c = 0 ∷ 0 ∷ 0 ∷ [] };
  };
  sum = 0;
  ticks = 0;
}

-- The reference solution, by hand: two rounds of copy, mul, add, triad, dot, nstream.
gold_value : gold_solution {T = ℕ} options ≡ ok (record { a = 2304; b = 192; c = 240; s = 663552 })
unfolding gold_solution
gold_value = refl

-- In whole numbers a value passes a comparison with itself.
differs_self :
    (name : String) (i : Option ℕ) (x m : ℕ)
    → differs (record { name = name; index = i; is = x; should = x; max_rel = m }) ≡ false
unfolding differs
differs_self name i x m = ground arith

stable : (g : Gold ℕ) → IsStable g
stable g = record {
  a = differs_self "a" (some 0) g.a _;
  b = differs_self "b" (some 0) g.b _;
  c = differs_self "c" (some 0) g.c _;
}

sum_passes : (v should : ℕ) → v ≡ should → SumPasses v should
sum_passes v should e = rw e (differs_self "sum" none should _)

dots_pass : (x : Row ℕ) (v : ℕ) → IsLeftSum (replicate 3 x) v → SumPasses v (x.a ⊗ x.b ⊗ 3)
dots_pass x v h =
    sum_passes v (x.a ⊗ x.b ⊗ 3)
      (IsLeftSum-dot_rows whole-IsExact (replicate 3 x) v h ∙ dot_rows-replicate whole-IsExact 3 x)

run_ok_example : Returns (run serial_stream make host 8 options) (HasTable 8 options)
run_ok_example =
    run_ok serial_stream make host 8 serial_implements options (omega arith) refl
      (construct_ok 8 sevens sevens-IsAllocator 3 1 2 0 wide) dots_pass (sum_passes 0 0 refl)
      (λ g _. stable g)

run_all-Agrees_example :
    (g : Gold ℕ) × (gold_solution options ≡ ok g)
    × Returns (run_all serial_stream host options start_world) (λ v.
      Agrees serial_stream host serial_implements 3 SumPasses dots_pass v.1 g
      × Recorded all 2 bench v.0)
run_all-Agrees_example =
    run_all-Agrees serial_stream host serial_implements 3 SumPasses dots_pass options refl refl
      start_world (record { rows = refl; sums = sum_passes 0 0 refl })

-- The second item of `b` is wrong.
abbrev rows : List (Row ℕ)
rows =
    record { a = 2304; b = 192; c = 240 }
    ∷ record { a = 2304; b = 193; c = 240 }
    ∷ record { a = 2304; b = 192; c = 240 }
    ∷ []

abbrev final : Gold ℕ
final = record { a = 2304; b = 192; c = 240; s = 663552 }

validate_tally_example :
    validate options (arrays_of rows) 663552
    ≡ ok (record { failed = 1; reports = item "b" 1 193 192 ∷ [] })
unfolding failures differs run_benchmark
validate_tally_example = validate_tally options final rows 663552 gold_value refl

check_solution_lem_example : check_solution options (arrays_of rows) 663552 ≡ exited 1
unfolding failures differs run_benchmark
check_solution_lem_example = check_solution_lem options final rows 663552 gold_value refl

pub reflexive : IsReflexive ℕ
unfolding differs
reflexive c e =
    let same : c.is ≡ c.should = e in rw same (differs_self c.name c.index c.should c.max_rel)

-- On a device, with both memories full of sevens at first.
omp_run_ok_example :
    Returns
      (run
        (Omp.omp_stream one_thread true)
        (λ id n device x y z. Omp.construct one_thread true 8 sevens sevens n x y z)
        host
        8
        options)
      (HasTable 8 options)
omp_run_ok_example =
    omp_run_ok whole-IsExact reflexive host 8 one_thread one_thread-IsRuntime true sevens sevens
      sevens-IsAllocator sevens-IsAllocator options (omega arith) refl wide

kokkos_run_ok_example :
    Returns
      (run
        (Kokkos.kokkos_stream one_thread)
        (λ id n device x y z. Kokkos.construct one_thread sevens sevens n x y z)
        host
        8
        options)
      (HasTable 8 options)
kokkos_run_ok_example =
    kokkos_run_ok whole-IsExact reflexive host 8 one_thread one_thread-IsRuntime sevens sevens
      sevens-IsAllocator sevens-IsAllocator options (omega arith) refl wide

raja_run_ok_example :
    Returns
      (run
        (Raja.raja_stream one_thread)
        (λ id n device x y z. Raja.construct one_thread 8 sevens n x y z)
        host
        8
        options)
      (HasTable 8 options)
raja_run_ok_example =
    raja_run_ok whole-IsExact reflexive host 8 one_thread one_thread-IsRuntime sevens
      sevens-IsAllocator options (omega arith) refl wide

-- What `--numtimes -3` asks for.
abbrev endless : Options
endless = record options { num_times = 2 ^ 64 - 3 }

tbb_run_ok_example :
    Returns
      (run
        (Tbb.tbb_stream one_block)
        (λ id n device x y z. Tbb.construct one_block 8 sevens n device x y z)
        host
        8
        options)
      (HasTable 8 options)
tbb_run_ok_example =
    tbb_run_ok whole-IsExact reflexive host 8 one_block one_block-IsPartitioner sevens
      sevens-IsAllocator options (omega arith) refl wide refl

std_run_ok_example :
    Returns
      (run
        (Std.std_stream from_left Std.data17)
        (λ id n device x y z. Std.construct from_left Std.data17 8 sevens n x y z)
        host
        8
        options)
      (HasTable 8 options)
std_run_ok_example =
    std_run_ok whole-IsExact reflexive host 8 from_left from_left-IsAlgorithms Std.data17 sevens
      sevens-IsAllocator options (omega arith) refl wide

abbrev settings : Parsed → Options
settings (proceed o) = o
settings (stopped why) = default_options

affordable :
    (o : Options)
    → parse_arguments default_options
        (codes "--arraysize" ∷ codes "3" ∷ codes "--only" ∷ codes "All" ∷ [])
      ≡ proceed o
    → (host.refuses o.num_times ≡ none) × IsSize 8 o.array_size
unfolding parse_arguments parse_uint parse_int
affordable o e =
    let same : record default_options { array_size = 3; selection = all } ≡ o = ap settings e in
    subst (λ p. (host.refuses p.num_times ≡ none) × IsSize 8 p.array_size) same (refl, wide)

-- `--arraysize 3 --only All`, in whole numbers for both types.
omp_main-Ends_example :
    let args = codes "--arraysize" ∷ codes "3" ∷ codes "--only" ∷ codes "All" ∷ [] in
    Ends "OpenMP" (parse_arguments default_options args) (
      main
        (Omp.omp_stream one_thread true)
        (λ id n device x y z. Omp.construct one_thread true 4 sevens sevens n x y z)
        (Omp.omp_stream one_thread true)
        (λ id n device x y z. Omp.construct one_thread true 8 sevens sevens n x y z)
        host
        "OpenMP"
        args)
omp_main-Ends_example =
    omp_main-Ends whole-IsExact reflexive whole-IsExact reflexive host "OpenMP" one_thread
      one_thread-IsRuntime true sevens sevens sevens sevens sevens-IsAllocator sevens-IsAllocator
      sevens-IsAllocator sevens-IsAllocator
      (codes "--arraysize" ∷ codes "3" ∷ codes "--only" ∷ codes "All" ∷ []) affordable
