-- ===== src/Driver/Program/Exact.antt =====
-- `run` of src/main.cpp over each back end, in exact arithmetic.
use babel_stream.Prelude.{
  none, ℕ, ◌≤◌, ◌≡◌, refl, sym, ◌∙◌, Bool, false, List, replicate, Run, Returns,
}
use babel_stream.Arith.{Arith, IsExact}
use babel_stream.Benchmark.{BenchId, start_a, start_b, start_c}
use babel_stream.Options.{Options}
use babel_stream.Stream.{Stream, Row, Implements}
use babel_stream.Stream.Dot.{dot_rows, dot_rows-replicate}
use babel_stream.Backend.Memory.{Allocator, IsAllocator, IsSize}
use babel_stream.Backend.Parallel.{Runtime, IsRuntime, IsChunkedSum-dot_rows}
use babel_stream.Backend.Blocks.{Partitioner, IsPartitioner, IsTreeSum-dot_rows}
use babel_stream.Backend.Algorithms.{Algorithms, IsAlgorithms, IsGeneralizedSum-dot_rows}
use babel_stream.Backend.Std
use babel_stream.Backend.Omp
use babel_stream.Backend.Omp.Contract.{omp_implements, omp_construct_ok}
use babel_stream.Backend.Kokkos
use babel_stream.Backend.Tbb
use babel_stream.Backend.Raja
use babel_stream.Driver.RunAll.{Host}
use babel_stream.Driver.Check.{Report, differs}
use babel_stream.Driver.Program.{run}
use babel_stream.Driver.Program.Success.{HasTable, run_ok}

-- Equal values pass a comparison, whatever its tolerance.
abbrev pub IsReflexive {ℓ} : (T : Type ℓ) ⦃r : Arith T⦄ → Type ℓ
IsReflexive T = (c : Report T) → c.is ≡ c.should → differs c ≡ false

module _ {ℓ κ} {T : Type ℓ} {D : Type κ} ⦃r : Arith T⦄ ⦃d : Arith D⦄ (exact : IsExact T)
    (reflexive : IsReflexive T) (host : Host D) (size_of : ℕ) where
  pub exact_run_ok :
      (S : Stream T) (make : BenchId → ℕ → ℕ → T → T → T → Run S.State)
      {Holds : S.State → List (Row T) → Type ℓ} {Dots : List (Row T) → T → Type ℓ}
      → Implements S Holds Dots
      → ((l : List (Row T)) (v : T) → Dots l v → v ≡ dot_rows l)
      → (o : Options) → 2 ≤ o.num_times
      → host.refuses o.num_times ≡ none
      → Returns
          (make o.selection o.array_size o.device_index start_a start_b start_c)
          (λ s. Holds s (replicate o.array_size (record { a = start_a; b = start_b; c = start_c })))
      → Returns (run S make host size_of o) (HasTable size_of o)
  exact_run_ok S make lawful exact_dot o ge roomy made =
      run_ok S make host size_of lawful o ge roomy made
        (λ x v h.
          reflexive _
            (exact_dot (replicate o.array_size x) v h ∙ dot_rows-replicate exact o.array_size x))
        (reflexive _ (sym (exact.literal_zero 1)))
        (λ g _. record { a = reflexive _ refl; b = reflexive _ refl; c = reflexive _ refl })

  -- In exact arithmetic, and if equal values pass a comparison, every run over the OpenMP back end
  -- with two rounds at least ends normally and prints its table: for every selection and order, on
  -- the host and on a device, for every schedule and chunking of the run time, whatever the
  -- allocated memory holds. It needs that there is room for the times of the rounds, that the bytes
  -- of an array do not wrap modulo 2^64, and that every allocation succeeds.
  pub omp_run_ok :
      (rt : Runtime)
      → IsRuntime rt
      → (mapped : Bool) (on_host on_device : Allocator T) → IsAllocator on_host
      → IsAllocator on_device
      → (o : Options) → 2 ≤ o.num_times
      → host.refuses o.num_times ≡ none
      → IsSize size_of o.array_size
      → Returns
          (run
            (Omp.omp_stream rt mapped)
            (λ id n device x y z. Omp.construct rt mapped size_of on_host on_device n x y z)
            host
            size_of
            o)
          (HasTable size_of o)
  omp_run_ok rt good mapped on_host on_device good_host good_device o ge roomy fits =
      exact_run_ok (Omp.omp_stream rt mapped) _ (omp_implements rt mapped good)
        (IsChunkedSum-dot_rows exact) o ge roomy
        (omp_construct_ok rt mapped good size_of on_host on_device good_host good_device
          o.array_size start_a start_b start_c fits)

  -- In exact arithmetic, and if equal values pass a comparison, every run over the Kokkos back end
  -- with two rounds at least ends normally and prints its table, if there is room for the times of the
  -- rounds, the bytes of an array do not wrap modulo 2^64, and every allocation succeeds.
  pub kokkos_run_ok :
      (rt : Runtime)
      → IsRuntime rt
      → (on_host on_device : Allocator T) → IsAllocator on_host
      → IsAllocator on_device
      → (o : Options) → 2 ≤ o.num_times
      → host.refuses o.num_times ≡ none
      → IsSize size_of o.array_size
      → Returns
          (run
            (Kokkos.kokkos_stream rt)
            (λ id n device x y z. Kokkos.construct rt on_host on_device n x y z)
            host
            size_of
            o)
          (HasTable size_of o)
  kokkos_run_ok rt good on_host on_device good_host good_device o ge roomy _ =
      exact_run_ok (Kokkos.kokkos_stream rt) _ (Kokkos.kokkos_implements rt good)
        (IsChunkedSum-dot_rows exact) o ge roomy
        (Kokkos.kokkos_construct_ok rt good on_host on_device good_host good_device o.array_size
          start_a start_b start_c)

  -- In exact arithmetic, and if equal values pass a comparison, every run over the oneTBB back end
  -- on device 0 with two rounds at least ends normally and prints its table, for every partition and
  -- every tree of joins, if there is room for the times of the rounds, the bytes of an array do not
  -- wrap modulo 2^64, and every allocation succeeds.
  pub tbb_run_ok :
      (pt : Partitioner)
      → IsPartitioner pt
      → (alloc : Allocator T) → IsAllocator alloc
      → (o : Options) → 2 ≤ o.num_times
      → host.refuses o.num_times ≡ none
      → IsSize size_of o.array_size
      → o.device_index ≡ 0
      → Returns
          (run
            (Tbb.tbb_stream pt)
            (λ id n device x y z. Tbb.construct pt size_of alloc n device x y z)
            host
            size_of
            o)
          (HasTable size_of o)
  tbb_run_ok pt good alloc good_alloc o ge roomy fits first =
      exact_run_ok (Tbb.tbb_stream pt) _ (Tbb.tbb_implements pt good) (IsTreeSum-dot_rows exact) o
        ge roomy
        (rw first (
          Tbb.tbb_construct_ok pt good size_of alloc good_alloc o.array_size start_a start_b start_c
            fits))

  -- In exact arithmetic, and if equal values pass a comparison, every run over each variant of the
  -- back end on the parallel algorithms with two rounds at least ends normally and prints its table, if
  -- there is room for the times of the rounds, the bytes of an array do not wrap modulo 2^64, and
  -- every allocation succeeds.
  pub std_run_ok :
      (lib : Algorithms)
      → IsAlgorithms lib
      → (variant : Std.Variant) (alloc : Allocator T) → IsAllocator alloc
      → (o : Options) → 2 ≤ o.num_times
      → host.refuses o.num_times ≡ none
      → IsSize size_of o.array_size
      → Returns
          (run
            (Std.std_stream lib variant)
            (λ id n device x y z. Std.construct lib variant size_of alloc n x y z)
            host
            size_of
            o)
          (HasTable size_of o)
  std_run_ok lib good variant alloc good_alloc o ge roomy fits =
      exact_run_ok (Std.std_stream lib variant) _
        (Std.std_implements lib variant good exact.add_assoc) (IsGeneralizedSum-dot_rows exact) o ge
        roomy
        (Std.std_construct_ok lib variant good size_of alloc good_alloc o.array_size start_a start_b
          start_c fits)

  -- In exact arithmetic, and if equal values pass a comparison, every run over the RAJA back end with
  -- two rounds at least ends normally and prints its table, for every schedule and chunking of the
  -- run time, if there is room for the times of the rounds, the bytes of an array do not wrap modulo
  -- 2^64, and every allocation succeeds.
  pub raja_run_ok :
      (rt : Runtime)
      → IsRuntime rt
      → (alloc : Allocator T) → IsAllocator alloc
      → (o : Options) → 2 ≤ o.num_times
      → host.refuses o.num_times ≡ none
      → IsSize size_of o.array_size
      → Returns
          (run
            (Raja.raja_stream rt)
            (λ id n device x y z. Raja.construct rt size_of alloc n x y z)
            host
            size_of
            o)
          (HasTable size_of o)
  raja_run_ok rt good alloc good_alloc o ge roomy fits =
      exact_run_ok (Raja.raja_stream rt) _ (Raja.raja_implements rt good)
        (IsChunkedSum-dot_rows exact) o ge roomy
        (Raja.raja_construct_ok rt good size_of alloc good_alloc o.array_size start_a start_b
          start_c fits)
