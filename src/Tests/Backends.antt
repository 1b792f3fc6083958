-- ===== src/Tests/Backends.antt =====
-- The contracts of the back ends in whole numbers, and smaller theorems at concrete data.
use babel_stream.Prelude.{
  Bool, true, false, some, refl, ◌≡◌, ℕ, List, ◌≡◌, refl, true, [], ◌∷◌, replicate, some,
  length-replicate,
}
use babel_stream.Arith.{whole, whole-IsExact}
use babel_stream.Benchmark.{mul}
use babel_stream.Stream.{Row, Implements}
use babel_stream.Stream.Footprint.{with_unneeded, effect, needs_buffer-effect}
use babel_stream.Models.{Macro, Class, included, made}
use babel_stream.Backend.Memory.{Allocator, IsAllocator}
use babel_stream.Backend.Parallel.{one_thread, one_thread-IsRuntime, IsChunkedSum}
use babel_stream.Backend.Serial
use babel_stream.Backend.Algorithms.{from_left, from_left-IsAlgorithms, IsGeneralizedSum}
use babel_stream.Backend.Std
use babel_stream.Backend.Omp
use babel_stream.Backend.Omp.Contract.{omp_implements}
use babel_stream.Backend.Raja
use babel_stream.Backend.Tbb
use babel_stream.Backend.Blocks.{one_block, one_block-IsPartitioner, IsTreeSum}
use babel_stream.Backend.Acc
use babel_stream.Backend.Kokkos

serial_implements_example : Implements {T = ℕ} Serial.serial_stream Serial.Holds Serial.IsLeftSum
serial_implements_example = Serial.serial_implements

omp_implements_example :
    Implements {T = ℕ} (Omp.omp_stream one_thread true) (Omp.Holds true) IsChunkedSum
omp_implements_example = omp_implements one_thread true one_thread-IsRuntime

raja_implements_example :
    Implements {T = ℕ} (Raja.raja_stream one_thread) (Raja.Holds one_thread) IsChunkedSum
raja_implements_example = Raja.raja_implements one_thread one_thread-IsRuntime

tbb_implements_example :
    Implements {T = ℕ} (Tbb.tbb_stream one_block) (Tbb.Holds one_block) IsTreeSum
tbb_implements_example = Tbb.tbb_implements one_block one_block-IsPartitioner

-- Whole numbers add up associatively.
std_implements_example :
    Implements {T = ℕ}
      (Std.std_stream from_left Std.data17)
      (Std.Holds from_left Std.data17)
      IsGeneralizedSum
std_implements_example =
    Std.std_implements from_left Std.data17 from_left-IsAlgorithms whole-IsExact.add_assoc

acc_implements_example :
    Implements {T = ℕ} (Acc.acc_stream one_thread) (Acc.Holds one_thread) IsChunkedSum
acc_implements_example = Acc.acc_implements one_thread one_thread-IsRuntime

kokkos_implements_example :
    Implements {T = ℕ} (Kokkos.kokkos_stream one_thread) (Kokkos.Holds one_thread) IsChunkedSum
kokkos_implements_example = Kokkos.kokkos_implements one_thread one_thread-IsRuntime

abbrev nines : Allocator ℕ
nines block items = some (replicate items 9)

nines-IsAllocator : IsAllocator nines
nines-IsAllocator k n = (replicate n 9, refl, length-replicate n 9)

-- `Mul` needs no `a`.
needs_buffer-effect_example :
    let x : Row ℕ = record { a = 1; b = 2; c = 3 } in
    let y : Row ℕ = record { a = 5; b = 6; c = 7 } in
    effect mul (with_unneeded mul y x) ≡ (with_unneeded mul y (effect mul x).0, (effect mul x).1)
needs_buffer-effect_example =
    needs_buffer-effect mul (record { a = 1; b = 2; c = 3 }) (record { a = 5; b = 6; c = 7 })

abbrev two_rows : List (Row ℕ)
two_rows = record { a = 1; b = 2; c = 3 } ∷ record { a = 4; b = 5; c = 6 } ∷ []

abbrev hip_and_std : Macro → Bool
hip_and_std Macro.hip = true
hip_and_std Macro.std = true
hip_and_std _ = false

-- The two chains test the macros in different orders.
other_class :
    (included hip_and_std ≡ some "STDStream.h") × (made hip_and_std ≡ some Class.hip_stream)
unfolding included made
other_class = (refl, refl)
