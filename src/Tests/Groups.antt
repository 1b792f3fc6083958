-- ===== src/Tests/Groups.antt =====
-- The OpenCL, SYCL and Thrust back ends in whole numbers, on a device that runs everything in order.
use babel_stream.Prelude.{
  List, map, ℕ, ◌^◌, ◌≡◌, inr, refl, true, [], ◌∷◌, replicate, none, length-replicate, arith, ok,
  ◌>>=◌, Returns,
}
use babel_stream.Arith.{whole, whole-IsExact}
use babel_stream.Stream.{
  Implements, Row, arrays_of, copy_row, mul_row, add_row, triad_row, nstream_row,
}
use babel_stream.Backend.WorkGroups.{Queue, IsQueue, DeviceInfo, num_groups, group_size}
use babel_stream.Backend.WorkGroups.Laws.{IsRange, IsGroupSum}
use babel_stream.Backend.Ocl
use babel_stream.Backend.Ocl.Contract.{Holds as OclHolds, ocl_implements}
use babel_stream.Backend.Ocl.Lifetime.{at_start, CanRun}
use babel_stream.Backend.Sycl
use babel_stream.Backend.Sycl.Contract.{Holds as SyclHolds, sycl_kernels_ok}
use babel_stream.Driver.Program.{run}
use babel_stream.Driver.Program.Success.{HasTable}
use babel_stream.Driver.Program.Devices.{ocl_run_ok}
use babel_stream.Tests.Runs.{sevens, sevens-IsAllocator, reflexive, host}
use native.Mathlib.Nat.{mul_comm}
use babel_stream.Backend.Algorithms.{from_left, from_left-IsAlgorithms, IsGeneralizedSum}
use babel_stream.Backend.Thrust
use babel_stream.Backend.Thrust.Contract.{Holds as ThrustHolds, thrust_implements}
use babel_stream.Tests.Devices.{in_order, in_order-IsDevice, options}

abbrev pub queue : Queue ℕ
queue = record { dev = in_order; failure = λ call. none; local_mem = λ k g. replicate (2 ^ 2) 7 }

pub queue-IsQueue : IsQueue queue (2 ^ 2)
queue-IsQueue = record {
  device = in_order-IsDevice;
  quiet = λ call. refl;
  room = λ k g. length-replicate {A = ℕ} (2 ^ 2) 7;
}

ocl_implements_example : Implements {T = ℕ} (Ocl.ocl_stream queue) (OclHolds 2 3) (IsGroupSum 2 3)
ocl_implements_example = ocl_implements queue 2 queue-IsQueue 3

abbrev row : Row ℕ
row = record { a = 1; b = 2; c = 3 }

abbrev two_rows : List (Row ℕ)
two_rows = row ∷ row ∷ []

abbrev sycl_state : Sycl.SyclStream ℕ
sycl_state = record {
  array_size = 2;
  dot_num_groups = 3;
  dot_wgsize = 4;
  d_sum = 7 ∷ 7 ∷ 7 ∷ [];
  device = arrays_of two_rows;
  calls = 5;
}

sycl_kernels_ok_example :
    Returns (Sycl.copy queue sycl_state) (λ t. SyclHolds 2 3 t (map copy_row two_rows))
    × Returns (Sycl.mul queue sycl_state) (λ t. SyclHolds 2 3 t (map mul_row two_rows))
    × Returns (Sycl.add queue sycl_state) (λ t. SyclHolds 2 3 t (map add_row two_rows))
    × Returns (Sycl.triad queue sycl_state) (λ t. SyclHolds 2 3 t (map triad_row two_rows))
    × Returns (Sycl.nstream queue sycl_state) (λ t. SyclHolds 2 3 t (map nstream_row two_rows))
    × Returns
        (Sycl.dot queue sycl_state)
        (λ v. IsGroupSum 2 3 two_rows v.0 × SyclHolds 2 3 v.1 two_rows)
    × Returns
        (Sycl.get_arrays queue sycl_state)
        (λ v. (v.0 ≡ Sycl.dangling) × SyclHolds 2 3 v.1 two_rows)
sycl_kernels_ok_example = sycl_kernels_ok queue 2 queue-IsQueue 3 sycl_state two_rows (
  7 ∷ 7 ∷ 7 ∷ [],
  5,
  refl,
  record { some_groups = omega arith; narrow = omega arith; small = omega arith },
  refl,
)

-- A processor with 3 units and vectors of two.
abbrev info : DeviceInfo
info = record {
  name = "device";
  driver = "1.2";
  is_cpu = true;
  compute_units = 3;
  vector_width_double = 2;
  max_group_size = 4096;
  has_double = true;
  global_mem = 1000;
  max_alloc = 500;
}

info-CanRun : CanRun info 8 5
unfolding num_groups
info-CanRun = record {
  size = inr (refl, refl);
  wide = record { some_bytes = omega arith; no_wrap = omega arith };
  wide_sums = record { some_bytes = omega arith; no_wrap = omega arith };
  one_fits = omega arith;
  all_fit = omega arith;
}

info-IsRange : IsRange 2 (num_groups info) 5
unfolding num_groups
info-IsRange = record { some_groups = omega arith; narrow = omega arith; small = omega arith }

info-group_size : group_size info ≡ 2 ^ 2
unfolding group_size
info-group_size = refl

ocl_run_ok_example :
    Returns
      (run
        (Ocl.ocl_stream queue)
        (λ id n device x y z.
          Ocl.construct queue ((info ∷ []) ∷ []) Ocl.built 8 sevens at_start device n x y z >>= λ v.
          ok v.0)
        host
        8
        options)
      (HasTable 8 options)
ocl_run_ok_example =
    ocl_run_ok whole-IsExact reflexive host 8 queue 2 queue-IsQueue ((info ∷ []) ∷ []) sevens info
      sevens-IsAllocator options (omega arith) refl refl (omega arith) info-CanRun info-group_size
      info-IsRange

-- Whole numbers multiply commutatively.
thrust_implements_example :
    Implements {T = ℕ} (Thrust.thrust_stream from_left true) ThrustHolds IsGeneralizedSum
thrust_implements_example =
    thrust_implements from_left from_left-IsAlgorithms whole-IsExact.add_assoc mul_comm true
