-- ===== src/Tests/Devices.antt =====
-- The back ends for graphics processors in whole numbers, on a device that runs everything in order.
use babel_stream.Prelude.{
  ℕ, ◌*◌, ◌^◌, ◌≤◌, ◌≡◌, inr, refl, List, [], replicate, length-replicate, arith, ok, fault, hung,
  Returns,
}
use babel_stream.Arith.{whole, whole-IsExact}
use babel_stream.Benchmark.{all}
use babel_stream.Options.{Options, default_options}
use babel_stream.Loop.{range}
use babel_stream.Loop.Schedule.{count, IsSchedule, range-IsSchedule}
use babel_stream.Stream.{Arrays, Implements}
use babel_stream.Backend.Gpu.{Gpu, IsGpu, separate, managed, wide_start}
use babel_stream.Backend.Grid.{Device, IsDevice, grid_visits}
use babel_stream.Backend.Grid.Cover.{grid_visits_ok}
use babel_stream.Backend.Hip
use babel_stream.Backend.Hip.Contract.{Holds as HipHolds, IsHipSum, hip_implements}
use babel_stream.Backend.Hip.Limits.{hip_dot_hung}
use babel_stream.Backend.Cuda
use babel_stream.Backend.Cuda.Construct
use babel_stream.Backend.Cuda.Launch.{Holds as CudaHolds}
use babel_stream.Backend.Cuda.Contract.{IsCudaSum, cuda_implements}
use babel_stream.Backend.Cuda.Limits.{cuda_too_small}
use babel_stream.Backend.Cuda.Stripes.{stripe_visits-IsSchedule, stripe_visits_twice}
use babel_stream.Driver.Program.{run}
use babel_stream.Driver.Program.Success.{HasTable}
use babel_stream.Driver.Program.Devices.{hip_run_ok, cuda_run_ok}
use babel_stream.Tests.Runs.{sevens, sevens-IsAllocator, reflexive, host}

abbrev pub in_order : Device
in_order = record { interleave = λ k is. is; blocks = λ k n. range n; lanes = λ k b p n. range n }

pub in_order-IsDevice : IsDevice in_order
in_order-IsDevice = record {
  interleave_ok = λ k is j. refl;
  blocks_ok = λ k n. range-IsSchedule n;
  lanes_ok = λ k b p n. range-IsSchedule n;
}

abbrev gpu : Gpu ℕ
gpu = record { dev = in_order; error = λ call. 0; shared = λ k b. replicate 1024 7 }

gpu-IsGpu : IsGpu gpu 1024
gpu-IsGpu = record {
  device = in_order-IsDevice;
  quiet = λ call. refl;
  room = λ k b. length-replicate {A = ℕ} 1024 7;
}

abbrev pub options : Options
options = record default_options { array_size = 5; num_times = 2; selection = all }

-- Two blocks of four lanes, for ten indices.
grid_visits_ok_example :
    (is : List ℕ) × (grid_visits (wide_start 4) 8 10 4 0 2 ≡ ok is) × IsSchedule 10 is
grid_visits_ok_example = grid_visits_ok (wide_start 4) 8 10 4 2 (record {
  start_ok = λ b t hb ht. refl;
  stride_ok = omega arith;
  narrow = omega arith;
  small = omega arith;
  threads_pos = omega arith;
  blocks_pos = omega arith;
})

hip_implements_example : Implements {T = ℕ} (Hip.hip_stream gpu separate) (HipHolds 8) (IsHipSum 8)
hip_implements_example = hip_implements gpu gpu-IsGpu 8 (inr refl) separate

abbrev no_arrays : Arrays ℕ
no_arrays = record { a = []; b = []; c = [] }

abbrev hip_state : ℕ → Hip.HipStream ℕ
hip_state n = record {
  array_size = n;
  dot_num_blocks = Hip.dot_blocks 8 n;
  sums = [];
  device = no_arrays;
  host = no_arrays;
  calls = 11;
}

hip_dot_hung_example : Hip.dot gpu (hip_state (2 ^ 33)) ≡ hung
hip_dot_hung_example =
    hip_dot_hung gpu (hip_state (2 ^ 33)) gpu-IsGpu refl (omega arith) (omega arith)

hip_run_ok_example :
    Returns
      (run
        (Hip.hip_stream gpu separate)
        (λ id n device x y z.
          Hip.construct gpu 8 separate 1 (λ d. 1000) sevens sevens device n x y z)
        host
        8
        options)
      (HasTable 8 options)
hip_run_ok_example =
    hip_run_ok whole-IsExact reflexive host 8 gpu gpu-IsGpu separate 1 (λ d. 1000) sevens sevens
      sevens-IsAllocator sevens-IsAllocator (inr refl) options (omega arith) refl
      (record { some_items = omega arith; at_most = omega arith }) (omega arith) (omega arith)
      (omega arith)

abbrev suggested : Cuda.Kernel → ℕ
suggested k = 1024

cuda_implements_example :
    Implements {T = ℕ}
      (Cuda.cuda_stream gpu suggested Cuda.grid_stride managed)
      (CudaHolds 2)
      (IsCudaSum 2)
cuda_implements_example =
    cuda_implements gpu gpu-IsGpu 2 (omega arith) (omega arith) suggested (λ k. omega arith) managed

cuda_run_ok_example :
    Returns
      (run
        (Cuda.cuda_stream gpu suggested Cuda.grid_stride managed)
        (λ id n device x y z.
          Construct.construct gpu managed suggested Cuda.grid_stride 8 1
            (λ d. 2)
            (λ d. 1000)
            sevens
            sevens
            device
            n
            x
            y
            z)
        host
        8
        options)
      (HasTable 8 options)
cuda_run_ok_example =
    cuda_run_ok whole-IsExact reflexive host 8 gpu gpu-IsGpu managed suggested (λ k. omega arith) 1
      (λ d. 2) (λ d. 1000) sevens sevens sevens-IsAllocator sevens-IsAllocator options (omega arith)
      refl (record { at_least = omega arith; at_most = omega arith }) (omega arith) (omega arith)
      (record { some_bytes = omega arith; no_wrap = omega arith })
      (record { some_bytes = omega arith; no_wrap = omega arith }) (omega arith) (omega arith)
      (omega arith)

abbrev cuda_state : Cuda.CudaStream ℕ
cuda_state = record {
  array_size = 3;
  dot_num_blocks = 8;
  sums = [];
  device = no_arrays;
  host = no_arrays;
  threads = λ k. 0;
  calls = 14;
}

cuda_too_small_example :
    (Cuda.init_arrays gpu suggested Cuda.grid_stride 1 2 3 cuda_state ≡ fault)
    × (Cuda.copy gpu suggested Cuda.grid_stride cuda_state ≡ fault)
    × (Cuda.mul gpu suggested Cuda.grid_stride cuda_state ≡ fault)
    × (Cuda.add gpu suggested Cuda.grid_stride cuda_state ≡ fault)
    × (Cuda.triad gpu suggested Cuda.grid_stride cuda_state ≡ fault)
    × (Cuda.nstream gpu suggested Cuda.grid_stride cuda_state ≡ fault)
cuda_too_small_example =
    cuda_too_small gpu gpu-IsGpu suggested (λ k. omega arith) Cuda.grid_stride 1 2 3 cuda_state
      (omega arith) (λ k. omega arith)

stripe_visits-IsSchedule_example :
    (is : List ℕ) × (Cuda.stripe_visits (256 * 1) 500 0 2 ≡ ok is) × IsSchedule 500 is
stripe_visits-IsSchedule_example =
    stripe_visits-IsSchedule 1 500 2 (omega arith) (omega arith) (omega arith)

-- 2000 items in blocks of 256 lanes, as `for_each` splits them
stripe_visits_twice_example :
    (is : List ℕ) × (Cuda.stripe_visits 1000 2000 0 2 ≡ ok is) × (2 ≤ count 1000 is)
stripe_visits_twice_example =
    stripe_visits_twice 1000 2000 2 (omega arith) (omega arith) (omega arith) (omega arith)
