-- ===== src/Backend/Cuda.antt =====
-- src/cuda/CUDAStream.cu. The kernels of the source multiply by the `double` literal of the scalar:
-- the model is exact for `double`.
pub mod Construct
pub mod Launch
pub mod Contract
pub mod Limits
pub mod Made
pub mod Stripes
use babel_stream.Prelude.{
  ℕ, zero, suc, ◌+◌, ◌-◌, ◌*◌, ◌/◌, ◌%◌, ◌^◌, Bool, true, false, ◌&&◌, Option, none, some, List, [],
  ◌++◌, ltb, leb, ◌==◌, Run, ok, fault, threw, ◌>>=◌, ◌>>◌, if◌then◌else◌,
}
use babel_stream.Arith.{Arith}
use babel_stream.Loop
use babel_stream.Stream.{Arrays, Stream}
use babel_stream.Stream.Kernels.{init_body, copy_body, mul_body, add_body, triad_body, nstream_body}
use babel_stream.Backend.Memory.{Allocator}
use babel_stream.Backend.Gpu.{
  Gpu, Memory, separate, managed, pagefault, ceil_div, check_error, wide_start,
}
use babel_stream.Backend.Grid.{lane_visits, grid_visits, reduce_kernel, host_sum}

abbrev pub tb_size : ℕ
tb_size = 256

abbrev pub tb_size_dot : ℕ
tb_size_dot = 1024

-- The default, which the build may change
abbrev pub unroll_factor : ℕ
unroll_factor = 4

-- The macros `GRID_STRIDE` and `BLOCK_STRIDE`
pub data Stride : Type 0 where
  grid_stride : Stride
  block_stride : Stride

-- The function objects that `for_each` is instantiated for.
pub data Kernel : Type 0 where
  init_kernel copy_kernel mul_kernel add_kernel triad_kernel nstream_kernel : Kernel

abbrev pub rank : Kernel → ℕ
rank init_kernel = 0
rank copy_kernel = 1
rank mul_kernel = 2
rank add_kernel = 3
rank triad_kernel = 4
rank nstream_kernel = 5

-- `threads` is the static variable of `for_each`, one for each kernel.
pub record CudaStream {ℓ} (T : Type ℓ) : Type ℓ where
  pub array_size : ℕ
  pub dot_num_blocks : ℕ
  pub sums : List T
  pub device : Arrays T
  pub host : Arrays T
  pub threads : Kernel → ℕ
  pub calls : ℕ

-- `std::min`
abbrev pub smaller : ℕ → ℕ → ℕ
smaller a b = if ltb b a then b else a

-- With `BLOCK_STRIDE` the lanes `first, first + 1, …` of block `b`: each has a bound of its own.
unfoldable pub stripe_lanes : (start n b first lanes : ℕ) → Run (List ℕ)
stripe_lanes start n b first zero = ok []
stripe_lanes start n b first (suc lanes) = do
  is ← lane_visits (start * b + first) tb_size (smaller n (start * (b + 1) + first))
  rest ← stripe_lanes start n b (first + 1) lanes
  ok (is ++ rest)

-- The same of the blocks `first, first + 1, …`.
unfoldable pub stripe_visits : (start n first blocks : ℕ) → Run (List ℕ)
stripe_visits start n first zero = ok []
stripe_visits start n first (suc blocks) = do
  is ← stripe_lanes start n first 0 tb_size
  rest ← stripe_visits start n (first + 1) blocks
  ok (is ++ rest)

-- The indices for which `for_each_kernel` calls its function.
unfoldable pub kernel_visits : Stride → (start n blocks : ℕ) → Run (List ℕ)
kernel_visits grid_stride start n blocks =
    grid_visits (wide_start tb_size) (blocks * tb_size) n tb_size 0 blocks
kernel_visits block_stride start n blocks = stripe_visits start n 0 blocks

-- `ceil_div`, whose division by 0 is undefined
unfoldable pub ceil_div_any : (a b : ℕ) → Run ℕ
ceil_div_any a b = if b == 0 then fault else ok (ceil_div a b)

-- The static variables after an assignment
abbrev pub remember : Kernel → ℕ → (Kernel → ℕ) → Kernel → ℕ
remember k t threads j = if rank j == rank k then t else threads j

-- `suggested` is what the occupancy calculator answers for each kernel.
module _ {ℓ} {T : Type ℓ} (gpu : Gpu T) (suggested : Kernel → ℕ) (stride : Stride) where
  -- The block size for the kernel is asked for once.
  unfoldable pub threads_per_block : Kernel → CudaStream T → Run (CudaStream T)
  threads_per_block k s =
      if s.threads k == 0
      then (do
        check_error gpu s.calls
        ok (record s {
          threads = remember k (smaller tb_size (suggested k)) s.threads;
          calls = s.calls + 1;
        }))
      else ok s

  -- The grid is as large as for blocks of the suggested size, but the blocks have `TBSIZE` lanes.
  unfoldable pub for_each :
      Kernel → (ℕ → Arrays T → Run (Arrays T)) → CudaStream T → Run (CudaStream T)
  unfolding threads_per_block
  for_each k body s = do
    s' ← threads_per_block k s
    blocks ← ceil_div_any (s'.array_size / unroll_factor) (s'.threads k)
    start ← ceil_div_any s'.array_size blocks
    check_error gpu s'.calls
    is ← kernel_visits stride start s'.array_size (blocks % 2 ^ 32)
    t ← Loop.for_each (gpu.dev.interleave s'.calls is) body s'.device
    check_error gpu (s'.calls + 1)
    ok (record s' { device = t; calls = s'.calls + 2 })

  unfoldable pub init_arrays : T → T → T → CudaStream T → Run (CudaStream T)
  unfolding for_each
  init_arrays x y z s = for_each init_kernel (init_body x y z) s

module _ {ℓ} {T : Type ℓ} (gpu : Gpu T) (mem : Memory) where
  -- After a synchronisation the pointers of unified memory, or copies of the arrays.
  unfoldable pub get_arrays : CudaStream T → Run (Arrays T × CudaStream T)
  get_arrays s = do
    check_error gpu s.calls
    elim mem [
      | separate ↦ do
        check_error gpu (s.calls + 1)
        check_error gpu (s.calls + 2)
        check_error gpu (s.calls + 3)
        let t = record s { host = s.device; calls = s.calls + 4 }
        ok (t.host, t)
      | managed ↦ ok (s.device, record s { calls = s.calls + 1 })
      | pagefault ↦ ok (s.device, record s { calls = s.calls + 1 })
    ]

module _ {ℓ} {T : Type ℓ} ⦃r : Arith T⦄ (gpu : Gpu T) (suggested : Kernel → ℕ)
    (stride : Stride) where
  unfoldable pub copy : CudaStream T → Run (CudaStream T)
  unfolding for_each
  copy s = for_each gpu suggested stride copy_kernel copy_body s

  unfoldable pub mul : CudaStream T → Run (CudaStream T)
  unfolding for_each
  mul s = for_each gpu suggested stride mul_kernel mul_body s

  unfoldable pub add : CudaStream T → Run (CudaStream T)
  unfolding for_each
  add s = for_each gpu suggested stride add_kernel add_body s

  unfoldable pub triad : CudaStream T → Run (CudaStream T)
  unfolding for_each
  triad s = for_each gpu suggested stride triad_kernel triad_body s

  unfoldable pub nstream : CudaStream T → Run (CudaStream T)
  unfolding for_each
  nstream s = for_each gpu suggested stride nstream_kernel nstream_body s

module _ {ℓ} {T : Type ℓ} ⦃r : Arith T⦄ (gpu : Gpu T) where
  unfoldable pub dot : CudaStream T → Run (T × CudaStream T)
  dot s = do
    let blocks = s.dot_num_blocks % 2 ^ 32
    check_error gpu s.calls
    sums ←
        reduce_kernel gpu.dev s.calls s.device (wide_start tb_size_dot) (blocks * tb_size_dot)
          s.array_size tb_size_dot blocks (gpu.shared s.calls) s.sums
    check_error gpu (s.calls + 1)
    sum ← host_sum s.dot_num_blocks sums
    ok (sum, record s { sums = sums; calls = s.calls + 2 })

  abbrev pub cuda_stream : (Kernel → ℕ) → Stride → Memory → Stream T
  cuda_stream suggested stride mem = record {
    State = CudaStream T;
    copy = copy gpu suggested stride;
    mul = mul gpu suggested stride;
    add = add gpu suggested stride;
    triad = triad gpu suggested stride;
    nstream = nstream gpu suggested stride;
    dot = dot;
    get_arrays = get_arrays gpu mem;
  }
