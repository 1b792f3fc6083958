-- ===== src/Backend/Hip.antt =====
-- src/hip/HIPStream.cpp: grids of blocks of 1024 threads.
pub mod Contract
pub mod Limits
use babel_stream.Prelude.{
  ℕ, zero, suc, ◌+◌, ◌-◌, ◌*◌, ◌/◌, ◌%◌, ◌^◌, Bool, true, false, ◌&&◌, List, [], ltb, leb, Run, ok,
  threw, ◌>>=◌, ◌>>◌, defined, if◌then◌else◌,
}
use babel_stream.Arith.{Arith}
use babel_stream.Stream.{Arrays, Stream}
use babel_stream.Stream.Kernels.{init_body, copy_body, mul_body, add_body, triad_body, nstream_body}
use babel_stream.Backend.Memory.{room, IsSize, room_ok, Allocator, allocate}
use babel_stream.Backend.Gpu.{
  Gpu, Memory, separate, managed, pagefault, ceil_div, check_error, wide_start,
}
use babel_stream.Backend.Grid.{grid_for, reduce_kernel, host_sum}

-- `TBSIZE`
abbrev pub tb_size : ℕ
tb_size = 1024

-- `dot_elements_per_lane`, from `sizeof(T)`
unfoldable pub dot_elements_per_lane : (size_of : ℕ) → ℕ
dot_elements_per_lane size_of = if ltb (4 * 4) size_of then 1 else 4 * 4 / size_of

-- The blocks of the reduction for `n` items
unfoldable pub dot_blocks : (size_of n : ℕ) → ℕ
unfolding dot_elements_per_lane
dot_blocks size_of n =
    let per_block = tb_size * dot_elements_per_lane size_of in (n + (per_block - 1)) / per_block

-- `calls` counts the calls of the run time that are checked.
pub record HipStream {ℓ} (T : Type ℓ) : Type ℓ where
  pub array_size : ℕ
  pub dot_num_blocks : ℕ
  pub sums : List T
  pub device : Arrays T
  pub host : Arrays T
  pub calls : ℕ

-- `blockDim.x * blockIdx.x + local_i`, where the product has 32 bits
abbrev pub narrow_start : (threads b t : ℕ) → ℕ
narrow_start threads b t = threads * b % 2 ^ 32 + t

module _ {ℓ} {T : Type ℓ} (gpu : Gpu T) where
  -- A kernel in `dim3(blocks)` blocks, with the checks around it: `dim3` has 32 bits.
  unfoldable pub launch : (ℕ → Arrays T → Run (Arrays T)) → HipStream T → Run (HipStream T)
  launch body s = do
    let blocks = ceil_div s.array_size tb_size % 2 ^ 32
    check_error gpu s.calls
    t ←
        grid_for gpu.dev s.calls (wide_start tb_size) (blocks * tb_size) s.array_size tb_size blocks
          body s.device
    check_error gpu (s.calls + 1)
    ok (record s { device = t; calls = s.calls + 2 })

  unfoldable pub init_arrays : T → T → T → HipStream T → Run (HipStream T)
  unfolding launch
  init_arrays x y z s = launch (init_body x y z) s

  -- The checks of three `hipMalloc` or `hipMallocManaged`; `malloc` is not checked.
  unfoldable pub check_allocations : Memory → (call : ℕ) → Run (Unit {0})
  check_allocations pagefault call = ok tt
  check_allocations separate call = do
    check_error gpu call
    check_error gpu (call + 1)
    check_error gpu (call + 2)
  check_allocations managed call = do
    check_error gpu call
    check_error gpu (call + 1)
    check_error gpu (call + 2)

  -- `count` devices, of which device `d` has `global_mem d` bytes; the device asked for is cut to an
  -- `int`, which is negative from 2 ^ 31 on.
  -- The first five checks are those of the choice of the device and of the lines about it.
  unfoldable pub construct :
      (size_of : ℕ) (mem : Memory) (count : ℕ) (global_mem : ℕ → ℕ)
      (on_host on_device : Allocator T) (device_index n : ℕ)
      → T
      → T
      → T
      → Run (HipStream T)
  unfolding init_arrays check_allocations
  construct size_of mem count global_mem on_host on_device device_index n x y z = do
    let array_bytes = size_of * n % 2 ^ 64
    let blocks = dot_blocks size_of n
    check_error gpu 0
    let device = device_index % 2 ^ 32
    if ltb device (2 ^ 31) && leb count device then threw "Invalid device index" else ok tt
    check_error gpu 1
    check_error gpu 2
    check_error gpu 3
    check_error gpu 4
    check_error gpu 5
    sums ← defined (on_host 0 (room size_of blocks))
    if ltb (global_mem 0) (array_bytes * 3 % 2 ^ 64)
        then threw "Device does not have enough memory for all 3 buffers"
        else ok tt
    check_allocations mem 6
    fresh ← allocate on_device (room size_of n)
    init_arrays x y z (record {
      array_size = n;
      dot_num_blocks = blocks;
      sums = sums;
      device = fresh;
      host = record { a = []; b = []; c = [] };
      calls = 9;
    })

  -- With unified memory the pointers are those of the device, otherwise the arrays are copied.
  unfoldable pub get_arrays : Memory → HipStream T → Run (Arrays T × HipStream T)
  get_arrays mem s = elim mem [
    | separate ↦ do
      check_error gpu s.calls
      check_error gpu (s.calls + 1)
      check_error gpu (s.calls + 2)
      let t = record s { host = s.device; calls = s.calls + 3 }
      ok (t.host, t)
    | managed ↦ ok (s.device, s)
    | pagefault ↦ ok (s.device, s)
  ]

module _ {ℓ} {T : Type ℓ} ⦃r : Arith T⦄ (gpu : Gpu T) where
  unfoldable pub copy : HipStream T → Run (HipStream T)
  unfolding launch
  copy s = launch gpu copy_body s

  unfoldable pub mul : HipStream T → Run (HipStream T)
  unfolding launch
  mul s = launch gpu mul_body s

  unfoldable pub add : HipStream T → Run (HipStream T)
  unfolding launch
  add s = launch gpu add_body s

  unfoldable pub triad : HipStream T → Run (HipStream T)
  unfolding launch
  triad s = launch gpu triad_body s

  unfoldable pub nstream : HipStream T → Run (HipStream T)
  unfolding launch
  nstream s = launch gpu nstream_body s

  -- The index and the stride of the reduction have 32 bits.
  unfoldable pub dot : HipStream T → Run (T × HipStream T)
  dot s = do
    let blocks = s.dot_num_blocks % 2 ^ 32
    check_error gpu s.calls
    sums ←
        reduce_kernel gpu.dev s.calls s.device (narrow_start tb_size) (tb_size * blocks % 2 ^ 32)
          s.array_size tb_size blocks (gpu.shared s.calls) s.sums
    check_error gpu (s.calls + 1)
    sum ← host_sum s.dot_num_blocks sums
    ok (sum, record s { sums = sums; calls = s.calls + 2 })

  abbrev pub hip_stream : Memory → Stream T
  hip_stream mem = record {
    State = HipStream T;
    copy = copy;
    mul = mul;
    add = add;
    triad = triad;
    nstream = nstream;
    dot = dot;
    get_arrays = get_arrays gpu mem;
  }
