-- ===== src/Backend/Cuda/Construct.antt =====
-- The constructor of src/cuda/CUDAStream.cu and its allocations.
use babel_stream.Prelude.{
  ℕ, ◌+◌, ◌*◌, ◌%◌, ◌^◌, ◌&&◌, none, some, List, [], ltb, leb, Run, ok, threw, ◌>>=◌, ◌>>◌,
  if◌then◌else◌,
}
use babel_stream.Backend.Memory.{room, Allocator}
use babel_stream.Backend.Gpu.{Gpu, Memory, separate, managed, pagefault, check_error}
use babel_stream.Backend.Cuda.{Kernel, Stride, CudaStream, init_arrays}

module _ {ℓ} {T : Type ℓ} (gpu : Gpu T) (mem : Memory) where
  -- Only the calls of the run time have a status.
  abbrev check_unless_malloc : (call : ℕ) → Run (Unit {0})
  check_unless_malloc call = elim mem [
    | pagefault ↦ ok tt
    | separate ↦ check_error gpu call
    | managed ↦ check_error gpu call
  ]

  unfoldable pub alloc_device : Allocator T → (size_of block items call : ℕ) → Run (List T)
  alloc_device alloc size_of block items call = do
    check_unless_malloc call
    elim (alloc block (room size_of items)) [
      | none ↦ threw "Failed to allocate device array"
      | some p ↦ ok p
    ]

  unfoldable pub alloc_host : Allocator T → (size_of block items call : ℕ) → Run (List T)
  alloc_host alloc size_of block items call = do
    check_unless_malloc call
    elim (alloc block (room size_of items)) [
      | none ↦ threw "Failed to allocate host array"
      | some p ↦ ok p
    ]

  -- The device asked for is cut to an `int`, which is negative from 2 ^ 31 on. There are `count`
  -- devices, of which device `d` has `processors d` multiprocessors and `global_mem d` bytes.
  -- Calls 2 to 9 make the stream and ask for what is printed about the device.
  unfoldable pub construct :
      (suggested : Kernel → ℕ) (stride : Stride) (size_of count : ℕ) (processors global_mem : ℕ → ℕ)
      (on_host on_device : Allocator T) (device_index n : ℕ)
      → T
      → T
      → T
      → Run (CudaStream T)
  unfolding init_arrays alloc_device alloc_host
  construct suggested stride size_of count processors global_mem on_host on_device device_index n x
        y z =
      do
        check_error gpu 0
        let device = device_index % 2 ^ 32
        if ltb device (2 ^ 31) && leb count device then threw "Invalid device index" else ok tt
        check_error gpu 1
        check_error gpu 2
        check_error gpu 3
        check_error gpu 4
        check_error gpu 5
        check_error gpu 6
        check_error gpu 7
        check_error gpu 8
        check_error gpu 9
        let blocks = processors device * 4
        let sums_bytes = size_of * blocks % 2 ^ 64
        let array_bytes = size_of * n % 2 ^ 64
        if ltb (global_mem device) ((array_bytes * 3 + sums_bytes) % 2 ^ 64)
            then threw "Device does not have enough memory for all buffers"
            else ok tt
        a' ← alloc_device on_device size_of 0 n 10
        b' ← alloc_device on_device size_of 1 n 11
        c' ← alloc_device on_device size_of 2 n 12
        sums ← alloc_host on_host size_of 0 blocks 13
        init_arrays gpu suggested stride x y z (record {
          array_size = n;
          dot_num_blocks = blocks;
          sums = sums;
          device = record { a = a'; b = b'; c = c' };
          host = record { a = []; b = []; c = [] };
          threads = λ k. 0;
          calls = 14;
        })
