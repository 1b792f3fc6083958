-- ===== src/Backend/Cuda/Made.antt =====
-- What the constructor of the CUDA back end makes.
use babel_stream.Prelude.{
  ℕ, ◌+◌, ◌*◌, ◌%◌, ◌^◌, ◌<◌, ◌≤◌, ◌≡◌, refl, sym, ap₂, subst, List, [], replicate, length, ok,
  Returns, arith, false, ◌&&◌, ltb, leb, some,
}
use babel_stream.Stream.{Row}
use babel_stream.Stream.Kernels.{init_body}
use babel_stream.Stream.Laws.{for_each-init, init_row}
use babel_stream.Backend.Memory.{
  room, IsSize, room_ok, Allocator, IsAllocator, rows, arrays_of-rows, map-const,
}
use babel_stream.Backend.Gpu.{Gpu, IsGpu, Memory, separate, managed, pagefault, check_error_ok}
use babel_stream.Backend.Cuda.{
  tb_size_dot, Kernel, init_kernel, grid_stride, CudaStream, init_arrays,
}
use babel_stream.Backend.Cuda.Construct.{alloc_device, alloc_host, construct}
use babel_stream.Backend.Cuda.Launch.{Fits, IsOccupancy, Holds, for_each-loop}

module _ {ℓ} {T : Type ℓ} (gpu : Gpu T) (good : IsGpu gpu tb_size_dot) where
  alloc_device_ok :
      (mem : Memory) (alloc : Allocator T) (size_of block n call : ℕ) (p : List T)
      → alloc block (room size_of n) ≡ some p
      → alloc_device gpu mem alloc size_of block n call ≡ ok p
  unfolding alloc_device
  alloc_device_ok separate alloc size_of block n call p e =
      rw (check_error_ok gpu tb_size_dot call good, e) refl
  alloc_device_ok managed alloc size_of block n call p e =
      rw (check_error_ok gpu tb_size_dot call good, e) refl
  alloc_device_ok pagefault alloc size_of block n call p e = rw e refl

  alloc_host_ok :
      (mem : Memory) (alloc : Allocator T) (size_of block n call : ℕ) (p : List T)
      → alloc block (room size_of n) ≡ some p
      → alloc_host gpu mem alloc size_of block n call ≡ ok p
  unfolding alloc_host
  alloc_host_ok separate alloc size_of block n call p e =
      rw (check_error_ok gpu tb_size_dot call good, e) refl
  alloc_host_ok managed alloc size_of block n call p e =
      rw (check_error_ok gpu tb_size_dot call good, e) refl
  alloc_host_ok pagefault alloc size_of block n call p e = rw e refl

  -- The first kernel, on arrays that hold anything.
  begin_ok :
      (suggested : Kernel → ℕ)
      → IsOccupancy suggested
      → (processors n : ℕ) (l : List (Row T)) (x y z : T) (s : CudaStream T) → length l ≡ n
      → Holds processors s l
      → Returns
          (init_arrays gpu suggested grid_stride x y z s)
          (λ t. Holds processors t (replicate n (record { a = x; b = y; c = z })))
  unfolding init_arrays
  begin_ok suggested occupancy processors n l x y z s size h =
      subst
        (λ m. Returns (init_arrays gpu suggested grid_stride x y z s) (λ t. Holds processors t m))
        (map-const n l (record { a = x; b = y; c = z }) size)
        (for_each-loop gpu good suggested occupancy processors init_kernel (init_body x y z)
          (init_row x y z) (for_each-init x y z) s l h)

  -- If every allocation succeeds, on a device that is there and has the memory for three arrays and the sums, the constructor fills
  -- every item of the arrays of the device with the initial values.
  pub cuda_construct_ok :
      (mem : Memory) (suggested : Kernel → ℕ) (size_of count : ℕ) (processors global_mem : ℕ → ℕ)
      (on_host on_device : Allocator T) (device_index n : ℕ) (x y z : T)
      → IsOccupancy suggested
      → Fits n
      → device_index < count
      → count < 2 ^ 31
      → IsSize size_of n
      → IsSize size_of (processors device_index * 4)
      → ((size_of * n % 2 ^ 64) * 3 + size_of * (processors device_index * 4) % 2 ^ 64) % 2 ^ 64
        ≤ global_mem device_index
      → IsAllocator on_host
      → IsAllocator on_device
      → Returns
          (construct gpu mem suggested grid_stride size_of count processors global_mem on_host
            on_device device_index n x y z)
          (λ s. Holds (processors device_index) s (replicate n (record { a = x; b = y; c = z })))
  unfolding construct
  cuda_construct_ok mem suggested size_of count processors global_mem on_host on_device device_index
        n x y z occupancy fits there int wide wide_sums memory good_host good_device =
      let blocks = processors device_index * 4 in
      let (sums, es, size) = good_host 0 (processors device_index * 4) in
      let (p, ea, na) = good_device 0 n in
      let (q, eb, nb) = good_device 1 n in
      let (w, ec, nc) = good_device 2 n in
      let (e, m) = arrays_of-rows n p q w na nb nc in
      let items : room size_of n ≡ n = room_ok size_of n wide in
      let groups : room size_of (processors device_index * 4) ≡ processors device_index * 4 =
        room_ok size_of (processors device_index * 4) wide_sums in
      let cut : device_index % 2 ^ 32 ≡ device_index = omega arith in
      let found : ltb device_index (2 ^ 31) && leb count device_index ≡ false = ground arith in
      let enough : ltb (global_mem device_index) (
            ((size_of * n % 2 ^ 64) * 3 + size_of * (processors device_index * 4) % 2 ^ 64)
            % 2 ^ 64)
          ≡ false =
        ground arith in
      let made : Holds (processors device_index)
          (record {
            array_size = n;
            dot_num_blocks = processors device_index * 4;
            sums = sums;
            device = record { a = p; b = q; c = w };
            host = record { a = []; b = []; c = [] };
            threads = λ k. 0;
            calls = 14;
          })
          (rows p q w) =
        (
          sums,
          record { a = []; b = []; c = [] },
          (λ k. 0),
          14,
          size,
          rw m fits,
          (λ k. omega arith),
          ap₂
              (λ k d. record {
                array_size = k;
                dot_num_blocks = processors device_index * 4;
                sums = sums;
                device = d;
                host = record { a = []; b = []; c = [] };
                threads = λ k. 0;
                calls = 14;
              })
              (sym m) (sym e),
        ) in
      let begun =
        begin_ok suggested occupancy (processors device_index) n (rows p q w) x y z _ m made in
      rw
        (
          check_error_ok gpu tb_size_dot 0 good,
          check_error_ok gpu tb_size_dot 1 good,
          check_error_ok gpu tb_size_dot 2 good,
          check_error_ok gpu tb_size_dot 3 good,
          check_error_ok gpu tb_size_dot 4 good,
          check_error_ok gpu tb_size_dot 5 good,
          check_error_ok gpu tb_size_dot 6 good,
          check_error_ok gpu tb_size_dot 7 good,
          check_error_ok gpu tb_size_dot 8 good,
          check_error_ok gpu tb_size_dot 9 good,
          cut,
          found,
          enough,
          alloc_device_ok mem on_device size_of 0 n 10 p (rw items ea),
          alloc_device_ok mem on_device size_of 1 n 11 q (rw items eb),
          alloc_device_ok mem on_device size_of 2 n 12 w (rw items ec),
          alloc_host_ok mem on_host size_of 0 (processors device_index * 4) 13 sums (rw groups es),
        )
        begun
