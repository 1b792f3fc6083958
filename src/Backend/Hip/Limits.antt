-- ===== src/Backend/Hip/Limits.antt =====
-- The HIP back end: its constructor, its errors, and where its reduction stops working.
use babel_stream.Prelude.{
  ℕ, ◌+◌, ◌*◌, ◌%◌, ◌^◌, ◌<◌, ◌≤◌, ◌≡◌, inl, inr, refl, sym, ap, ◌∙◌, List, [], replicate, length,
  length-replicate, ok, hung, Returns, arith, false, ◌&&◌, ltb, leb,
}
use babel_stream.Arith.{Arith, IsExact}
use babel_stream.Stream.{Arrays, Row, arrays_of}
use babel_stream.Stream.Kernels.{init_body}
use babel_stream.Stream.Dot.{dot_rows}
use babel_stream.Backend.Memory.{
  room, IsSize, room_ok, Allocator, IsAllocator, allocate_rows, for_each-init_replicate,
}
use babel_stream.Backend.Gpu.{Gpu, IsGpu, Memory, separate, managed, pagefault, check_error_ok}
use babel_stream.Backend.Grid.Exact.{grid_sum-dot_rows}
use babel_stream.Backend.Grid.Launch.{
  grid_order, grid_order-IsSchedule, grid_for_ok, reduce_kernel_stuck,
}
use babel_stream.Backend.Hip.{
  tb_size, dot_elements_per_lane, dot_blocks, HipStream, narrow_start, launch, init_arrays,
  check_allocations, construct, dot,
}
use babel_stream.Backend.Hip.Contract.{
  IsElementSize, Fits, Holds, IsHipSum, launch-IsGrid, dot-IsGrid, dot_blocks_bounds,
}

module _ {ℓ} {T : Type ℓ} (gpu : Gpu T) (good : IsGpu gpu tb_size) where
  check_allocations_ok : (mem : Memory) (call : ℕ) → check_allocations gpu mem call ≡ ok tt
  unfolding check_allocations
  check_allocations_ok pagefault call = refl
  check_allocations_ok separate call =
      rw
        (
          check_error_ok gpu tb_size call good,
          check_error_ok gpu tb_size (call + 1) good,
          check_error_ok gpu tb_size (call + 2) good,
        )
        refl
  check_allocations_ok managed call =
      rw
        (
          check_error_ok gpu tb_size call good,
          check_error_ok gpu tb_size (call + 1) good,
          check_error_ok gpu tb_size (call + 2) good,
        )
        refl

  -- Three arrays of so many items do not overflow `size_t`.
  no_overflow :
      (size_of n : ℕ)
      → IsElementSize size_of
      → Fits n
      → (size_of * n % 2 ^ 64) * 3 % 2 ^ 64 ≡ 3 * (size_of * n)
  no_overflow size_of n (inl e) fits = let upper = fits.at_most in rw e (omega arith)
  no_overflow size_of n (inr e) fits = let upper = fits.at_most in rw e (omega arith)

  init_arrays-replicate :
      (x y z : T) (s : HipStream T) (l : List (Row T)) (n k : ℕ)
      → Fits n
      → length l ≡ n
      → s.array_size ≡ n
      → s.device ≡ arrays_of l
      → s.calls ≡ k
      → init_arrays gpu x y z s
        ≡ ok (record s {
          device = arrays_of (replicate n (record { a = x; b = y; c = z }));
          calls = k + 2;
        })
  unfolding init_arrays launch
  init_arrays-replicate x y z s l n k fits size e d c =
      let grid = launch-IsGrid n fits in
      rw
        (
          c,
          e,
          d,
          check_error_ok gpu tb_size k good,
          check_error_ok gpu tb_size (k + 1) good,
          grid_for_ok gpu.dev good.device k grid (init_body x y z) (arrays_of l),
          for_each-init_replicate x y z (grid_order gpu.dev good.device k grid) l n size
              (grid_order-IsSchedule gpu.dev good.device k grid),
        )
        refl

  filled :
      (size_of n : ℕ) (x : Row T) (sums : List T) (h : Arrays T) (k : ℕ)
      → Fits n
      → length sums ≡ dot_blocks size_of n
      → Holds size_of
          (record {
            array_size = n;
            dot_num_blocks = dot_blocks size_of n;
            sums = sums;
            device = arrays_of (replicate n x);
            host = h;
            calls = k;
          })
          (replicate n x)
  filled size_of n x sums h k fits size = (
    sums,
    h,
    k,
    rw (length-replicate n x) size,
    rw (length-replicate n x) fits,
    ap
        (λ m. record {
          array_size = m;
          dot_num_blocks = dot_blocks size_of m;
          sums = sums;
          device = arrays_of (replicate n x);
          host = h;
          calls = k;
        })
        (sym (length-replicate n x)),
  )

  few_bytes : (size_of b : ℕ) → IsElementSize size_of → b ≤ 2 ^ 32 → IsSize size_of b
  few_bytes size_of b sized few = elim sized [
    | inl e ↦ record { some_bytes = omega (arith, e); no_wrap = rw e (omega (arith, few)) }
    | inr e ↦ record { some_bytes = omega (arith, e); no_wrap = rw e (omega (arith, few)) }
  ]

  -- If every allocation succeeds, on a device that is there, where device 0 has the memory for three arrays, the constructor fills
  -- every item of the arrays of the device with the initial values.
  pub hip_construct_ok :
      (size_of : ℕ) (mem : Memory) (count : ℕ) (global_mem : ℕ → ℕ)
      (on_host on_device : Allocator T) (device_index n : ℕ) (x y z : T)
      → IsElementSize size_of
      → Fits n
      → device_index < count
      → count < 2 ^ 31
      → 3 * (size_of * n) ≤ global_mem 0
      → IsAllocator on_host
      → IsAllocator on_device
      → Returns
          (construct gpu size_of mem count global_mem on_host on_device device_index n x y z)
          (λ s. Holds size_of s (replicate n (record { a = x; b = y; c = z })))
  unfolding construct
  hip_construct_ok size_of mem count global_mem on_host on_device device_index n x y z sized fits
        there int room good_host good_device =
      let (sums, es, size) = good_host 0 (dot_blocks size_of n) in
      let (l, e, m) = allocate_rows on_device good_device n in
      let cut : device_index % 2 ^ 32 ≡ device_index = omega arith in
      let found : ltb device_index (2 ^ 31) && leb count device_index ≡ false = ground arith in
      let enough : ltb (global_mem 0) ((size_of * n % 2 ^ 64) * 3 % 2 ^ 64) ≡ false =
        ground (arith, no_overflow size_of n sized fits) in
      let begin =
        init_arrays-replicate x y z
          (record {
            array_size = n;
            dot_num_blocks = dot_blocks size_of n;
            sums = sums;
            device = arrays_of l;
            host = record { a = []; b = []; c = [] };
            calls = 9;
          })
          l n 9 fits m refl refl refl in
      rw
        (
          check_error_ok gpu tb_size 0 good,
          check_error_ok gpu tb_size 1 good,
          check_error_ok gpu tb_size 2 good,
          check_error_ok gpu tb_size 3 good,
          check_error_ok gpu tb_size 4 good,
          check_error_ok gpu tb_size 5 good,
          cut,
          found,
          room_ok size_of (dot_blocks size_of n) (
              few_bytes size_of (dot_blocks size_of n) sized
                (omega (arith, (dot_blocks_bounds size_of n sized fits).1))),
          es,
          enough,
          check_allocations_ok mem 6,
          room_ok size_of n (few_bytes size_of n sized fits.at_most),
          e,
          begin,
        )
        (_, refl, filled size_of n _ sums _ 11 fits size)

module _ {ℓ} {T : Type ℓ} ⦃r : Arith T⦄ where
  -- In exact arithmetic the sum that `dot` returns is the dot product.
  pub IsHipSum-dot_rows :
      IsExact T
      → (size_of : ℕ) (l : List (Row T)) (v : T) → IsElementSize size_of
      → IsHipSum size_of l v
      → v ≡ dot_rows l
  IsHipSum-dot_rows exact size_of l v sized (fits, e) =
      let (pos, le) = dot_blocks_bounds size_of (length l) sized fits in
      e
      ∙ grid_sum-dot_rows exact (narrow_start tb_size) 10 _ _ l
          (dot-IsGrid (length l) (dot_blocks size_of (length l)) fits pos le)

  -- For `double` and 2^33 - 2047 to 2^33 items the stride of the reduction is 0 modulo 2^32, and
  -- `dot` never returns, unless the device refuses the launch.
  pub hip_dot_hung :
      (gpu : Gpu T) (s : HipStream T)
      → IsGpu gpu tb_size
      → s.dot_num_blocks ≡ dot_blocks 8 s.array_size
      → 2 ^ 33 < s.array_size + 2048
      → s.array_size ≤ 2 ^ 33
      → dot gpu s ≡ hung
  unfolding dot dot_blocks dot_elements_per_lane
  hip_dot_hung gpu s good blocks lower upper =
      let many : s.dot_num_blocks ≡ 2 ^ 22 = blocks ∙ omega arith in
      let dim : s.dot_num_blocks % 2 ^ 32 ≡ 2 ^ 22 = omega arith in
      let none : tb_size * (s.dot_num_blocks % 2 ^ 32) % 2 ^ 32 ≡ 0 = omega arith in
      let stuck =
        reduce_kernel_stuck gpu.dev s.calls s.device (narrow_start tb_size) s.array_size tb_size
          (s.dot_num_blocks % 2 ^ 32) (gpu.shared s.calls) s.sums good.device (omega arith)
          (omega arith) (omega arith) (λ b t hb ht. omega arith) in
      rw (check_error_ok gpu tb_size s.calls good, none, stuck) refl
