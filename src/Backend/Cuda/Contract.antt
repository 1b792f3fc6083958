-- ===== src/Backend/Cuda/Contract.antt =====
-- With `GRID_STRIDE` the CUDA back end meets the contract of `Stream`.
use babel_stream.Prelude.{
  ℕ, ◌+◌, ◌*◌, ◌%◌, ◌^◌, ◌<◌, ◌≤◌, ◌≡◌, refl, sym, ap, ◌∙◌, List, length, Returns, arith,
}
use babel_stream.Arith.{Arith, IsExact}
use babel_stream.Stream.{
  Row, arrays_of, Implements, copy_row, mul_row, add_row, triad_row, nstream_row,
}
use babel_stream.Stream.Kernels.{copy_body, mul_body, add_body, triad_body, nstream_body}
use babel_stream.Stream.Laws.{
  for_each-copy, for_each-mul, for_each-add, for_each-triad, for_each-nstream,
}
use babel_stream.Stream.Dot.{product_at, dot_rows}
use babel_stream.Backend.Gpu.{
  Gpu, IsGpu, Memory, separate, managed, pagefault, check_error_ok, wide_start,
}
use babel_stream.Backend.Grid.{host_sum}
use babel_stream.Backend.Grid.Reduction.{grid_sum, grid_dot_ok}
use babel_stream.Backend.Grid.Exact.{grid_sum-dot_rows}
use babel_stream.Backend.Cuda.{
  tb_size_dot, grid_stride, Kernel, copy_kernel, mul_kernel, add_kernel, triad_kernel,
  nstream_kernel, CudaStream, copy, mul, add, triad, nstream, dot, get_arrays, cuda_stream,
}
use babel_stream.Backend.Cuda.Launch.{Fits, IsOccupancy, at, Holds, dot-IsGrid, for_each-loop}

module _ {ℓ} {T : Type ℓ} ⦃r : Arith T⦄ where
  -- The sum of the lanes from the left, of the blocks by a tree, of all blocks from the left, on four
  -- blocks for each multiprocessor.
  abbrev pub IsCudaSum : (processors : ℕ) → List (Row T) → T → Type ℓ
  IsCudaSum processors l v =
      let blocks = processors * 4 % 2 ^ 32 in
      Fits (length l)
      × (v
          ≡ grid_sum (wide_start tb_size_dot) 10 (blocks * tb_size_dot) (length l) blocks
              (product_at l))

  -- In exact arithmetic that is the dot product.
  pub IsCudaSum-dot_rows :
      IsExact T
      → (processors : ℕ) → 0 < processors
      → processors ≤ 2 ^ 20
      → (l : List (Row T)) (v : T) → IsCudaSum processors l v
      → v ≡ dot_rows l
  IsCudaSum-dot_rows exact processors pos few l v (fits, e) =
      e
      ∙ grid_sum-dot_rows exact (wide_start tb_size_dot) 10 _ _ l
          (dot-IsGrid (length l) (processors * 4) fits.at_most (omega arith) (omega arith))

  module _ (gpu : Gpu T) (good : IsGpu gpu tb_size_dot) (processors : ℕ) (pos : 0 < processors)
      (few : processors ≤ 2 ^ 20) where
    dot_ok :
        (s : CudaStream T) (l : List (Row T))
        → Holds processors s l
        → Returns (dot gpu s) (λ v. IsCudaSum processors l v.0 × Holds processors v.1 l)
    unfolding dot
    dot_ok s l (sums, h, threads, k, size, fits, cache, e) =
        let same : processors * 4 % 2 ^ 32 ≡ processors * 4 = omega arith in
        let grid =
          dot-IsGrid (length l) (processors * 4) fits.at_most (omega arith) (omega arith) in
        let (ys, reduced, size', total) =
          grid_dot_ok gpu.dev good.device k 10 (wide_start tb_size_dot) l grid (gpu.shared k) sums
            (good.room k) (size ∙ sym same) in
        let total' = ap (λ b. host_sum b ys) (sym same) ∙ total in
        rw
          (
            e,
            check_error_ok gpu tb_size_dot k good,
            reduced,
            check_error_ok gpu tb_size_dot (k + 1) good,
            total',
          )
          (
            (_, at processors l ys h threads (k + 2)),
            refl,
            ((fits, refl), (ys, h, threads, k + 2, size' ∙ same, fits, cache, refl)),
          )

    get_arrays_ok :
        (mem : Memory) (s : CudaStream T) (l : List (Row T))
        → Holds processors s l
        → Returns (get_arrays gpu mem s) (λ v. (v.0 ≡ arrays_of l) × Holds processors v.1 l)
    unfolding get_arrays
    get_arrays_ok separate s l (sums, h, threads, k, size, fits, cache, e) =
        rw
          (
            e,
            check_error_ok gpu tb_size_dot k good,
            check_error_ok gpu tb_size_dot (k + 1) good,
            check_error_ok gpu tb_size_dot (k + 2) good,
            check_error_ok gpu tb_size_dot (k + 3) good,
          )
          (_, refl, (refl, (sums, arrays_of l, threads, k + 4, size, fits, cache, refl)))
    get_arrays_ok managed s l (sums, h, threads, k, size, fits, cache, e) =
        rw (e, check_error_ok gpu tb_size_dot k good)
          (_, refl, (refl, (sums, h, threads, k + 1, size, fits, cache, refl)))
    get_arrays_ok pagefault s l (sums, h, threads, k, size, fits, cache, e) =
        rw (e, check_error_ok gpu tb_size_dot k good)
          (_, refl, (refl, (sums, h, threads, k + 1, size, fits, cache, refl)))

    -- For any device of 1 to 2^20 multiprocessors of which no call fails, and any positive answers of
    -- the occupancy calculator, the CUDA back end with `GRID_STRIDE` meets the contract of `Stream`,
    -- for arrays of at least 4 and less than 2^34 items; `dot` returns one sum, which does not depend
    -- on the order of the lanes.
    pub cuda_implements :
        (suggested : Kernel → ℕ)
        → IsOccupancy suggested
        → (mem : Memory)
        → Implements
            (cuda_stream gpu suggested grid_stride mem)
            (Holds processors)
            (IsCudaSum processors)
    unfolding copy mul add triad nstream
    cuda_implements suggested occupancy mem =
        let loop = for_each-loop gpu good suggested occupancy processors in
        record {
          copy_ok = loop copy_kernel copy_body copy_row for_each-copy;
          mul_ok = loop mul_kernel mul_body mul_row for_each-mul;
          add_ok = loop add_kernel add_body add_row for_each-add;
          triad_ok = loop triad_kernel triad_body triad_row for_each-triad;
          nstream_ok = loop nstream_kernel nstream_body nstream_row for_each-nstream;
          dot_ok = dot_ok;
          get_arrays_ok = get_arrays_ok mem;
        }
