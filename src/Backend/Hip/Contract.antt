-- ===== src/Backend/Hip/Contract.antt =====
-- The HIP back end meets the contract of `Stream` for arrays of at most 2^32 items.
use babel_stream.Prelude.{
  ℕ, ◌+◌, ◌*◌, ◌%◌, ◌^◌, ◌<◌, ◌≤◌, ◌≡◌, ◌⊎◌, inl, inr, refl, sym, ap, ◌∙◌, List, map, length,
  length-map, Run, ok, Returns, arith,
}
use babel_stream.Arith.{Arith}
use babel_stream.Loop.{for_each}
use babel_stream.Loop.Schedule.{IsSchedule}
use babel_stream.Stream.{
  Arrays, Row, arrays_of, Implements, copy_row, mul_row, add_row, triad_row, nstream_row,
}
use babel_stream.Stream.Kernels.{copy_body, mul_body, add_body, triad_body, nstream_body}
use babel_stream.Stream.Laws.{
  for_each-copy, for_each-mul, for_each-add, for_each-triad, for_each-nstream,
}
use babel_stream.Stream.Dot.{product_at}
use babel_stream.Backend.Gpu.{
  Gpu, IsGpu, Memory, separate, managed, pagefault, ceil_div, check_error_ok, wide_start,
}
use babel_stream.Backend.Grid.Cover.{IsGrid}
use babel_stream.Backend.Grid.Launch.{grid_order-IsSchedule, grid_for_ok}
use babel_stream.Backend.Grid.Reduction.{grid_sum, grid_dot_ok}
use babel_stream.Backend.Grid.{host_sum}
use babel_stream.Backend.Hip.{
  tb_size, dot_elements_per_lane, dot_blocks, HipStream, narrow_start, launch, copy, mul, add,
  triad, nstream, dot, get_arrays, hip_stream,
}

-- `float` and `double`, for which the class is instantiated
abbrev pub IsElementSize : ℕ → Type 0
IsElementSize size_of = (size_of ≡ 4) ⊎ (size_of ≡ 8)

-- Sizes for which neither `dim3` nor the index of the reduction wraps around
pub record Fits (n : ℕ) : Type 0 where
  pub some_items : 0 < n
  pub at_most : n ≤ 2 ^ 32

pub launch-IsGrid :
    (n : ℕ)
    → Fits n
    → IsGrid
        (wide_start tb_size)
        ((ceil_div n tb_size % 2 ^ 32) * tb_size)
        n
        tb_size
        (ceil_div n tb_size % 2 ^ 32)
unfolding ceil_div
launch-IsGrid n fits =
    let lower = fits.some_items in
    let upper = fits.at_most in
    record {
      start_ok = λ b t hb ht. refl;
      stride_ok = omega arith;
      narrow = omega arith;
      small = omega arith;
      threads_pos = omega arith;
      blocks_pos = omega arith;
    }

pub dot_blocks_bounds :
    (size_of n : ℕ)
    → IsElementSize size_of
    → Fits n
    → (0 < dot_blocks size_of n) × (dot_blocks size_of n ≤ 2 ^ 21)
unfolding dot_blocks dot_elements_per_lane
dot_blocks_bounds size_of n (inl e) fits =
    let lower = fits.some_items in let upper = fits.at_most in rw e (omega arith, omega arith)
dot_blocks_bounds size_of n (inr e) fits =
    let lower = fits.some_items in let upper = fits.at_most in rw e (omega arith, omega arith)

pub dot-IsGrid :
    (n blocks : ℕ)
    → Fits n
    → 0 < blocks
    → blocks ≤ 2 ^ 21
    → IsGrid
        (narrow_start tb_size)
        (tb_size * (blocks % 2 ^ 32) % 2 ^ 32)
        n
        (2 ^ 10)
        (blocks % 2 ^ 32)
dot-IsGrid n blocks fits pos le =
    let lower = fits.some_items in
    let upper = fits.at_most in
    record {
      start_ok = λ b t hb ht. omega arith;
      stride_ok = omega arith;
      narrow = omega arith;
      small = omega arith;
      threads_pos = omega arith;
      blocks_pos = omega arith;
    }

-- The blocks of the reduction for the rows, as `dim3` and the kernel see them
abbrev pub dot_dim : (size_of n : ℕ) → ℕ
dot_dim size_of n = dot_blocks size_of n % 2 ^ 32

module _ {ℓ} {T : Type ℓ} where
  abbrev at : ℕ → List (Row T) → List T → Arrays T → ℕ → HipStream T
  at size_of l sums h k = record {
    array_size = length l;
    dot_num_blocks = dot_blocks size_of (length l);
    sums = sums;
    device = arrays_of l;
    host = h;
    calls = k;
  }

  -- The rows stand on the device, and there is a slot for the sum of each block of the reduction.
  abbrev pub Holds : ℕ → HipStream T → List (Row T) → Type ℓ
  Holds size_of s l =
      (sums : List T) × (h : Arrays T) × (k : ℕ) × (length sums ≡ dot_blocks size_of (length l))
      × Fits (length l)
      × (s ≡ record {
        array_size = length l;
        dot_num_blocks = dot_blocks size_of (length l);
        sums = sums;
        device = arrays_of l;
        host = h;
        calls = k;
      })

  kept :
      (size_of : ℕ) (f : Row T → Row T) (l : List (Row T)) (sums : List T) (h : Arrays T) (k : ℕ)
      → length sums ≡ dot_blocks size_of (length l)
      → Fits (length l)
      → Holds size_of (record (at size_of l sums h k) { device = arrays_of (map f l) }) (map f l)
  kept size_of f l sums h k size fits = (
    sums,
    h,
    k,
    rw (length-map f l) size,
    rw (length-map f l) fits,
    ap
        (λ n. record {
          array_size = n;
          dot_num_blocks = dot_blocks size_of n;
          sums = sums;
          device = arrays_of (map f l);
          host = h;
          calls = k;
        })
        (sym (length-map f l)),
  )

  module _ (gpu : Gpu T) (good : IsGpu gpu tb_size) (size_of : ℕ) where
    launch-loop :
        (body : ℕ → Arrays T → Run (Arrays T)) (f : Row T → Row T)
        → ((is : List ℕ) (l : List (Row T))
            → IsSchedule (length l) is
            → for_each is body (arrays_of l) ≡ ok (arrays_of (map f l)))
        → (s : HipStream T) (l : List (Row T)) → Holds size_of s l
        → Returns (launch gpu body s) (λ t. Holds size_of t (map f l))
    unfolding launch
    launch-loop body f loop s l (sums, h, k, size, fits, e) =
        let grid = launch-IsGrid (length l) fits in
        let kernel = grid_for_ok gpu.dev good.device k grid body (arrays_of l) in
        let done = loop _ l (grid_order-IsSchedule gpu.dev good.device k grid) in
        rw
          (
            e,
            check_error_ok gpu tb_size k good,
            kernel,
            done,
            check_error_ok gpu tb_size (k + 1) good,
          )
          (_, refl, kept size_of f l sums h (k + 2) size fits)

module _ {ℓ} {T : Type ℓ} ⦃r : Arith T⦄ where
  -- The sum of the lanes from the left, of the blocks by a tree, of all blocks from the left.
  abbrev pub IsHipSum : ℕ → List (Row T) → T → Type ℓ
  IsHipSum size_of l v =
      let blocks = dot_dim size_of (length l) in
      Fits (length l)
      × (v
          ≡ grid_sum (narrow_start tb_size) 10 (tb_size * blocks % 2 ^ 32) (length l) blocks
              (product_at l))

  module _ (gpu : Gpu T) (good : IsGpu gpu tb_size) (size_of : ℕ)
      (sized : IsElementSize size_of) where
    pub dot_ok :
        (s : HipStream T) (l : List (Row T))
        → Holds size_of s l
        → Returns (dot gpu s) (λ v. IsHipSum size_of l v.0 × Holds size_of v.1 l)
    unfolding dot
    dot_ok s l (sums, h, k, size, fits, e) =
        let (pos, le) = dot_blocks_bounds size_of (length l) sized fits in
        let same : dot_blocks size_of (length l) % 2 ^ 32 ≡ dot_blocks size_of (length l) =
          omega arith in
        let grid = dot-IsGrid (length l) (dot_blocks size_of (length l)) fits pos le in
        let (ys, reduced, size', total) =
          grid_dot_ok gpu.dev good.device k 10 (narrow_start tb_size) l grid (gpu.shared k) sums
            (good.room k) (size ∙ sym same) in
        let total' = ap (λ b. host_sum b ys) (sym same) ∙ total in
        rw
          (
            e,
            check_error_ok gpu tb_size k good,
            reduced,
            check_error_ok gpu tb_size (k + 1) good,
            total',
          )
          (
            (_, at size_of l ys h (k + 2)),
            refl,
            ((fits, refl), (ys, h, k + 2, size' ∙ same, fits, refl)),
          )

    get_arrays_ok :
        (mem : Memory) (s : HipStream T) (l : List (Row T))
        → Holds size_of s l
        → Returns (get_arrays gpu mem s) (λ v. (v.0 ≡ arrays_of l) × Holds size_of v.1 l)
    unfolding get_arrays
    get_arrays_ok separate s l (sums, h, k, size, fits, e) =
        rw
          (
            e,
            check_error_ok gpu tb_size k good,
            check_error_ok gpu tb_size (k + 1) good,
            check_error_ok gpu tb_size (k + 2) good,
          )
          (_, refl, (refl, (sums, arrays_of l, k + 3, size, fits, refl)))
    get_arrays_ok managed s l (sums, h, k, size, fits, e) =
        rw e (_, refl, (refl, (sums, h, k, size, fits, refl)))
    get_arrays_ok pagefault s l (sums, h, k, size, fits, e) =
        rw e (_, refl, (refl, (sums, h, k, size, fits, refl)))

    -- For any device of which no call fails the HIP back end meets the contract of `Stream`, for
    -- arrays of 1 to 2^32 items of type `float` or `double`; `dot` returns one sum, which does not
    -- depend on the order of the lanes.
    pub hip_implements :
        (mem : Memory) → Implements (hip_stream gpu mem) (Holds size_of) (IsHipSum size_of)
    unfolding copy mul add triad nstream
    hip_implements mem = record {
      copy_ok = launch-loop gpu good size_of copy_body copy_row for_each-copy;
      mul_ok = launch-loop gpu good size_of mul_body mul_row for_each-mul;
      add_ok = launch-loop gpu good size_of add_body add_row for_each-add;
      triad_ok = launch-loop gpu good size_of triad_body triad_row for_each-triad;
      nstream_ok = launch-loop gpu good size_of nstream_body nstream_row for_each-nstream;
      dot_ok = dot_ok;
      get_arrays_ok = get_arrays_ok mem;
    }
