-- ===== src/Backend/Cuda/Launch.antt =====
-- `for_each` of src/cuda/CUDAStream.cu with `GRID_STRIDE`: a loop over a schedule.
use native.Mathlib.Nat.{div-lt_iff_lt-mul}
use babel_stream.Prelude.{
  ℕ, zero, suc, ◌+◌, ◌-◌, ◌*◌, ◌/◌, ◌%◌, ◌^◌, ◌<◌, ◌≤◌, ◌≡◌, inl, inr, refl, sym, ap, List, map,
  length, length-map, Run, ok, Returns, arith, false, ◌==◌, Bool-cases,
}
use babel_stream.Loop
use babel_stream.Loop.Schedule.{IsSchedule}
use babel_stream.Stream.{Arrays, Row, arrays_of}
use babel_stream.Backend.Gpu.{Gpu, IsGpu, ceil_div, check_error_ok, wide_start}
use babel_stream.Backend.Grid.Cover.{IsGrid, grid_visits_from}
use babel_stream.Backend.Grid.Launch.{grid_order-IsSchedule}
use babel_stream.Backend.Cuda.{
  tb_size, tb_size_dot, unroll_factor, grid_stride, Kernel, CudaStream, kernel_visits, ceil_div_any,
  threads_per_block, for_each,
}

-- The grid is neither empty nor larger than `dim3` can say.
pub record Fits (n : ℕ) : Type 0 where
  pub at_least : 4 ≤ n
  pub at_most : n < 2 ^ 34

-- The occupancy calculator never answers 0.
abbrev pub IsOccupancy : (Kernel → ℕ) → Type 0
IsOccupancy suggested = (k : Kernel) → 0 < suggested k

-- A block size that is not asked for yet is 0.
abbrev pub IsCache : (Kernel → ℕ) → Type 0
IsCache threads = (k : Kernel) → threads k ≤ tb_size

le_product : (q t : ℕ) → 0 < t → q + t ≤ (q + 1) * t
le_product q zero ht = elim ht [ ]
le_product q (suc t) ht = grind arith

pub ceil_div_bounds :
    (q t : ℕ) → 0 < q → 0 < t → t ≤ tb_size → q < 2 ^ 32 → (0 < ceil_div q t) × (ceil_div q t ≤ q)
unfolding ceil_div
ceil_div_bounds q t hq ht le small =
    let x : (q + t - 1) % 2 ^ 64 ≡ q + t - 1 = omega arith in
    let below = div-lt_iff_lt-mul {k = t} {x = q + t - 1} {y = 1} ht in
    let above = div-lt_iff_lt-mul {k = t} {x = q + t - 1} {y = q + 1} ht in
    let positive : ((q + t - 1) / t < 1) → ⊥ = λ lt. omega (arith, below.0 lt) in
    let bounded : (q + t - 1) / t < q + 1 = above.1 (omega (arith, le_product q t ht)) in
    rw x (omega (arith, positive), omega arith)

pub launch-IsGrid :
    (n blocks : ℕ)
    → n < 2 ^ 34
    → 0 < blocks
    → blocks < 2 ^ 32
    → IsGrid (wide_start tb_size) ((blocks % 2 ^ 32) * tb_size) n tb_size (blocks % 2 ^ 32)
launch-IsGrid n blocks small pos le = record {
  start_ok = λ b t hb ht. refl;
  stride_ok = omega arith;
  narrow = omega arith;
  small = omega arith;
  threads_pos = omega arith;
  blocks_pos = omega arith;
}

pub dot-IsGrid :
    (n blocks : ℕ)
    → n < 2 ^ 34
    → 0 < blocks
    → blocks < 2 ^ 32
    → IsGrid (wide_start tb_size_dot) ((blocks % 2 ^ 32) * tb_size_dot) n (2 ^ 10) (blocks % 2 ^ 32)
dot-IsGrid n blocks small pos le = record {
  start_ok = λ b t hb ht. refl;
  stride_ok = omega arith;
  narrow = omega arith;
  small = omega arith;
  threads_pos = omega arith;
  blocks_pos = omega arith;
}

module _ {ℓ} {T : Type ℓ} where
  abbrev pub at :
      (processors : ℕ) → List (Row T) → List T → Arrays T → (Kernel → ℕ) → ℕ → CudaStream T
  at processors l sums h threads k = record {
    array_size = length l;
    dot_num_blocks = processors * 4;
    sums = sums;
    device = arrays_of l;
    host = h;
    threads = threads;
    calls = k;
  }

  -- The rows stand on the device, and there is a slot for the sum of each block of the reduction.
  abbrev pub Holds : (processors : ℕ) → CudaStream T → List (Row T) → Type ℓ
  Holds processors s l =
      (sums : List T) × (h : Arrays T) × (threads : Kernel → ℕ) × (k : ℕ) × (length sums
        ≡ processors * 4)
      × Fits (length l)
      × IsCache threads
      × (s ≡ record {
        array_size = length l;
        dot_num_blocks = processors * 4;
        sums = sums;
        device = arrays_of l;
        host = h;
        threads = threads;
        calls = k;
      })

  kept :
      (processors : ℕ) (f : Row T → Row T) (l : List (Row T)) (sums : List T) (h : Arrays T)
      (threads : Kernel → ℕ) (k : ℕ)
      → length sums ≡ processors * 4
      → Fits (length l)
      → IsCache threads
      → Holds processors
          (record (at processors l sums h threads k) { device = arrays_of (map f l) })
          (map f l)
  kept processors f l sums h threads k size fits cache = (
    sums,
    h,
    threads,
    k,
    size,
    rw (length-map f l) fits,
    cache,
    ap
        (λ n. record {
          array_size = n;
          dot_num_blocks = processors * 4;
          sums = sums;
          device = arrays_of (map f l);
          host = h;
          threads = threads;
          calls = k;
        })
        (sym (length-map f l)),
  )

  module _ (gpu : Gpu T) (good : IsGpu gpu tb_size_dot) (suggested : Kernel → ℕ)
      (occupancy : IsOccupancy suggested) (processors : ℕ) where
    -- After it the block size for the kernel is known.
    pub threads_per_block_ok :
        (kernel : Kernel) (l : List (Row T)) (sums : List T) (h : Arrays T) (threads : Kernel → ℕ)
        (k : ℕ)
        → IsCache threads
        → (threads' : Kernel → ℕ) × (k' : ℕ) × (threads_per_block gpu suggested grid_stride kernel
              (at processors l sums h threads k)
            ≡ ok (at processors l sums h threads' k'))
          × IsCache threads'
          × (0 < threads' kernel)
    unfolding threads_per_block
    threads_per_block_ok kernel l sums h threads k cache = elim (Bool-cases (threads kernel == 0)) [
      | inl e ↦
          rw (e, check_error_ok gpu tb_size_dot k good)
            (_, _, refl, λ j. ground (arith, cache j), ground (arith, occupancy kernel))
      | inr e ↦ rw e (threads, k, refl, cache, ground arith)
    ]

    -- A kernel that changes item by item changes every item.
    pub for_each-loop :
        (kernel : Kernel) (body : ℕ → Arrays T → Run (Arrays T)) (f : Row T → Row T)
        → ((is : List ℕ) (l : List (Row T))
            → IsSchedule (length l) is
            → Loop.for_each is body (arrays_of l) ≡ ok (arrays_of (map f l)))
        → (s : CudaStream T) (l : List (Row T)) → Holds processors s l
        → Returns
            (for_each gpu suggested grid_stride kernel body s)
            (λ t. Holds processors t (map f l))
    unfolding for_each kernel_visits ceil_div_any
    for_each-loop kernel body f loop s l (sums, h, threads, k, size, fits, cache, e) =
        let lower = fits.at_least in
        let upper = fits.at_most in
        let (threads', k', asked, cache', pos) =
          threads_per_block_ok kernel l sums h threads k cache in
        let blocks = ceil_div (length l / unroll_factor) (threads' kernel) in
        let (some_blocks, le) =
          ceil_div_bounds (length l / unroll_factor) (threads' kernel) (omega arith) pos
            (cache' kernel) (omega arith) in
        let few : ceil_div (length l / unroll_factor) (threads' kernel) < 2 ^ 32 = omega arith in
        let t_pos : (threads' kernel == 0) ≡ false = ground arith in
        let b_pos : (ceil_div (length l / unroll_factor) (threads' kernel) == 0) ≡ false =
          ground arith in
        let grid = launch-IsGrid (length l) blocks upper some_blocks few in
        let visits = grid_visits_from grid 0 (blocks % 2 ^ 32) (omega arith) in
        let done = loop _ l (grid_order-IsSchedule gpu.dev good.device k' grid) in
        rw
          (
            e,
            asked,
            t_pos,
            b_pos,
            check_error_ok gpu tb_size_dot k' good,
            visits,
            done,
            check_error_ok gpu tb_size_dot (k' + 1) good,
          )
          (_, refl, kept processors f l sums h threads' (k' + 2) size fits cache')
