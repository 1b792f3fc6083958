-- ===== src/Backend/SyclAi/Contract.antt =====
-- The back end of src/sycl-ai meets the contract of `Stream`.
use native.Mathlib.Nat.{mul_comm}
use babel_stream.Prelude.{
  ℕ, ◌+◌, ◌*◌, ◌^◌, ◌<◌, ◌≡◌, refl, sym, ap, subst, Bool, true, false, List, map, length, ok,
  Returns, arith,
}
use babel_stream.Arith.{Arith}
use babel_stream.Stream.{
  Row, arrays_of, Implements, copy_row, mul_row, add_row, triad_row, nstream_row,
}
use babel_stream.Stream.Kernels.{copy_body, mul_body, add_body, triad_body, nstream_body}
use babel_stream.Stream.Laws.{
  for_each-copy, for_each-mul, for_each-add, for_each-triad, for_each-nstream,
}
use babel_stream.Backend.Gpu.{wide_start}
use babel_stream.Backend.Grid.{lane_sum, reduce_lanes}
use babel_stream.Backend.Grid.Cover.{in_grid}
use babel_stream.Backend.Grid.Reduction.{lanes_dot_ok}
use babel_stream.Backend.Algorithms.{
  Algorithms, IsAlgorithms, transform_reduce_ok, IsGeneralizedSum,
}
use babel_stream.Backend.WorkGroups.{Queue, IsQueue}
use babel_stream.Backend.WorkGroups.Laws.{range-IsGrid, check_ok, check_all_ok, IsGroupSum}
use babel_stream.Backend.SyclAi.{
  Config, SyclAiStream, copy, mul, add, triad, nstream, item_sum, native_dot, manual_dot, dot,
  sycl_ai_stream,
}
use babel_stream.Backend.SyclAi.Holds.{IsConfig, at, Holds, run_kernel-loop, get_arrays_ok}
use babel_stream.Backend.SyclAi.Unrolled.{unrolled_visits-lane_visits}

module _ {ℓ} {T : Type ℓ} ⦃r : Arith T⦄ (c : Config) (m : ℕ) where
  -- By hand: one sum in groups; by the library: a sum in any order and grouping.
  abbrev pub IsDot : (manual : Bool) → List (Row T) → T → Type ℓ
  IsDot true l v = IsGroupSum m c.dot_num_groups l v
  IsDot false l v = IsGeneralizedSum l v

  module _ (q : Queue T) (good : IsQueue q (2 ^ m)) (lib : Algorithms)
      (good_lib : IsAlgorithms lib) where
    native_dot_ok :
        (s : SyclAiStream T) (l : List (Row T))
        → Holds c m s l
        → Returns (native_dot q lib s) (λ v. IsGeneralizedSum l v.0 × Holds c m v.1 l)
    unfolding native_dot
    native_dot_ok s l (d_sum, h, k, size, is, e) =
        let (v, sum, general) = transform_reduce_ok lib good_lib k l in
        rw (e, check_all_ok q (2 ^ m) good k 4, sum, check_all_ok q (2 ^ m) good (k + 4) 2)
          (_, refl, (general, (d_sum, h, k + 6, size, is, refl)))

    -- A work item adds up as if its loop were not unrolled.
    item_sum-lane_sum :
        (l : List (Row T)) (b t : ℕ)
        → IsConfig c m (length l)
        → b < c.dot_num_groups
        → t < 2 ^ m
        → item_sum q lib
            (arrays_of l)
            (wide_start (2 ^ m) b t)
            c.dot_unroll
            (c.dot_num_groups * 2 ^ m)
            (length l)
          ≡ lane_sum (arrays_of l) (wide_start (2 ^ m) b t) (c.dot_num_groups * 2 ^ m) (length l)
    unfolding item_sum lane_sum
    item_sum-lane_sum l b t is hb ht =
        let inside : t + 2 ^ m * b < c.dot_num_groups * 2 ^ m =
          rw (mul_comm c.dot_num_groups (2 ^ m)) (in_grid t b (2 ^ m) c.dot_num_groups ht hb) in
        rw
          (unrolled_visits-lane_visits (t + 2 ^ m * b) c.dot_unroll (c.dot_num_groups * 2 ^ m)
            (length l) (omega arith) is.some_terms is.few_terms (omega arith) is.wide)
          refl

    manual_dot_ok :
        (s : SyclAiStream T) (l : List (Row T))
        → Holds c m s l
        → Returns (manual_dot q lib s) (λ v. IsGroupSum m c.dot_num_groups l v.0 × Holds c m v.1 l)
    unfolding manual_dot
    manual_dot_ok s l (d_sum, h, k, size, is, e) =
        let (ys, reduced, size', total) =
          lanes_dot_ok q.dev good.device k m (wide_start (2 ^ m)) l
            (range-IsGrid m c.dot_num_groups (length l) is.groups) _
            (λ b t hb ht. item_sum-lane_sum l b t is hb ht) (q.local_mem k) d_sum (good.room k)
            size in
        let run =
          subst
            (λ w.
              reduce_lanes q.dev k
                (λ g t.
                  item_sum q lib (arrays_of l) (wide_start w g t) c.dot_unroll
                    (c.dot_num_groups * w) (length l))
                w c.dot_num_groups (q.local_mem k) d_sum
              ≡ ok ys)
            (sym is.power) reduced in
        rw (e, check_ok q (2 ^ m) good k, run, check_all_ok q (2 ^ m) good (k + 1) 3, total)
          (_, refl, ((is.groups, refl), (ys, h, k + 4, size', is, refl)))

    dot_as :
        (manual : Bool) (s : SyclAiStream T) (l : List (Row T))
        → s.config.use_manual_dot_reduction ≡ manual
        → Holds c m s l
        → Returns (dot q lib s) (λ v. IsDot manual l v.0 × Holds c m v.1 l)
    unfolding dot
    dot_as true s l manual holds = simp manual (manual_dot_ok s l holds)
    dot_as false s l native holds = simp native (native_dot_ok s l holds)

    dot_ok :
        (s : SyclAiStream T) (l : List (Row T))
        → Holds c m s l
        → Returns (dot q lib s) (λ v. IsDot c.use_manual_dot_reduction l v.0 × Holds c m v.1 l)
    dot_ok s l (d_sum, h, k, size, is, e) =
        dot_as c.use_manual_dot_reduction s l (ap (λ t. t.config.use_manual_dot_reduction) e)
          (d_sum, h, k, size, is, e)

    copy_ok :
        (s : SyclAiStream T) (l : List (Row T))
        → Holds c m s l
        → Returns (copy q lib s) (λ t. Holds c m t (map copy_row l))
    unfolding copy
    copy_ok s l (d_sum, h, k, size, is, e) = rw e (
        run_kernel-loop c m q good c.copy_wgsize copy_body copy_row for_each-copy
          (at c m l d_sum h k) l is.copy_small (d_sum, h, k, size, is, refl))

    mul_ok :
        (s : SyclAiStream T) (l : List (Row T))
        → Holds c m s l
        → Returns (mul q lib s) (λ t. Holds c m t (map mul_row l))
    unfolding mul
    mul_ok s l (d_sum, h, k, size, is, e) = rw e (
        run_kernel-loop c m q good c.mul_wgsize mul_body mul_row for_each-mul (at c m l d_sum h k) l
          is.mul_small (d_sum, h, k, size, is, refl))

    add_ok :
        (s : SyclAiStream T) (l : List (Row T))
        → Holds c m s l
        → Returns (add q lib s) (λ t. Holds c m t (map add_row l))
    unfolding add
    add_ok s l (d_sum, h, k, size, is, e) = rw e (
        run_kernel-loop c m q good c.add_wgsize add_body add_row for_each-add (at c m l d_sum h k) l
          is.add_small (d_sum, h, k, size, is, refl))

    triad_ok :
        (s : SyclAiStream T) (l : List (Row T))
        → Holds c m s l
        → Returns (triad q lib s) (λ t. Holds c m t (map triad_row l))
    unfolding triad
    triad_ok s l (d_sum, h, k, size, is, e) = rw e (
        run_kernel-loop c m q good c.triad_wgsize triad_body triad_row for_each-triad
          (at c m l d_sum h k) l is.triad_small (d_sum, h, k, size, is, refl))

    nstream_ok :
        (s : SyclAiStream T) (l : List (Row T))
        → Holds c m s l
        → Returns (nstream q lib s) (λ t. Holds c m t (map nstream_row l))
    unfolding nstream
    nstream_ok s l (d_sum, h, k, size, is, e) = rw e (
        run_kernel-loop c m q good c.nstream_wgsize nstream_body nstream_row for_each-nstream
          (at c m l d_sum h k) l is.nstream_small (d_sum, h, k, size, is, refl))

    -- For any device of which no call fails the back end of src/sycl-ai meets the contract of
    -- `Stream`, if the sizes that the constructor chooses do not overflow, the reduction by hand has
    -- groups of a power of two of work items, and its loop is unrolled at most eight times; `dot`
    -- returns one sum if it is reduced by hand, and a sum in some order and grouping if the library
    -- reduces.
    pub sycl_ai_implements :
        Implements (sycl_ai_stream q lib) (Holds c m) (IsDot c.use_manual_dot_reduction)
    sycl_ai_implements = record {
      copy_ok = copy_ok;
      mul_ok = mul_ok;
      add_ok = add_ok;
      triad_ok = triad_ok;
      nstream_ok = nstream_ok;
      dot_ok = dot_ok;
      get_arrays_ok = get_arrays_ok c m q good;
    }
