-- ===== src/Backend/Sycl/Contract.antt =====
-- The kernels of the SYCL back end meet the contract of `Stream`, if the size of a work group is a
-- power of two; `get_arrays` does not.
use babel_stream.Prelude.{
  ℕ, ◌+◌, ◌^◌, ◌≡◌, refl, sym, ap, List, map, length, length-map, Run, ok, Returns,
}
use babel_stream.Arith.{Arith}
use babel_stream.Loop.{for_each}
use babel_stream.Loop.Schedule.{IsSchedule}
use babel_stream.Stream.{Arrays, Row, arrays_of, copy_row, mul_row, add_row, triad_row, nstream_row}
use babel_stream.Stream.Kernels.{copy_body, mul_body, add_body, triad_body, nstream_body}
use babel_stream.Stream.Laws.{
  for_each-copy, for_each-mul, for_each-add, for_each-triad, for_each-nstream,
}
use babel_stream.Backend.WorkGroups.{Queue, IsQueue}
use babel_stream.Backend.WorkGroups.Laws.{
  IsRange, check_ok, check_all_ok, range_order, range_order-IsSchedule, range_for_ok, IsGroupSum,
  group_sums_ok,
}
use babel_stream.Backend.Sycl.{
  SyclStream, dangling, run_kernel, get_arrays, copy, mul, add, triad, nstream, dot,
}

module _ {ℓ} {T : Type ℓ} (m groups : ℕ) where
  abbrev pub at : List (Row T) → List T → ℕ → SyclStream T
  at l d_sum k = record {
    array_size = length l;
    dot_num_groups = groups;
    dot_wgsize = 2 ^ m;
    d_sum = d_sum;
    device = arrays_of l;
    calls = k;
  }

  -- The rows stand on the device, and there is a slot for the sum of each of the groups, which have
  -- `2 ^ m` work items.
  abbrev pub Holds : SyclStream T → List (Row T) → Type ℓ
  Holds s l =
      (d_sum : List T) × (k : ℕ) × (length d_sum ≡ groups)
      × IsRange m groups (length l)
      × (s ≡ record {
        array_size = length l;
        dot_num_groups = groups;
        dot_wgsize = 2 ^ m;
        d_sum = d_sum;
        device = arrays_of l;
        calls = k;
      })

  pub kept :
      (f : Row T → Row T) (l : List (Row T)) (d_sum : List T) (k : ℕ)
      → length d_sum ≡ groups
      → IsRange m groups (length l)
      → Holds (record (at l d_sum k) { device = arrays_of (map f l) }) (map f l)
  kept f l d_sum k size is = (
    d_sum,
    k,
    size,
    rw (length-map f l) is,
    ap
        (λ n. record {
          array_size = n;
          dot_num_groups = groups;
          dot_wgsize = 2 ^ m;
          d_sum = d_sum;
          device = arrays_of (map f l);
          calls = k;
        })
        (sym (length-map f l)),
  )

module _ {ℓ} {T : Type ℓ} (q : Queue T) (m : ℕ) (good : IsQueue q (2 ^ m)) (groups : ℕ) where
  -- A kernel that changes item by item changes every item.
  pub run_kernel-loop :
      (body : ℕ → Arrays T → Run (Arrays T)) (f : Row T → Row T)
      → ((is : List ℕ) (l : List (Row T))
          → IsSchedule (length l) is
          → for_each is body (arrays_of l) ≡ ok (arrays_of (map f l)))
      → (s : SyclStream T) (l : List (Row T)) → Holds m groups s l
      → Returns (run_kernel q body s) (λ t. Holds m groups t (map f l))
  unfolding run_kernel
  run_kernel-loop body f loop s l (d_sum, k, size, is, e) =
      rw
        (
          e,
          range_for_ok q (2 ^ m) good k (length l) body (arrays_of l),
          loop (range_order q (2 ^ m) good k (length l)) l
              (range_order-IsSchedule q (2 ^ m) good k (length l)),
          check_ok q (2 ^ m) good (k + 1),
        )
        (_, refl, kept m groups f l d_sum (k + 2) size is)

  get_arrays_ok :
      (s : SyclStream T) (l : List (Row T))
      → Holds m groups s l
      → Returns (get_arrays q s) (λ v. (v.0 ≡ dangling) × Holds m groups v.1 l)
  unfolding get_arrays
  get_arrays_ok s l (d_sum, k, size, is, e) =
      rw (e, check_all_ok q (2 ^ m) good k 3) (_, refl, (refl, (d_sum, k + 3, size, is, refl)))

module _ {ℓ} {T : Type ℓ} ⦃r : Arith T⦄ (q : Queue T) (m : ℕ) (good : IsQueue q (2 ^ m))
    (groups : ℕ) where
  dot_ok :
      (s : SyclStream T) (l : List (Row T))
      → Holds m groups s l
      → Returns (dot q s) (λ v. IsGroupSum m groups l v.0 × Holds m groups v.1 l)
  unfolding dot
  dot_ok s l (d_sum, k, size, is, e) =
      let (v, ys, reduced, size', total, sum) = group_sums_ok q m good k groups l d_sum is size in
      rw (e, reduced, check_ok q (2 ^ m) good (k + 1), total)
        ((v, at m groups l ys (k + 2)), refl, (sum, (ys, k + 2, size', is, refl)))

  -- For any device of which no call fails the kernels of the SYCL back end change every row as the
  -- contract of `Stream` says, if the work groups of the reduction have a power of two of work items;
  -- `dot` returns one sum, which does not depend on the order of the work items. `get_arrays` returns
  -- pointers that no access may use, and the rows stay on the device.
  pub sycl_kernels_ok :
      (s : SyclStream T) (l : List (Row T))
      → Holds m groups s l
      → Returns (copy q s) (λ t. Holds m groups t (map copy_row l))
        × Returns (mul q s) (λ t. Holds m groups t (map mul_row l))
        × Returns (add q s) (λ t. Holds m groups t (map add_row l))
        × Returns (triad q s) (λ t. Holds m groups t (map triad_row l))
        × Returns (nstream q s) (λ t. Holds m groups t (map nstream_row l))
        × Returns (dot q s) (λ v. IsGroupSum m groups l v.0 × Holds m groups v.1 l)
        × Returns (get_arrays q s) (λ v. (v.0 ≡ dangling) × Holds m groups v.1 l)
  unfolding copy mul add triad nstream
  sycl_kernels_ok s l h = (
    run_kernel-loop q m good groups copy_body copy_row for_each-copy s l h,
    run_kernel-loop q m good groups mul_body mul_row for_each-mul s l h,
    run_kernel-loop q m good groups add_body add_row for_each-add s l h,
    run_kernel-loop q m good groups triad_body triad_row for_each-triad s l h,
    run_kernel-loop q m good groups nstream_body nstream_row for_each-nstream s l h,
    dot_ok s l h,
    get_arrays_ok q m good groups s l h,
  )
