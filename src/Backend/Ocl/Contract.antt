-- ===== src/Backend/Ocl/Contract.antt =====
-- The OpenCL back end meets the contract of `Stream`, if the size of a work group is a power of two.
use babel_stream.Prelude.{
  ℕ, ◌+◌, ◌^◌, ◌≡◌, refl, sym, ap, ◌∙◌, List, map, length, length-map, Run, ok, Returns,
}
use babel_stream.Arith.{Arith}
use babel_stream.Loop.{for_each}
use babel_stream.Loop.Schedule.{IsSchedule}
use babel_stream.Stream.{
  Arrays, Row, arrays_of, Implements, copy_row, mul_row, add_row, triad_row, nstream_row,
}
use babel_stream.Stream.Kernels.{copy_body, mul_body, add_body, triad_body, nstream_body}
use babel_stream.Stream.Laws.{
  for_each-copy, for_each-mul, for_each-add, for_each-triad, for_each-nstream,
}
use babel_stream.Backend.Grid.{host_sum}
use babel_stream.Backend.WorkGroups.{Queue, IsQueue}
use babel_stream.Backend.WorkGroups.Laws.{
  IsRange, check_ok, check_all_ok, range_order, range_order-IsSchedule, range_for_ok, IsGroupSum,
  group_sums_ok,
}
use babel_stream.Backend.Ocl.{
  OclStream, run_kernel, get_arrays, copy, mul, add, triad, nstream, dot, ocl_stream,
}

module _ {ℓ} {T : Type ℓ} (m groups : ℕ) where
  abbrev pub at : List (Row T) → List T → List T → Arrays T → ℕ → OclStream T
  at l sums d_sum h k = record {
    array_size = length l;
    dot_num_groups = groups;
    dot_wgsize = 2 ^ m;
    sums = sums;
    d_sum = d_sum;
    device = arrays_of l;
    host = h;
    calls = k;
  }

  -- The rows stand on the device, and there is a slot for the sum of each of the groups, which have
  -- `2 ^ m` work items.
  abbrev pub Holds : OclStream T → List (Row T) → Type ℓ
  Holds s l =
      (sums : List T) × (d_sum : List T) × (h : Arrays T) × (k : ℕ) × (length d_sum ≡ groups)
      × IsRange m groups (length l)
      × (s ≡ record {
        array_size = length l;
        dot_num_groups = groups;
        dot_wgsize = 2 ^ m;
        sums = sums;
        d_sum = d_sum;
        device = arrays_of l;
        host = h;
        calls = k;
      })

  pub kept :
      (f : Row T → Row T) (l : List (Row T)) (sums d_sum : List T) (h : Arrays T) (k : ℕ)
      → length d_sum ≡ groups
      → IsRange m groups (length l)
      → Holds (record (at l sums d_sum h k) { device = arrays_of (map f l) }) (map f l)
  kept f l sums d_sum h k size is = (
    sums,
    d_sum,
    h,
    k,
    size,
    rw (length-map f l) is,
    ap
        (λ n. record {
          array_size = n;
          dot_num_groups = groups;
          dot_wgsize = 2 ^ m;
          sums = sums;
          d_sum = d_sum;
          device = arrays_of (map f l);
          host = h;
          calls = k;
        })
        (sym (length-map f l)),
  )

module _ {ℓ} {T : Type ℓ} (q : Queue T) (m : ℕ) (good : IsQueue q (2 ^ m)) (groups : ℕ) where
  -- A kernel that changes item by item changes every item.
  pub run_kernel-loop :
      (body : ℕ → Arrays T → Run (Arrays T)) (f : Row T → Row T)
      → ((is : List ℕ) (l : List (Row T))
          → IsSchedule (length l) is
          → for_each is body (arrays_of l) ≡ ok (arrays_of (map f l)))
      → (s : OclStream T) (l : List (Row T)) → Holds m groups s l
      → Returns (run_kernel q body s) (λ t. Holds m groups t (map f l))
  unfolding run_kernel
  run_kernel-loop body f loop s l (sums, d_sum, h, k, size, is, e) =
      rw
        (
          e,
          range_for_ok q (2 ^ m) good k (length l) body (arrays_of l),
          loop (range_order q (2 ^ m) good k (length l)) l
              (range_order-IsSchedule q (2 ^ m) good k (length l)),
          check_ok q (2 ^ m) good (k + 1),
        )
        (_, refl, kept m groups f l sums d_sum h (k + 2) size is)

  get_arrays_ok :
      (s : OclStream T) (l : List (Row T))
      → Holds m groups s l
      → Returns (get_arrays q s) (λ v. (v.0 ≡ arrays_of l) × Holds m groups v.1 l)
  unfolding get_arrays
  get_arrays_ok s l (sums, d_sum, h, k, size, is, e) =
      rw (e, check_all_ok q (2 ^ m) good k 3)
        (_, refl, (refl, (sums, d_sum, arrays_of l, k + 3, size, is, refl)))

module _ {ℓ} {T : Type ℓ} ⦃r : Arith T⦄ (q : Queue T) (m : ℕ) (good : IsQueue q (2 ^ m))
    (groups : ℕ) where
  dot_ok :
      (s : OclStream T) (l : List (Row T))
      → Holds m groups s l
      → Returns (dot q s) (λ v. IsGroupSum m groups l v.0 × Holds m groups v.1 l)
  unfolding dot
  dot_ok s l (sums, d_sum, h, k, size, is, e) =
      let (v, ys, reduced, size', total, sum) = group_sums_ok q m good k groups l d_sum is size in
      let total' = ap (λ n. host_sum n ys) size' ∙ total in
      rw (e, reduced, check_ok q (2 ^ m) good (k + 1), total')
        ((v, at m groups l ys ys h (k + 2)), refl, (sum, (ys, ys, h, k + 2, size', is, refl)))

  -- For any device of which no call fails the OpenCL back end meets the contract of `Stream`, if the
  -- work groups of the reduction have a power of two of work items; `dot` returns one sum, which does
  -- not depend on the order of the work items.
  pub ocl_implements : Implements (ocl_stream q) (Holds m groups) (IsGroupSum m groups)
  unfolding copy mul add triad nstream
  ocl_implements = record {
    copy_ok = run_kernel-loop q m good groups copy_body copy_row for_each-copy;
    mul_ok = run_kernel-loop q m good groups mul_body mul_row for_each-mul;
    add_ok = run_kernel-loop q m good groups add_body add_row for_each-add;
    triad_ok = run_kernel-loop q m good groups triad_body triad_row for_each-triad;
    nstream_ok = run_kernel-loop q m good groups nstream_body nstream_row for_each-nstream;
    dot_ok = dot_ok;
    get_arrays_ok = get_arrays_ok q m good groups;
  }
