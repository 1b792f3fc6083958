-- ===== src/Backend/SyclAi/Holds.antt =====
-- What the back end of src/sycl-ai holds between two calls, and that its kernels over rounded ranges
-- change every row.
use babel_stream.Prelude.{
  ℕ, ◌+◌, ◌*◌, ◌^◌, ◌<◌, ◌≤◌, ◌≡◌, refl, sym, ap, List, map, length, length-map, replicate, Run, ok,
  Returns,
}
use babel_stream.Loop.{for_each}
use babel_stream.Loop.Schedule.{IsSchedule}
use babel_stream.Stream.{Arrays, Row, arrays_of}
use babel_stream.Stream.Kernels.{init_body}
use babel_stream.Stream.Laws.{for_each-init, init_row}
use babel_stream.Backend.WorkGroups.{Queue, IsQueue}
use babel_stream.Backend.WorkGroups.Laws.{
  IsRange, check_ok, check_all_ok, range_order, range_order-IsSchedule,
}
use babel_stream.Backend.Memory.{map-const}
use babel_stream.Backend.SyclAi.{
  init_arrays, Config, SyclAiStream, round_up, run_kernel, get_arrays,
}
use babel_stream.Backend.SyclAi.Rounded.{round_up_le, within, within-IsSchedule, for_each-guarded}

-- What the constructor's choices have to satisfy for `n` items, with `2 ^ m` work items in a group of
-- the reduction.
pub record IsConfig (c : Config) (m n : ℕ) : Type 0 where
  pub stream_small : n + c.stream_wgsize ≤ 2 ^ 63
  pub copy_small : n + c.copy_wgsize ≤ 2 ^ 63
  pub mul_small : n + c.mul_wgsize ≤ 2 ^ 63
  pub add_small : n + c.add_wgsize ≤ 2 ^ 63
  pub triad_small : n + c.triad_wgsize ≤ 2 ^ 63
  pub nstream_small : n + c.nstream_wgsize ≤ 2 ^ 63
  pub power : c.dot_wgsize ≡ 2 ^ m
  pub groups : IsRange m c.dot_num_groups n
  pub some_terms : 0 < c.dot_unroll
  pub few_terms : c.dot_unroll ≤ 8
  pub wide : n + c.dot_num_groups * 2 ^ m + c.dot_num_groups * 2 ^ m * c.dot_unroll ≤ 2 ^ 64

module _ {ℓ} {T : Type ℓ} (c : Config) (m : ℕ) where
  abbrev pub at : List (Row T) → List T → Arrays T → ℕ → SyclAiStream T
  at l d_sum h k = record {
    array_size = length l;
    config = c;
    d_sum = d_sum;
    device = arrays_of l;
    host = h;
    calls = k;
  }

  -- The rows stand on the device, and there is a slot for the sum of each of the groups.
  abbrev pub Holds : SyclAiStream T → List (Row T) → Type ℓ
  Holds s l =
      (d_sum : List T) × (h : Arrays T) × (k : ℕ) × (length d_sum ≡ c.dot_num_groups)
      × IsConfig c m (length l)
      × (s ≡ record {
        array_size = length l;
        config = c;
        d_sum = d_sum;
        device = arrays_of l;
        host = h;
        calls = k;
      })

  kept :
      (f : Row T → Row T) (l : List (Row T)) (d_sum : List T) (h : Arrays T) (k : ℕ)
      → length d_sum ≡ c.dot_num_groups
      → IsConfig c m (length l)
      → Holds (record (at l d_sum h k) { device = arrays_of (map f l) }) (map f l)
  kept f l d_sum h k size is = (
    d_sum,
    h,
    k,
    size,
    rw (length-map f l) is,
    ap
        (λ n. record {
          array_size = n;
          config = c;
          d_sum = d_sum;
          device = arrays_of (map f l);
          host = h;
          calls = k;
        })
        (sym (length-map f l)),
  )

  module _ (q : Queue T) (good : IsQueue q (2 ^ m)) where
    -- A kernel that changes item by item changes every item, whatever the size of its groups.
    pub run_kernel-loop :
        (wg : ℕ) (body : ℕ → Arrays T → Run (Arrays T)) (f : Row T → Row T)
        → ((is : List ℕ) (l : List (Row T))
            → IsSchedule (length l) is
            → for_each is body (arrays_of l) ≡ ok (arrays_of (map f l)))
        → (s : SyclAiStream T) (l : List (Row T)) → length l + wg ≤ 2 ^ 63
        → Holds s l
        → Returns (run_kernel q wg body s) (λ t. Holds t (map f l))
    unfolding run_kernel
    run_kernel-loop wg body f loop s l small (d_sum, h, k, size, is, e) =
        let order = range_order q (2 ^ m) good k (round_up (length l) wg) in
        let sched =
          within-IsSchedule (length l) (round_up (length l) wg)
            (range_order q (2 ^ m) good k (round_up (length l) wg))
            (round_up_le (length l) wg small)
            (range_order-IsSchedule q (2 ^ m) good k (round_up (length l) wg)) in
        rw
          (
            e,
            check_ok q (2 ^ m) good k,
            for_each-guarded (length l) body order (arrays_of l),
            loop (within (length l) order) l sched,
            check_ok q (2 ^ m) good (k + 1),
          )
          (_, refl, kept f l d_sum h (k + 2) size is)

    pub get_arrays_ok :
        (s : SyclAiStream T) (l : List (Row T))
        → Holds s l
        → Returns (get_arrays q s) (λ v. (v.0 ≡ arrays_of l) × Holds v.1 l)
    unfolding get_arrays
    get_arrays_ok s l (d_sum, h, k, size, is, e) =
        rw (e, check_all_ok q (2 ^ m) good k 4)
          (_, refl, (refl, (d_sum, arrays_of l, k + 4, size, is, refl)))

    -- `init_arrays` gives every index the three initial values, whatever the arrays held.
    init_arrays_ok :
        (x y z : T) (s : SyclAiStream T) (l : List (Row T))
        → Holds s l
        → Returns
            (init_arrays q x y z s)
            (λ t. Holds t (replicate (length l) (record { a = x; b = y; c = z })))
    unfolding init_arrays
    init_arrays_ok x y z s l (d_sum, h, k, size, is, e) =
        rw (e, sym (map-const (length l) l (record { a = x; b = y; c = z }) refl))
          (run_kernel-loop c.stream_wgsize (init_body x y z) (init_row x y z) (for_each-init x y z)
            (at l d_sum h k) l is.stream_small (d_sum, h, k, size, is, refl))
