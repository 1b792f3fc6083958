-- ===== src/Backend/WorkGroups/Laws.antt =====
-- Kernels over a range and the reduction in work groups, on a device of which no call fails.
use native.Mathlib.Nat.{mul_comm}
use babel_stream.Prelude.{
  ℕ, zero, suc, ◌+◌, ◌*◌, ◌^◌, ◌<◌, ◌≤◌, ◌≡◌, refl, ◌∙◌, List, length, Run, ok, arith,
}
use babel_stream.Arith.{Arith, IsExact}
use babel_stream.Loop.{for_each, range}
use babel_stream.Loop.Schedule.{IsSchedule, range-IsSchedule}
use babel_stream.Stream.{Arrays, Row, arrays_of}
use babel_stream.Stream.Dot.{product_at, dot_rows}
use babel_stream.Backend.Gpu.{wide_start}
use babel_stream.Backend.Grid.{host_sum}
use babel_stream.Backend.Grid.Cover.{IsGrid}
use babel_stream.Backend.Grid.Launch.{IsSchedule-counts}
use babel_stream.Backend.Grid.Halving.{lt_two_pow}
use babel_stream.Backend.Grid.Reduction.{grid_sum, grid_dot_ok}
use babel_stream.Backend.Grid.Exact.{grid_sum-dot_rows}
use babel_stream.Backend.WorkGroups.{Queue, IsQueue, check, check_all, range_for, group_sums}

-- `groups` groups of `2 ^ m` work items for `n` items: the work items have 64-bit numbers.
pub record IsRange (m groups n : ℕ) : Type 0 where
  pub some_groups : 0 < groups
  pub narrow : 2 ^ m * groups ≤ 2 ^ 63
  pub small : n ≤ 2 ^ 63

pub range-IsGrid :
    (m groups n : ℕ)
    → IsRange m groups n
    → IsGrid (wide_start (2 ^ m)) (groups * 2 ^ m) n (2 ^ m) groups
range-IsGrid m groups n is = record {
  start_ok = λ b t hb ht. refl;
  stride_ok = mul_comm groups (2 ^ m);
  narrow = is.narrow;
  small = is.small;
  threads_pos = omega (arith, lt_two_pow m);
  blocks_pos = is.some_groups;
}

module _ {ℓ} {T : Type ℓ} (q : Queue T) (items : ℕ) (good : IsQueue q items) where
  pub check_ok : (call : ℕ) → check q call ≡ ok tt
  unfolding check
  check_ok call = rw (good.quiet call, check) refl

  pub check_all_ok : (call num : ℕ) → check_all q call num ≡ ok tt
  unfolding check_all
  check_all_ok call zero = refl
  check_all_ok call (suc num) = rw (check_ok call) (check_all_ok (call + 1) num)

  -- The order in which the work items run.
  abbrev pub range_order : (call n : ℕ) → List ℕ
  range_order call n = q.dev.interleave call (range n)

  pub range_order-IsSchedule : (call n : ℕ) → IsSchedule n (range_order call n)
  range_order-IsSchedule call n =
      IsSchedule-counts n (range n) (range_order call n) (range-IsSchedule n)
        (good.device.interleave_ok call (range n))

  pub range_for_ok :
      (call n : ℕ) (body : ℕ → Arrays T → Run (Arrays T)) (s : Arrays T)
      → range_for q call n body s ≡ for_each (range_order call n) body s
  unfolding range_for
  range_for_ok call n body s = rw (check_ok call) refl

module _ {ℓ} {T : Type ℓ} ⦃r : Arith T⦄ where
  -- The sum of the work items from the left, of the groups by a tree, of all groups from the left.
  abbrev pub IsGroupSum : (m groups : ℕ) → List (Row T) → T → Type ℓ
  IsGroupSum m groups l v =
      IsRange m groups (length l)
      × (v ≡ grid_sum (wide_start (2 ^ m)) m (groups * 2 ^ m) (length l) groups (product_at l))

  -- In exact arithmetic that is the dot product.
  pub IsGroupSum-dot_rows :
      IsExact T
      → (m groups : ℕ) (l : List (Row T)) (v : T) → IsGroupSum m groups l v
      → v ≡ dot_rows l
  IsGroupSum-dot_rows exact m groups l v (is, e) =
      e
      ∙ grid_sum-dot_rows exact (wide_start (2 ^ m)) m (groups * 2 ^ m) groups l
          (range-IsGrid m groups (length l) is)

  pub group_sums_ok :
      (q : Queue T) (m : ℕ)
      → IsQueue q (2 ^ m)
      → (call groups : ℕ) (l : List (Row T)) (sums : List T) → IsRange m groups (length l)
      → length sums ≡ groups
      → (v : T) × (ys : List T) × (group_sums q call (length l) groups (2 ^ m) (arrays_of l) sums
          ≡ ok ys)
        × (length ys ≡ groups)
        × (host_sum groups ys ≡ ok v)
        × IsGroupSum m groups l v
  unfolding group_sums
  group_sums_ok q m good call groups l sums is size =
      let (ys, reduced, size', total) =
        grid_dot_ok q.dev good.device call m (wide_start (2 ^ m)) l
          (range-IsGrid m groups (length l) is) (q.local_mem call) sums (good.room call) size in
      rw (check_ok q (2 ^ m) good call) (_, ys, reduced, size', total, (is, refl))
