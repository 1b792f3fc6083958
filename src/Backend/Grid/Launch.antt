-- ===== src/Backend/Grid/Launch.antt =====
-- A kernel on a grid is a loop over a schedule.
use babel_stream.Prelude.{
  ℕ, ◌<◌, ◌≤◌, ◌≡◌, refl, ◌∙◌, dec_lt, List, [], ◌∷◌, All, Run, hung, ◌^◌, arith,
}
use babel_stream.Arith.{Arith}
use babel_stream.Loop.{for_each}
use babel_stream.Loop.Schedule.{count, IsSchedule}
use babel_stream.Stream.{Arrays}
use babel_stream.Backend.Grid.{
  reduce_lanes, Device, IsDevice, grid_for, lane_sum, fill_body, block_reduce, reduce_kernel,
}
use babel_stream.Backend.Grid.Cover.{
  IsGrid, grid_visits_from, grid_visited, grid_visited-IsSchedule,
}
use babel_stream.Backend.Grid.Strides.{lane_visits_stuck}

-- A list with no item from `n` on.
All-counts : (n : ℕ) (is : List ℕ) → ((j : ℕ) → n ≤ j → count j is ≡ 0) → All (λ i. i < n) is
All-counts n [] h = tt
All-counts n (i ∷ is) h = elim (dec_lt i n) [
  | yes lt ↦ (lt, All-counts n is (λ j ge. ground (arith, h j ge)))
  | no ge ↦ absurd (ground (arith, h i (omega arith)))
]

pub counts-All : (n : ℕ) (is : List ℕ) (j : ℕ) → All (λ i. i < n) is → n ≤ j → count j is ≡ 0
counts-All n [] j h ge = refl
counts-All n (i ∷ is) j (lt, h) ge = ground (arith, counts-All n is j h ge)

-- A list with the same items in another order.
pub IsSchedule-counts :
    (n : ℕ) (is ks : List ℕ)
    → IsSchedule n is
    → ((j : ℕ) → count j ks ≡ count j is)
    → IsSchedule n ks
IsSchedule-counts n is ks s e = record {
  in_range = All-counts n ks (λ j ge. e j ∙ counts-All n is j s.in_range ge);
  once = λ j lt. e j ∙ s.once j lt;
}

module _ (dev : Device) (good : IsDevice dev) (k : ℕ) {start : ℕ → ℕ → ℕ}
    {stride n threads blocks : ℕ} (grid : IsGrid start stride n threads blocks) where
  -- The order in which the device runs the iterations of the grid.
  abbrev pub grid_order : List ℕ
  grid_order = dev.interleave k (grid_visited start stride n threads blocks)

  pub grid_order-IsSchedule : IsSchedule n grid_order
  grid_order-IsSchedule =
      IsSchedule-counts n (grid_visited start stride n threads blocks) grid_order
        (grid_visited-IsSchedule grid)
        (good.interleave_ok k (grid_visited start stride n threads blocks))

  -- The kernel does every index once, whatever the device's order.
  pub grid_for_ok {ℓ} :
      {S : Type ℓ} (body : ℕ → S → Run S) (s : S)
      → grid_for dev k start stride n threads blocks body s ≡ for_each grid_order body s
  unfolding grid_for
  grid_for_ok body s = rw (grid_visits_from grid 0 blocks (omega arith)) refl

-- A loop whose first iteration never ends.
pub for_each_hung {ℓ} :
    {S : Type ℓ} (n : ℕ) (is : List ℕ) (body : ℕ → S → Run S) (s : S)
    → 0 < n
    → IsSchedule n is
    → ((i : ℕ) → i < n → body i s ≡ hung)
    → for_each is body s ≡ hung
unfolding for_each
for_each_hung n [] body s pos sched h = absurd (omega (arith, sched.once 0 pos))
for_each_hung n (i ∷ is) body s pos sched h = rw (h i (sched.in_range).0) refl

module _ {ℓ} {T : Type ℓ} ⦃r : Arith T⦄ where
  -- With a stride of 0 the reduction never ends, if every lane starts below `n`.
  pub reduce_kernel_stuck :
      (dev : Device) (k : ℕ) (s : Arrays T) (start : ℕ → ℕ → ℕ) (n threads blocks : ℕ)
      (shared : ℕ → List T) (sums : List T)
      → IsDevice dev
      → n ≤ 2 ^ 63
      → 0 < threads
      → 0 < blocks
      → ((b t : ℕ) → b < blocks → t < threads → start b t < n)
      → reduce_kernel dev k s start 0 n threads blocks shared sums ≡ hung
  unfolding reduce_kernel reduce_lanes block_reduce fill_body lane_sum
  reduce_kernel_stuck dev k s start n threads blocks shared sums good small ht hb below =
      for_each_hung blocks _ _ sums hb (good.blocks_ok k blocks) λ b lb.
        let filling : for_each (dev.lanes k b 0 threads)
              (fill_body (λ t. lane_sum s (start b t) 0 n)) (shared b)
            ≡ hung =
          for_each_hung threads _ _ (shared b) ht (good.lanes_ok k b 0 threads)
            λ t lt. rw (lane_visits_stuck (start b t) n (below b t lb lt) small) refl in
        rw filling refl
