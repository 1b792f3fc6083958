-- ===== src/Backend/Grid/Cover.antt =====
-- The iterations of all lanes of a grid together.
use native.Mathlib.Nat.{mod-lt, mod-add-div', div-lt_iff_lt-mul, mul_comm}
use babel_stream.Prelude.{
  ℕ, zero, suc, ◌+◌, ◌*◌, ◌/◌, ◌%◌, ◌^◌, ◌<◌, ◌≤◌, ◌≡◌, refl, sym, ap, ◌∙◌, Bool-cases, inl, inr,
  List, [], ◌++◌, All, All-append, ltb, ◌==◌, ==_iff, ok, if◌then◌else◌, arith,
}
use babel_stream.Loop.Schedule.{count, count-append, IsSchedule}
use babel_stream.Backend.Grid.{lane_visits, block_visits, grid_visits}
use babel_stream.Backend.Grid.Strides.{lane_visits_ok, lane_unique}

-- `f first ++ f (first + 1) ++ …`, as many as `num`.
unfoldable pub concat_from : (ℕ → List ℕ) → (first num : ℕ) → List ℕ
concat_from f first zero = []
concat_from f first (suc num) = f first ++ concat_from f (first + 1) num

pub concat_from-All :
    (n : ℕ) (f : ℕ → List ℕ) (first num : ℕ)
    → ((i : ℕ) → i < first + num → All (λ j. j < n) (f i))
    → All (λ j. j < n) (concat_from f first num)
unfolding concat_from
concat_from-All n f first zero h = tt
concat_from-All n f first (suc num) h =
    All-append _ (f first) (concat_from f (first + 1) num) (h first (omega arith))
      (concat_from-All n f (first + 1) num (λ i lt. h i (omega arith)))

-- If only the part number `home` holds `j`, then the whole does, as often.
pub count-concat_from :
    (j home c : ℕ) (f : ℕ → List ℕ) (first num : ℕ)
    → ((i : ℕ) → i < first + num → count j (f i) ≡ (if i == home then c else 0))
    → count j (concat_from f first num)
      ≡ (if ltb home first then 0 else if ltb home (first + num) then c else 0)
unfolding concat_from
count-concat_from j home c f first zero h = ground arith
count-concat_from j home c f first (suc num) h =
    count-append j (f first) (concat_from f (first + 1) num)
    ∙ ground (
      arith,
      h first (omega arith),
      count-concat_from j home c f (first + 1) num (λ i lt. h i (omega arith)),
    )

-- The iterations of the lane that starts at `i`.
unfoldable pub visited : (i stride n : ℕ) → List ℕ
visited i stride n = elim (lane_visits i stride n) [ ok is ↦ is | _ ↦ [] ]

abbrev pub block_visited : (ℕ → ℕ) → (stride n threads : ℕ) → List ℕ
block_visited start stride n threads = concat_from (λ t. visited (start t) stride n) 0 threads

abbrev pub grid_visited : (ℕ → ℕ → ℕ) → (stride n threads blocks : ℕ) → List ℕ
grid_visited start stride n threads blocks =
    concat_from (λ b. block_visited (start b) stride n threads) 0 blocks

-- Lane `t` of block `b` starts at its global index, and the stride is the size of the grid.
pub record IsGrid (start : ℕ → ℕ → ℕ) (stride n threads blocks : ℕ) : Type 0 where
  pub start_ok : (b t : ℕ) → b < blocks → t < threads → start b t ≡ t + threads * b
  pub stride_ok : stride ≡ threads * blocks
  pub narrow : threads * blocks ≤ 2 ^ 63
  pub small : n ≤ 2 ^ 63
  pub threads_pos : 0 < threads
  pub blocks_pos : 0 < blocks

pub in_grid :
    (t b threads blocks : ℕ) → t < threads → b < blocks → t + threads * b < threads * blocks
in_grid t b threads blocks h k = grind arith

-- A global index has one lane and one block.
home_lane :
    (t b g threads : ℕ)
    → t < threads
    → ◌≡◌ {A = ℕ}
        (if (t + threads * b) == g then 1 else 0)
        (if t == (g % threads) then if b == (g / threads) then 1 else 0 else 0)
home_lane t b g threads h =
    let unique : (t + b * threads ≡ (g % threads) + (g / threads) * threads)
        → (t ≡ g % threads) × (b ≡ g / threads) =
      lane_unique threads t b (g % threads) (g / threads) h (mod-lt g (omega arith)) in
    let split : (g % threads) + (g / threads) * threads ≡ g = mod-add-div' g threads in
    elim (Bool-cases ((t + threads * b) == g)) [
      | inl e ↦
          let (p, q) = unique (grind (arith, (==_iff _ _).0 e, split)) in
          rw e (ground (arith, p, q))
      | inr e ↦
          let apart : (t ≡ g % threads) → (b ≡ g / threads) → ⊥ =
            λ p q. cc (e, (==_iff (t + threads * b) g).1 (grind (arith, p, q, split))) in
          rw e (ground (arith, apart))
    ]

module _ {start : ℕ → ℕ → ℕ} {stride n threads blocks : ℕ}
    (grid : IsGrid start stride n threads blocks) where
  start_lt : (b t : ℕ) → b < blocks → t < threads → start b t < stride
  start_lt b t hb ht =
      rw (grid.start_ok b t hb ht, grid.stride_ok) (in_grid t b threads blocks ht hb)

  stride_pos : 0 < stride
  stride_pos = omega (arith, start_lt 0 0 grid.blocks_pos grid.threads_pos)

  pub visited_ok :
      (b t : ℕ)
      → b < blocks
      → t < threads
      → (lane_visits (start b t) stride n ≡ ok (visited (start b t) stride n))
        × All (λ i. i < n) (visited (start b t) stride n)
        × ((g q : ℕ)
            → g < stride
            → g + q * stride < n
            → count (g + q * stride) (visited (start b t) stride n)
              ≡ (if start b t == g then 1 else 0))
  unfolding visited
  visited_ok b t hb ht =
      let (is, e, h, c) =
        lane_visits_ok stride n (start b t) grid.small (rw grid.stride_ok grid.narrow)
          (start_lt b t hb ht) in
      rw (e, visited) (refl, h, c)

  pub block_visits_ok :
      (b first lanes : ℕ)
      → b < blocks
      → first + lanes ≤ threads
      → block_visits (start b) stride n first lanes
        ≡ ok (concat_from (λ t. visited (start b t) stride n) first lanes)
  unfolding block_visits concat_from
  block_visits_ok b first zero hb h = refl
  block_visits_ok b first (suc lanes) hb h =
      rw
        (
          (visited_ok b first hb (omega arith)).0,
          block_visits_ok b (first + 1) lanes hb (omega arith),
        )
        refl

  pub grid_visits_from :
      (first num : ℕ)
      → first + num ≤ blocks
      → grid_visits start stride n threads first num
        ≡ ok (concat_from (λ b. block_visited (start b) stride n threads) first num)
  unfolding grid_visits concat_from
  grid_visits_from first zero h = refl
  grid_visits_from first (suc num) h =
      rw
        (
          block_visits_ok first 0 threads (omega arith) (omega arith),
          grid_visits_from (first + 1) num (omega arith),
        )
        refl

  lane_count :
      (b t j : ℕ)
      → b < blocks
      → t < threads
      → j < n
      → count j (visited (start b t) stride n) ≡ (
          if t == (j % stride % threads) then (if b == (j % stride / threads) then 1 else 0) else 0)
  lane_count b t j hb ht lt =
      let split : (j % stride) + (j / stride) * stride ≡ j = mod-add-div' j stride in
      let c : count ((j % stride) + (j / stride) * stride) (visited (start b t) stride n)
          ≡ (if start b t == (j % stride) then 1 else 0) =
        (visited_ok b t hb ht).2 (j % stride) (j / stride) (mod-lt j stride_pos) (rw split lt) in
      ap (λ k. count k (visited (start b t) stride n)) (sym split)
      ∙ (c ∙ rw (grid.start_ok b t hb ht) (home_lane t b (j % stride) threads ht))

  block_count :
      (b j : ℕ)
      → b < blocks
      → j < n
      → count j (block_visited (start b) stride n threads)
        ≡ (if b == (j % stride / threads) then 1 else 0)
  block_count b j hb lt =
      let home : (j % stride) % threads < threads = mod-lt (j % stride) grid.threads_pos in
      count-concat_from j (j % stride % threads) (if b == (j % stride / threads) then 1 else 0) _ 0
        threads (λ t ht. lane_count b t j hb (omega arith) lt)
      ∙ ground (arith, home)

  home_block : (j : ℕ) → j % stride / threads < blocks
  home_block j =
      (div-lt_iff_lt-mul {k = threads} {x = j % stride} {y = blocks} grid.threads_pos).1
        (rw (mul_comm blocks threads, sym grid.stride_ok) (mod-lt j stride_pos))

  -- Every index below `n` is visited by exactly one lane of the grid, once.
  pub grid_visited-IsSchedule : IsSchedule n (grid_visited start stride n threads blocks)
  grid_visited-IsSchedule = record {
    in_range = concat_from-All n _ 0 blocks (λ b hb.
        concat_from-All n _ 0 threads (λ t ht. (visited_ok b t (omega arith) (omega arith)).1));
    once = λ j lt.
        let home : j % stride / threads < blocks = home_block j in
        count-concat_from j (j % stride / threads) 1 _ 0 blocks
          (λ b hb. block_count b j (omega arith) lt)
        ∙ ground (arith, home);
  }

-- The loops of the lanes of a grid end, without running out of the fuel, and visit every index below
-- `n` exactly once, if the lanes start at their global indices and the stride is the size of the
-- grid.
pub grid_visits_ok :
    (start : ℕ → ℕ → ℕ) (stride n threads blocks : ℕ)
    → IsGrid start stride n threads blocks
    → (is : List ℕ) × (grid_visits start stride n threads 0 blocks ≡ ok is) × IsSchedule n is
grid_visits_ok start stride n threads blocks grid = (
  grid_visited start stride n threads blocks,
  grid_visits_from grid 0 blocks (omega arith),
  grid_visited-IsSchedule grid,
)
