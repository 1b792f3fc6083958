-- ===== src/Backend/Cuda/Stripes.antt =====
-- `BLOCK_STRIDE` of src/cuda/CUDAStream.cu: each block has a stripe of its own.
use native.Mathlib.Nat.{div-lt_iff_lt-mul}
use babel_stream.Prelude.{
  ℕ, zero, suc, ◌+◌, ◌*◌, ◌/◌, ◌%◌, ◌^◌, ◌<◌, ◌≤◌, ◌≡◌, refl, ◌∙◌, ◌&&◌, dec_lt, List, [], ◌∷◌,
  ◌++◌, All, ltb, leb, ◌==◌, ok, if◌then◌else◌, arith,
}
use babel_stream.Loop.Schedule.{count, count-append, IsSchedule}
use babel_stream.Backend.Grid.{lane_visits}
use babel_stream.Backend.Grid.Strides.{lane_visits_from}
use babel_stream.Backend.Grid.Cover.{concat_from, concat_from-All, count-concat_from, visited}
use babel_stream.Backend.Grid.Launch.{counts-All}
use babel_stream.Backend.Cuda.{tb_size, smaller, stripe_lanes, stripe_visits}

-- What lane `t` of block `b` visits.
abbrev lane_of : (start n b t : ℕ) → List ℕ
lane_of start n b t = visited (start * b + t) tb_size (smaller n (start * (b + 1) + t))

abbrev stripe_of : (start n b : ℕ) → List ℕ
stripe_of start n b = concat_from (lane_of start n b) 0 tb_size

smaller_le : (a b : ℕ) → smaller a b ≤ a
smaller_le a b = ground arith

lane_of_ok :
    (start n b t : ℕ)
    → n ≤ 2 ^ 63
    → (lane_visits (start * b + t) tb_size (smaller n (start * (b + 1) + t))
        ≡ ok (lane_of start n b t))
      × All (λ j. j < smaller n (start * (b + 1) + t)) (lane_of start n b t)
      × ((j : ℕ)
          → j < smaller n (start * (b + 1) + t)
          → count j (lane_of start n b t) ≡ (
              if ((start * b + t) % tb_size == (j % tb_size))
                && leb ((start * b + t) / tb_size) (j / tb_size)
              then 1
              else 0))
unfolding visited
lane_of_ok start n b t small =
    let (is, e, h, c) =
      lane_visits_from tb_size (smaller n (start * (b + 1) + t)) (start * b + t)
        (omega (arith, smaller_le n (start * (b + 1) + t))) (omega arith) (omega arith) in
    rw (e, visited) (refl, h, c)

stripe_lanes_ok :
    (start n b first lanes : ℕ)
    → n ≤ 2 ^ 63
    → stripe_lanes start n b first lanes ≡ ok (concat_from (lane_of start n b) first lanes)
unfolding stripe_lanes concat_from
stripe_lanes_ok start n b first zero small = refl
stripe_lanes_ok start n b first (suc lanes) small =
    rw ((lane_of_ok start n b first small).0, stripe_lanes_ok start n b (first + 1) lanes small)
      refl

stripe_visits_ok :
    (start n first blocks : ℕ)
    → n ≤ 2 ^ 63
    → stripe_visits start n first blocks ≡ ok (concat_from (stripe_of start n) first blocks)
unfolding stripe_visits concat_from
stripe_visits_ok start n first zero small = refl
stripe_visits_ok start n first (suc blocks) small =
    rw
      (
        stripe_lanes_ok start n first 0 tb_size small,
        stripe_visits_ok start n (first + 1) blocks small,
      )
      refl

-- A part counts for the whole.
count-concat_from_ge :
    (j i : ℕ) (f : ℕ → List ℕ) (first num : ℕ)
    → first ≤ i
    → i < first + num
    → count j (f i) ≤ count j (concat_from f first num)
unfolding concat_from
count-concat_from_ge j i f first zero ge lt = absurd (omega arith)
count-concat_from_ge j i f first (suc num) ge lt =
    let parts = count-append j (f first) (concat_from f (first + 1) num) in
    elim (dec_lt first i) [
      | yes later ↦
          omega
            (arith, parts, count-concat_from_ge j i f (first + 1) num (omega arith) (omega arith))
      | no here ↦ let same : i ≡ first = omega arith in rw same (omega (arith, parts))
    ]

count-first_two :
    (j : ℕ) (f : ℕ → List ℕ) (num : ℕ)
    → 2 ≤ num
    → count j (f 0) + count j (f 1) ≤ count j (concat_from f 0 num)
unfolding concat_from
count-first_two j f zero two = absurd (omega arith)
count-first_two j f (suc zero) two = absurd (omega arith)
count-first_two j f (suc (suc num)) two = omega (
  arith,
  count-append j (f 0) (f 1 ++ concat_from f 2 num),
  count-append j (f 1) (concat_from f 2 num),
)

-- If the stripes are not a multiple of the block size, the first index of the second stripe stands in
-- the first stripe too.
unaligned :
    (start n blocks : ℕ)
    → n ≤ 2 ^ 63
    → 0 < start % tb_size
    → start < n
    → 2 ≤ blocks
    → 2 ≤ count start (concat_from (stripe_of start n) 0 blocks)
unaligned start n blocks small odd lt two =
    let early : count start (lane_of start n 0 (start % tb_size)) ≡ 1 =
      (lane_of_ok start n 0 (start % tb_size) small).2 start (ground arith) ∙ ground arith in
    let late : count start (lane_of start n 1 0) ≡ 1 =
      (lane_of_ok start n 1 0 small).2 start (ground arith) ∙ ground arith in
    let first =
      count-concat_from_ge start (start % tb_size) (lane_of start n 0) 0 tb_size (omega arith)
        (omega arith) in
    let second =
      count-concat_from_ge start 0 (lane_of start n 1) 0 tb_size (omega arith) (omega arith) in
    let both = count-first_two start (stripe_of start n) blocks two in
    omega (arith, early, late, first, second, both)

-- A stripe of `c` rounds of the block holds `c` quotients.
home_stripe : (c b k : ℕ) → 0 < c → (b == (k / c)) ≡ (leb (b * c) k && ltb k (b * c + c))
home_stripe c b k pos =
    let next : (b + 1) * c ≡ b * c + c = grind arith in
    let above = div-lt_iff_lt-mul {k = c} {x = k} {y = b + 1} pos in
    let below = div-lt_iff_lt-mul {k = c} {x = k} {y = b} pos in
    elim (dec_lt (k / c) b) [
      | yes h ↦ let h' : k < b * c = below.0 h in ground arith
      | no h ↦
          let h' : (k < b * c) → ⊥ = λ lt. h (below.1 lt) in
          elim (dec_lt (k / c) (b + 1)) [
            | yes g ↦ let g' : k < (b + 1) * c = above.0 g in ground (arith, next, h')
            | no g ↦
                let g' : (k < (b + 1) * c) → ⊥ = λ lt. g (above.1 lt) in ground (arith, next, g')
          ]
    ]

-- Aligned stripes: an index has one lane and one block.
aligned_lane :
    (c n b t j : ℕ)
    → n ≤ 2 ^ 63
    → 0 < c
    → t < tb_size
    → j < n
    → count j (lane_of (tb_size * c) n b t)
      ≡ (if t == (j % tb_size) then if b == (j / tb_size / c) then 1 else 0 else 0)
aligned_lane c n b t j small pos lt within =
    let (_, below, known) = lane_of_ok (tb_size * c) n b t small in
    let from : tb_size * c * b ≡ tb_size * (b * c) = grind arith in
    let upto : tb_size * c * (b + 1) ≡ tb_size * (b * c) + tb_size * c = grind arith in
    let round : (tb_size * c * b + t) / tb_size ≡ b * c = omega (arith, from) in
    let lane : (tb_size * c * b + t) % tb_size ≡ t = omega (arith, from) in
    let home = home_stripe c b (j / tb_size) pos in
    elim (dec_lt j (smaller n (tb_size * c * (b + 1) + t))) [
      | yes h ↦ known j h ∙ rw (home, round, lane) (ground (arith, h, upto))
      | no h ↦
          counts-All _ (lane_of (tb_size * c) n b t) j below (omega arith)
          ∙ rw home (ground (arith, h, upto))
    ]

aligned_stripe :
    (c n b j : ℕ)
    → n ≤ 2 ^ 63
    → 0 < c
    → j < n
    → count j (stripe_of (tb_size * c) n b) ≡ (if b == (j / tb_size / c) then 1 else 0)
aligned_stripe c n b j small pos within =
    count-concat_from j (j % tb_size) (if b == (j / tb_size / c) then 1 else 0)
      (lane_of (tb_size * c) n b) 0 tb_size
      (λ t lt. aligned_lane c n b t j small pos (omega arith) within)
    ∙ ground arith

All-le : (m n : ℕ) (is : List ℕ) → m ≤ n → All (λ j. j < m) is → All (λ j. j < n) is
All-le m n [] le h = tt
All-le m n (i ∷ is) le (lt, h) = (omega arith, All-le m n is le h)

aligned :
    (c n blocks : ℕ)
    → n ≤ 2 ^ 63
    → 0 < c
    → n ≤ tb_size * c * blocks
    → IsSchedule n (concat_from (stripe_of (tb_size * c) n) 0 blocks)
aligned c n blocks small pos enough = record {
  in_range = concat_from-All n _ 0 blocks (λ b hb. concat_from-All n _ 0 tb_size (λ t ht.
      All-le _ n (lane_of (tb_size * c) n b t) (smaller_le n _)
        (lane_of_ok (tb_size * c) n b t small).1));
  once = λ j lt.
      let product : tb_size * c * blocks ≡ tb_size * (blocks * c) = grind arith in
      let home : j / tb_size / c < blocks =
        (div-lt_iff_lt-mul {k = c} {x = j / tb_size} {y = blocks} pos).1 (omega (arith, product)) in
      count-concat_from j (j / tb_size / c) 1 (stripe_of (tb_size * c) n) 0 blocks
        (λ b hb. aligned_stripe c n b j small pos lt)
      ∙ ground (arith, home);
}

-- With stripes that are a multiple of the block size a kernel visits every index exactly once, if
-- there are enough blocks.
pub stripe_visits-IsSchedule :
    (c n blocks : ℕ)
    → n ≤ 2 ^ 63
    → 0 < c
    → n ≤ tb_size * c * blocks
    → (is : List ℕ) × (stripe_visits (tb_size * c) n 0 blocks ≡ ok is) × IsSchedule n is
stripe_visits-IsSchedule c n blocks small pos enough = (
  concat_from (stripe_of (tb_size * c) n) 0 blocks,
  stripe_visits_ok (tb_size * c) n 0 blocks small,
  aligned c n blocks small pos enough,
)

-- With stripes that are no multiple of the block size a kernel with two blocks visits the first
-- index of the second stripe twice at least.
pub stripe_visits_twice :
    (start n blocks : ℕ)
    → n ≤ 2 ^ 63
    → 0 < start % tb_size
    → start < n
    → 2 ≤ blocks
    → (is : List ℕ) × (stripe_visits start n 0 blocks ≡ ok is) × (2 ≤ count start is)
stripe_visits_twice start n blocks small odd lt two = (
  concat_from (stripe_of start n) 0 blocks,
  stripe_visits_ok start n 0 blocks small,
  unaligned start n blocks small odd lt two,
)
