-- ===== src/Backend/Grid/Strides.antt =====
-- The strided loop of a lane.
use native.Mathlib.Nat.{mod-lt, mod-add-div'}
use babel_stream.Prelude.{
  dec_lt, ap₂, ltb→lt, lt→ltb, ==_iff, ℕ, zero, suc, ◌+◌, ◌*◌, ◌/◌, ◌%◌, ◌^◌, ◌<◌, ◌≤◌, ◌≡◌, refl,
  sym, ap, ◌∙◌, Bool, true, false, ◌&&◌, Bool-cases, inl, inr, List, [], ◌∷◌, All, ◌⊎◌, none, some,
  ltb, leb, ◌==◌, ok, hung, if◌then◌else◌, arith,
}
use babel_stream.Loop.Schedule.{count}
use babel_stream.Backend.Grid.{lane_loop, lane_visits}

Nat-cases : (a b : ℕ) → (a < b) ⊎ (a ≡ b) ⊎ (b < a)
Nat-cases a b = elim (dec_lt a b) [
  | yes p ↦ inl p
  | no p ↦ elim (dec_lt b a) [ yes q ↦ inr (inr q) | no q ↦ inr (inl (omega arith)) ]
]

-- A later round has a larger index, whatever the lanes.
round_lt : (stride g m g' q : ℕ) → g < stride → m < q → g + m * stride < g' + q * stride
round_lt stride g m g' q h lt = grind arith

round_le : (stride g m q : ℕ) → m ≤ q → g + m * stride ≤ g + q * stride
round_le stride g m q le = grind arith

next_round : (stride g m : ℕ) → g + m * stride + stride ≡ g + (m + 1) * stride
next_round stride g m = grind arith

-- An index has one lane and one round.
pub lane_unique :
    (stride g m g' q : ℕ)
    → g < stride
    → g' < stride
    → g + m * stride ≡ g' + q * stride
    → (g ≡ g') × (m ≡ q)
lane_unique stride g m g' q h h' e = elim (Nat-cases m q) [
  | inl lt ↦ absurd (omega (arith, round_lt stride g m g' q h lt))
  | inr (inl same) ↦ let e' : g + q * stride ≡ g' + q * stride = rw same at e in (omega arith, same)
  | inr (inr gt) ↦ absurd (omega (arith, round_lt stride g' q g m h' gt))
]

module _ (stride n : ℕ) (small : n ≤ 2 ^ 63) (narrow : stride ≤ 2 ^ 63) where
  -- How often the rounds from `m` on of lane `g` visit the index `g' + q * stride`.
  abbrev visit_count : (g m g' q : ℕ) → ℕ
  visit_count g m g' q = if (g == g') && leb m q then 1 else 0

  visit_count_here :
      (g m g' q k : ℕ)
      → g < stride
      → g' < stride
      → k ≡ visit_count g (m + 1) g' q
      → (if (g + m * stride) == (g' + q * stride) then suc k else k) ≡ visit_count g m g' q
  visit_count_here g m g' q k h h' e = elim (Bool-cases ((g + m * stride) == (g' + q * stride))) [
    | inl same ↦
        let (p, s) = lane_unique stride g m g' q h h' ((==_iff _ _).0 same) in
        rw same (ground arith)
    | inr other ↦
        let apart : (g ≡ g') → (m ≡ q) → ⊥ =
          λ p r. cc (other, (==_iff _ _).1 (ap₂ (λ x y. x + y * stride) p r)) in
        rw other (ground (arith, apart))
  ]

  -- No index is left after the last round.
  visit_count_end :
      (g m g' q : ℕ) → g' + q * stride < n → n ≤ g + m * stride → 0 ≡ visit_count g m g' q
  visit_count_end g m g' q lt ge = ground (arith, round_le stride g' m q)

  lane_loop_ok :
      (fuel g m : ℕ)
      → g < stride
      → n ≤ fuel + (g + m * stride)
      → (is : List ℕ) × (lane_loop (suc fuel) (g + m * stride) stride n ≡ some is)
        × All (λ i. i < n) is
        × ((g' q : ℕ)
            → g' < stride
            → g' + q * stride < n
            → count (g' + q * stride) is ≡ visit_count g m g' q)
  unfolding lane_loop
  lane_loop_ok zero g m h enough =
      let done : ltb (g + m * stride) n ≡ false = ground arith in
      rw done ([], refl, tt, λ g' q _ lt. visit_count_end g m g' q lt (omega arith))
  lane_loop_ok (suc fuel) g m h enough = elim (Bool-cases (ltb (g + m * stride) n)) [
    | inl more ↦
        let within : g + m * stride < n = ltb→lt _ _ more in
        let next : (g + m * stride + stride) % 2 ^ 64 ≡ g + (m + 1) * stride =
          omega (arith, next_round stride g m) in
        let (is, e, h', c) = lane_loop_ok fuel g (m + 1) h (omega (arith, next_round stride g m)) in
        rw (more, next, e)
          (
            (g + m * stride) ∷ is,
            refl,
            (within, h'),
            λ g' q below lt.
                visit_count_here g m g' q (count (g' + q * stride) is) h below (c g' q below lt),
          )
    | inr done ↦ rw done ([], refl, tt, λ g' q _ lt. visit_count_end g m g' q lt (ground arith))
  ]

-- With a stride above 0 the loop of lane `g` ends, within the bounds of its fuel. It stays below `n`,
-- and visits the indices whose remainder by the stride is `g`, once each.
pub lane_visits_ok :
    (stride n g : ℕ)
    → n ≤ 2 ^ 63
    → stride ≤ 2 ^ 63
    → g < stride
    → (is : List ℕ) × (lane_visits g stride n ≡ ok is)
      × All (λ i. i < n) is
      × ((g' q : ℕ)
          → g' < stride
          → g' + q * stride < n
          → count (g' + q * stride) is ≡ (if g == g' then 1 else 0))
unfolding lane_visits
lane_visits_ok stride n g small narrow h =
    let (is, e, below, c) = lane_loop_ok stride n small narrow n g 0 h (omega arith) in
    let start : g + 0 * stride ≡ g = omega arith in
    let e' : lane_loop (suc n) g stride n ≡ some is = rw start at e in
    rw (e', lane_visits)
      (is, refl, below, λ g' q lt within. c g' q lt within ∙ first_round (g == g') q)
  where
    first_round :
        (b : Bool) (q : ℕ) → ◌≡◌ {A = ℕ} (if b && leb 0 q then 1 else 0) (if b then 1 else 0)
    first_round true q = ground arith
    first_round false q = refl

-- The same from any first index.
pub lane_visits_from :
    (stride n i : ℕ)
    → n ≤ 2 ^ 63
    → stride ≤ 2 ^ 63
    → 0 < stride
    → (is : List ℕ) × (lane_visits i stride n ≡ ok is)
      × All (λ j. j < n) is
      × ((j : ℕ)
          → j < n
          → count j is
            ≡ (if (i % stride == (j % stride)) && leb (i / stride) (j / stride) then 1 else 0))
unfolding lane_visits
lane_visits_from stride n i small narrow pos =
    let split = λ (k : ℕ). mod-add-div' k stride in
    let (is, e, below, c) =
      lane_loop_ok stride n small narrow n (i % stride) (i / stride) (mod-lt i pos) (omega arith) in
    let e' : lane_loop (suc n) i stride n ≡ some is = rw (split i) at e in
    rw (e', lane_visits)
      (
        is,
        refl,
        below,
        λ j lt.
            ap (λ k. count k is) (sym (split j))
            ∙ c (j % stride) (j / stride) (mod-lt j pos) (rw (split j) lt),
      )

-- With a stride that is 0 modulo 2^64 a lane that starts below `n` never ends: every fuel runs out.
lane_loop_stuck : (fuel i n : ℕ) → i < n → n ≤ 2 ^ 63 → lane_loop fuel i 0 n ≡ none
unfolding lane_loop
lane_loop_stuck zero i n h small = refl
lane_loop_stuck (suc fuel) i n h small =
    let same : (i + 0) % 2 ^ 64 ≡ i = omega arith in
    rw (lt→ltb i n h, same, lane_loop_stuck fuel i n h small) refl

pub lane_visits_stuck : (i n : ℕ) → i < n → n ≤ 2 ^ 63 → lane_visits i 0 n ≡ hung
unfolding lane_visits
lane_visits_stuck i n h small = rw (lane_loop_stuck (suc n) i n h small, lane_visits) refl
