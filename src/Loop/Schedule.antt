-- ===== src/Loop/Schedule.antt =====
-- Schedules: lists that hold each index below `n` exactly once, in any order.
use babel_stream.Prelude.{
  ℕ, zero, suc, ◌+◌, ◌≤◌, ◌<◌, ◌≡◌, List, [], ◌∷◌, ◌++◌, ◌==◌, if◌then◌else◌, arith, All,
}
use babel_stream.Loop.{range_from, range}

-- How often `j` stands in the list.
abbrev pub count : ℕ → List ℕ → ℕ
count j [] = 0
count j (i ∷ is) = if i == j then suc (count j is) else count j is

pub record IsSchedule (n : ℕ) (is : List ℕ) : Type 0 where
  pub in_range : All (λ i. i < n) is
  pub once : (j : ℕ) → j < n → count j is ≡ 1

pub count-append : (j : ℕ) (is ks : List ℕ) → count j (is ++ ks) ≡ count j is + count j ks
count-append j [] ks = omega arith
count-append j (i ∷ is) ks = ground (arith, count-append j is ks)

count-range_from :
    (first n j : ℕ)
    → (j < first → count j (range_from first n) ≡ 0)
      × (first ≤ j → j < first + n → count j (range_from first n) ≡ 1)
      × (first + n ≤ j → count j (range_from first n) ≡ 0)
unfolding range_from
count-range_from first zero j = ground arith
count-range_from first (suc n) j = ground (arith, count-range_from (first + 1) n j)

pub All-range_from : (first n m : ℕ) → first + n ≤ m → All (λ i. i < m) (range_from first n)
unfolding range_from
All-range_from first zero m h = tt
All-range_from first (suc n) m h = (omega arith, All-range_from (first + 1) n m (omega arith))

-- A sequential loop is a schedule.
pub range-IsSchedule : (n : ℕ) → IsSchedule n (range n)
range-IsSchedule n = record {
  in_range = All-range_from 0 n n (omega arith);
  once = λ j h. (count-range_from 0 n j).1 (omega arith) (omega arith);
}
