-- ===== src/Backend/SyclAi/Rounded.antt =====
-- A range that is rounded up to work groups, with its guard, against the range of the arrays.
use native.Mathlib.Nat.{mod-lt}
use babel_stream.Prelude.{
  ℕ, zero, suc, ◌+◌, ◌%◌, ◌^◌, ◌<◌, ◌≤◌, ◌≡◌, refl, ◌∙◌, Bool-cases, inl, inr, List, [], ◌∷◌, All,
  ltb, ltb→lt, bind_congr, Run, if◌then◌else◌, arith,
}
use babel_stream.Loop.{for_each}
use babel_stream.Loop.Schedule.{count, IsSchedule}
use babel_stream.Stream.{Arrays}
use babel_stream.Backend.SyclAi.{round_up, guarded}

pub round_up_le : (n wg : ℕ) → n + wg ≤ 2 ^ 63 → n ≤ round_up n wg
unfolding round_up
round_up_le n zero h = omega arith
round_up_le n (suc wg) h = let below : n % suc wg < suc wg = mod-lt n (omega arith) in ground arith

-- The items of a list below `n`.
unfoldable pub within : (n : ℕ) → List ℕ → List ℕ
within n [] = []
within n (i ∷ is) = let rest = within n is in if ltb i n then i ∷ rest else rest

within-All : (n : ℕ) (is : List ℕ) → All (λ i. i < n) (within n is)
unfolding within
within-All n [] = tt
within-All n (i ∷ is) = elim (Bool-cases (ltb i n)) [
  | inl e ↦ rw e (ltb→lt i n e, within-All n is)
  | inr e ↦ rw e (within-All n is)
]

count-within : (n j : ℕ) (is : List ℕ) → j < n → count j (within n is) ≡ count j is
unfolding within
count-within n j [] lt = refl
count-within n j (i ∷ is) lt = ground (arith, count-within n j is lt)

pub within-IsSchedule :
    (n m : ℕ) (is : List ℕ) → n ≤ m → IsSchedule m is → IsSchedule n (within n is)
within-IsSchedule n m is le s = record {
  in_range = within-All n is;
  once = λ j lt. count-within n j is lt ∙ s.once j (omega arith);
}

module _ {ℓ} {T : Type ℓ} where
  -- The guard leaves out the items beyond the arrays.
  pub for_each-guarded :
      (n : ℕ) (body : ℕ → Arrays T → Run (Arrays T)) (is : List ℕ) (s : Arrays T)
      → for_each is (guarded n body) s ≡ for_each (within n is) body s
  unfolding for_each guarded within
  for_each-guarded n body [] s = refl
  for_each-guarded n body (i ∷ is) s = elim (Bool-cases (ltb i n)) [
    | inl e ↦ rw e (bind_congr (body i s) _ _ (λ t. for_each-guarded n body is t))
    | inr e ↦ rw e (for_each-guarded n body is s)
  ]
