-- ===== src/Backend/Grid/Halving.antt =====
-- The reduction of the shared memory, in which the number of live slots halves with each pass.
use babel_stream.Prelude.{
  ℕ, zero, suc, ◌+◌, ◌/◌, ◌^◌, ◌<◌, ◌≤◌, ◌≡◌, refl, ap, ◌∙◌, true, false, List, ltb, ltb→lt, lt→ltb,
  ◌==◌, ok, if◌then◌else◌, arith,
}
use babel_stream.Arith.{Arith, ◌⊕◌}
use babel_stream.Loop.{read}
use babel_stream.Loop.Schedule.{IsSchedule}
use babel_stream.Loop.Chains.{Shows, read-Shows, IsScatter, for_each-scatter}
use babel_stream.Backend.Grid.{halve_body, halve_loop}

two_pow_suc : (k : ℕ) → 2 ^ suc k ≡ 2 ^ k + 2 ^ k
two_pow_suc k = omega arith

pub lt_two_pow : (k : ℕ) → k < 2 ^ k
lt_two_pow zero = omega arith
lt_two_pow (suc k) = omega (arith, lt_two_pow k, two_pow_suc k)

half_two_pow : (k : ℕ) → 2 ^ suc k / 2 ≡ 2 ^ k
half_two_pow k = omega (arith, two_pow_suc k)

module _ {ℓ} {T : Type ℓ} ⦃r : Arith T⦄ where
  -- The sum of the first `2 ^ k` items, by a tree: each pass adds the upper half to the lower one.
  unfoldable pub tree_sum : (k : ℕ) → (ℕ → T) → T
  tree_sum zero g = g 0
  tree_sum (suc k) g = tree_sum k (λ i. g i ⊕ g (i + 2 ^ k))

  pub tree_sum_congr :
      (k : ℕ) (g h : ℕ → T) → ((i : ℕ) → i < 2 ^ k → g i ≡ h i) → tree_sum k g ≡ tree_sum k h
  unfolding tree_sum
  tree_sum_congr zero g h e = e 0 (omega arith)
  tree_sum_congr (suc k) g h e = tree_sum_congr k _ _ λ i lt.
      rw (e i (omega (arith, two_pow_suc k)), e (i + 2 ^ k) (omega (arith, two_pow_suc k))) refl

  abbrev pair_sum : ℕ → (ℕ → T) → ℕ → T
  pair_sum offset cur i = cur i ⊕ cur (i + offset)

  halve_body-IsScatter :
      (n offset : ℕ)
      → offset + offset ≤ n
      → IsScatter n (halve_body offset) (λ i. ltb i offset) (pair_sum offset)
  unfolding halve_body
  halve_body-IsScatter n offset fits = record {
    write = λ cur xs i s lt w.
        rw
          (
            w,
            read-Shows cur xs i s lt,
            read-Shows cur xs (i + offset) s (omega (arith, ltb→lt i offset w)),
          )
          refl;
    skip = λ xs i w. rw w refl;
    stable = λ cur i j v w w' e.
        let apart : (i == (j + offset)) ≡ false = ground (arith, ltb→lt i offset w) in
        rw (e, apart) refl;
  }

  -- From `2 ^ k` live slots the passes leave the sum of the tree in slot 0, in any order of the lanes.
  pub halve_loop_ok :
      (lanes : ℕ → List ℕ) (n k fuel pass : ℕ) (cur : ℕ → T) (xs : List T)
      → ((p : ℕ) → IsSchedule n (lanes p))
      → 2 ^ k ≤ n
      → k < fuel
      → Shows n cur xs
      → (ys : List T) × (halve_loop lanes fuel pass (2 ^ k / 2) xs ≡ ok ys)
        × (read ys 0 ≡ ok (tree_sum k cur))
  unfolding halve_loop tree_sum
  halve_loop_ok lanes n k zero pass cur xs good fits enough s = absurd (omega arith)
  halve_loop_ok lanes n zero (suc fuel) pass cur xs good fits enough s =
      (xs, refl, read-Shows cur xs 0 s (omega arith))
  halve_loop_ok lanes n (suc k) (suc fuel) pass cur xs good fits enough s =
      let positive : ltb 0 (2 ^ k) ≡ true = lt→ltb 0 (2 ^ k) (omega (arith, lt_two_pow k)) in
      let (ys, e, t) =
        for_each-scatter _ _ _ _ (halve_body-IsScatter n (2 ^ k) (omega (arith, two_pow_suc k)))
          (lanes pass) cur xs (good pass) s in
      let (zs, e', v) =
        halve_loop_ok lanes n k fuel (pass + 1) _ ys good (omega (arith, two_pow_suc k))
          (omega arith) t in
      let same : tree_sum k (λ j. if ltb j (2 ^ k) then pair_sum (2 ^ k) cur j else cur j)
          ≡ tree_sum k (pair_sum (2 ^ k) cur) =
        tree_sum_congr k _ _ λ i lt. rw (lt→ltb i (2 ^ k) lt) refl in
      rw (half_two_pow k, positive, e, e') (zs, refl, v ∙ ap ok same)
