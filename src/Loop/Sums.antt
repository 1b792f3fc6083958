-- ===== src/Loop/Sums.antt =====
-- Sums over an index set.
use babel_stream.Prelude.{
  ℕ, zero, suc, ◌+◌, ◌<◌, ◌≡◌, refl, sym, ap, ◌∙◌, List, [], ◌∷◌, ◌++◌, ◌==◌, arith, false,
  Bool-cases, ==_iff, inl, inr, All, if◌then◌else◌,
}
use babel_stream.Arith.{Arith, ◌⊕◌, ◌⊗◌, IsExact}
use babel_stream.Loop.Schedule.{count, IsSchedule}

module _ {ℓ} {T : Type ℓ} ⦃r : Arith T⦄ where
  -- `for (i : is) z += g(i);`
  unfoldable pub add_up : List ℕ → (ℕ → T) → T → T
  add_up [] g z = z
  add_up (i ∷ is) g z = add_up is g (z ⊕ g i)

  -- `g` at every index below `n`.
  unfoldable pub sum_below : ℕ → (ℕ → T) → T
  sum_below zero g = r.nought
  sum_below (suc n) g = g n ⊕ sum_below n g

  -- `x` added `k` times.
  unfoldable pub times : ℕ → T → T
  times zero x = r.nought
  times (suc k) x = x ⊕ times k x

  pub add_up-append :
      (is ks : List ℕ) (g : ℕ → T) (z : T) → add_up (is ++ ks) g z ≡ add_up ks g (add_up is g z)
  unfolding add_up
  add_up-append [] ks g z = refl
  add_up-append (i ∷ is) ks g z = add_up-append is ks g (z ⊕ g i)

  -- The sum reads `g` below `n` only.
  pub sum_below_congr :
      (n : ℕ) (g h : ℕ → T) → ((j : ℕ) → j < n → g j ≡ h j) → sum_below n g ≡ sum_below n h
  unfolding sum_below
  sum_below_congr zero g h e = refl
  sum_below_congr (suc n) g h e =
      rw (e n (omega arith), sum_below_congr n g h (λ j lt. e j (omega arith))) refl

  module _ (exact : IsExact T) where
    open exact use {nought_add, add_assoc, add_comm, mul_of_nat_zero, mul_of_nat_suc}

    pub add_nought : (x : T) → x ⊕ r.nought ≡ x
    add_nought x = add_comm x r.nought ∙ nought_add x

    add_left_comm : (x y z : T) → x ⊕ (y ⊕ z) ≡ y ⊕ (x ⊕ z)
    add_left_comm x y z = cc (add_assoc x y z, add_assoc y x z, add_comm x y)

    pub sum_below_nought : (n : ℕ) → sum_below n (λ _. r.nought) ≡ r.nought
    unfolding sum_below
    sum_below_nought zero = refl
    sum_below_nought (suc n) = nought_add _ ∙ sum_below_nought n

    -- One more `g i`, at an index below `n`.
    abbrev bump : ℕ → (ℕ → T) → (ℕ → T) → ℕ → T
    bump i g h j = if i == j then g j ⊕ h j else h j

    sum_below-bump_ge :
        (n i : ℕ) (g h : ℕ → T) → n < i + 1 → sum_below n (bump i g h) ≡ sum_below n h
    sum_below-bump_ge n i g h ge =
        sum_below_congr n (bump i g h) h
          λ j lt. let e : (i == j) ≡ false = ground arith in rw e refl

    sum_below-bump :
        (n i : ℕ) (g h : ℕ → T) → i < n → sum_below n (bump i g h) ≡ g i ⊕ sum_below n h
    unfolding sum_below
    sum_below-bump zero i g h lt = absurd (omega arith)
    sum_below-bump (suc n) i g h lt = elim (Bool-cases (i == n)) [
      | inl e ↦
          let same : i ≡ n = (==_iff i n).0 e in
          rw
            (
              e,
              sum_below-bump_ge n i g h (omega arith),
              add_assoc (g n) (h n) (sum_below n h),
              same,
            )
            refl
      | inr e ↦
          rw (e, sum_below-bump n i g h (ground arith), add_left_comm (h n) (g i) (sum_below n h))
            refl
    ]

    add_up-counts :
        (n : ℕ) (g : ℕ → T) (is : List ℕ) (z : T)
        → All (λ i. i < n) is
        → add_up is g z ≡ z ⊕ sum_below n (λ j. times (count j is) (g j))
    unfolding add_up times
    add_up-counts n g [] z h = rw (sum_below_nought n, add_nought z) refl
    add_up-counts n g (i ∷ is) z (lt, h) =
        let old : ℕ → T = λ j. times (count j is) (g j) in
        let grown : sum_below n (λ j. times (count j (i ∷ is)) (g j)) ≡ sum_below n (bump i g old) =
          sum_below_congr n _ _
            λ j below. elim (Bool-cases (i == j)) [ inl e ↦ rw e refl | inr e ↦ rw e refl ] in
        add_up-counts n g is (z ⊕ g i) h
        ∙ (add_assoc z (g i) (sum_below n old)
            ∙ ap (λ y. z ⊕ y) (sym (grown ∙ sum_below-bump n i g old lt)))

    -- The sum over a schedule is the sum below `n`.
    pub add_up_schedule :
        (n : ℕ) (g : ℕ → T) (is : List ℕ) (z : T)
        → IsSchedule n is
        → add_up is g z ≡ z ⊕ sum_below n g
    unfolding times
    add_up_schedule n g is z s =
        rw
          (
            add_up-counts n g is z s.in_range,
            sum_below_congr n (λ j. times (count j is) (g j)) g
                (λ j lt. rw (s.once j lt) (add_nought (g j))),
          )
          refl

    -- `n` equal items add up to a product.
    pub sum_below_const : (n : ℕ) (x : T) → sum_below n (λ _. x) ≡ x ⊗ r.of_nat n
    unfolding sum_below
    sum_below_const zero x = sym (mul_of_nat_zero x)
    sum_below_const (suc n) x =
        let e : suc n ≡ n + 1 = omega arith in
        rw (sum_below_const n x, e) (sym (mul_of_nat_suc x n))
