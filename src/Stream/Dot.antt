-- ===== src/Stream/Dot.antt =====
-- The reduction: a loop over any schedule, or one loop for each thread with the partial sums added
-- up, as a parallel run time does it.
use babel_stream.Prelude.{
  ℕ, zero, suc, ◌<◌, ◌≡◌, refl, sym, ap, ◌∙◌, List, [], ◌∷◌, ◌++◌, arith, some, none, length,
  get_elem?, replicate, length-replicate, All, Run, ok, ◌>>=◌,
}
use babel_stream.Arith.{Arith, ◌⊕◌, ◌⊗◌, IsExact}
use babel_stream.Loop.{for_each}
use babel_stream.Loop.Schedule.{IsSchedule}
use babel_stream.Loop.Updates.{get_elem?-lt, read-map}
use babel_stream.Loop.Sums.{
  add_up, add_up-append, add_up_schedule, sum_below, sum_below_congr, sum_below_const, add_nought,
}
use babel_stream.Stream.{Arrays, Row, arrays_of}
use babel_stream.Stream.Kernels.{dot_body}

-- The iterations of all chunks.
abbrev pub all_of : List (List ℕ) → List ℕ
all_of [] = []
all_of (is ∷ chunks) = is ++ all_of chunks

pub All-head :
    (n : ℕ) (is ks : List ℕ)
    → All (λ i. i < n) (is ++ ks)
    → All (λ i. i < n) is × All (λ i. i < n) ks
All-head n [] ks h = (tt, h)
All-head n (i ∷ is) ks (lt, h) = let (p, q) = All-head n is ks h in ((lt, p), q)

module _ {ℓ} {T : Type ℓ} ⦃r : Arith T⦄ where
  -- `sum` of a chunk of iterations in a private copy that starts at `T{}`, then the chunks' sums
  -- added to `z` in their order.
  unfoldable pub reduce : List (List ℕ) → Arrays T → T → Run T
  reduce [] s z = ok z
  reduce (is ∷ chunks) s z = do p ← for_each is (dot_body s) r.nought; reduce chunks s (z ⊕ p)

  -- `a[i] * b[i]`
  unfoldable pub product_at : List (Row T) → ℕ → T
  product_at l i = elim (get_elem? l i) [ none ↦ r.nought | some x ↦ x.a ⊗ x.b ]

  pub product_at_lem :
      (l : List (Row T)) (i : ℕ) {x : Row T} → get_elem? l i ≡ some x → product_at l i ≡ x.a ⊗ x.b
  unfolding product_at
  product_at_lem l i e = rw (e, product_at) refl

  -- The dot product.
  unfoldable pub dot_rows : List (Row T) → T
  dot_rows l = sum_below (length l) (product_at l)

  pub for_each-dot :
      (l : List (Row T)) (is : List ℕ) (z : T)
      → All (λ i. i < length l) is
      → for_each is (dot_body (arrays_of l)) z ≡ ok (add_up is (product_at l) z)
  unfolding for_each dot_body add_up
  for_each-dot l [] z h = refl
  for_each-dot l (i ∷ is) z (lt, h) =
      let (x, e) = get_elem?-lt l i lt in
      rw
        (
          read-map (λ (q : Row T). q.a) l i e,
          read-map (λ (q : Row T). q.b) l i e,
          product_at_lem l i e,
        )
        (for_each-dot l is (z ⊕ x.a ⊗ x.b) h)

  -- A reduction in chunks returns, without a law of arithmetic.
  pub reduce_total :
      (l : List (Row T)) (chunks : List (List ℕ)) (z : T)
      → All (λ i. i < length l) (all_of chunks)
      → (v : T) × (reduce chunks (arrays_of l) z ≡ ok v)
  unfolding reduce
  reduce_total l [] z h = (z, refl)
  reduce_total l (is ∷ chunks) z h =
      let (p, q) = All-head (length l) is (all_of chunks) h in
      rw (for_each-dot l is r.nought p) (reduce_total l chunks _ q)

  module _ (exact : IsExact T) where
    open exact use {nought_add, add_assoc}

    pub add_up_from : (is : List ℕ) (g : ℕ → T) (z : T) → add_up is g z ≡ z ⊕ add_up is g r.nought
    unfolding add_up
    add_up_from [] g z = sym (add_nought exact z)
    add_up_from (i ∷ is) g z =
        add_up_from is g (z ⊕ g i)
        ∙ (add_assoc z (g i) _
            ∙ ap (λ y. z ⊕ y) (sym (ap (add_up is g) (nought_add (g i)) ∙ add_up_from is g (g i))))

    reduce-add_up :
        (l : List (Row T)) (chunks : List (List ℕ)) (z : T)
        → All (λ i. i < length l) (all_of chunks)
        → reduce chunks (arrays_of l) z ≡ ok (add_up (all_of chunks) (product_at l) z)
    unfolding reduce add_up
    reduce-add_up l [] z h = refl
    reduce-add_up l (is ∷ chunks) z h =
        let (p, q) = All-head (length l) is (all_of chunks) h in
        rw
          (
            for_each-dot l is r.nought p,
            add_up-append is (all_of chunks) (product_at l) z,
            add_up_from is (product_at l) z,
          )
          (reduce-add_up l chunks _ q)

    -- In exact arithmetic the result does not depend on the chunks.
    pub reduce-dot_rows :
        (l : List (Row T)) (chunks : List (List ℕ))
        → IsSchedule (length l) (all_of chunks)
        → reduce chunks (arrays_of l) r.nought ≡ ok (dot_rows l)
    unfolding dot_rows
    reduce-dot_rows l chunks s =
        rw
          (
            reduce-add_up l chunks r.nought s.in_range,
            add_up_schedule exact (length l) (product_at l) (all_of chunks) r.nought s,
            nought_add (sum_below (length l) (product_at l)),
          )
          refl

    -- A loop over a schedule gives the dot product too.
    pub for_each-dot_rows :
        (l : List (Row T)) (is : List ℕ)
        → IsSchedule (length l) is
        → for_each is (dot_body (arrays_of l)) r.nought ≡ ok (dot_rows l)
    unfolding dot_rows
    for_each-dot_rows l is s =
        rw
          (
            for_each-dot l is r.nought s.in_range,
            add_up_schedule exact (length l) (product_at l) is r.nought s,
            nought_add (sum_below (length l) (product_at l)),
          )
          refl

    get_elem?-replicate : (n j : ℕ) (x : Row T) → j < n → get_elem? (replicate n x) j ≡ some x
    get_elem?-replicate zero j x h = absurd (omega arith)
    get_elem?-replicate (suc n) zero x h = refl
    get_elem?-replicate (suc n) (suc j) x h = get_elem?-replicate n j x (omega arith)

    -- On equal rows the dot product is the one that the check of the solution expects.
    pub dot_rows-replicate :
        (n : ℕ) (x : Row T) → dot_rows (replicate n x) ≡ (x.a ⊗ x.b) ⊗ r.of_nat n
    unfolding dot_rows
    dot_rows-replicate n x =
        ap (λ k. sum_below k (product_at (replicate n x))) (length-replicate n x)
        ∙ (sum_below_congr n (product_at (replicate n x)) (λ _. x.a ⊗ x.b)
              (λ j lt. product_at_lem (replicate n x) j (get_elem?-replicate n j x lt))
            ∙ sum_below_const exact n (x.a ⊗ x.b))
