-- ===== src/Backend/Passes.antt =====
-- The passes over the arrays that src/std/STDStream.cpp makes and the other back ends do not.
use babel_stream.Prelude.{
  ℕ, zero, suc, arith, ◌<◌, ◌≡◌, refl, ap, ◌∙◌, List, [], ◌∷◌, map, length, length-map, replicate,
  Run, ok, ◌>>=◌,
}
use babel_stream.Arith.{Arith, ◌⊕◌, ◌⊗◌}
use babel_stream.Benchmark.{start_scalar}
use babel_stream.Loop.{for_each, read, store}
use babel_stream.Loop.Schedule.{IsSchedule}
use babel_stream.Loop.Updates.{
  update_at, get_elem?-lt, read-map, store-map, map-update_at, for_each-map,
}
use babel_stream.Stream.{Arrays, Row, arrays_of, nstream_row}

-- Without it the two groupings of `a + b + scalar * c` may round differently.
abbrev pub IsAssociative {ℓ} : (T : Type ℓ) ⦃r : Arith T⦄ → Type ℓ
IsAssociative T = (x y z : T) → (x ⊕ y) ⊕ z ≡ x ⊕ (y ⊕ z)

module _ {ℓ} {T : Type ℓ} where
  -- An item of `std::fill_n`.
  unfoldable pub fill_a : T → ℕ → Arrays T → Run (Arrays T)
  fill_a x i s = do a' ← store s.a i x; ok (record s { a = a' })

  unfoldable pub fill_b : T → ℕ → Arrays T → Run (Arrays T)
  fill_b y i s = do b' ← store s.b i y; ok (record s { b = b' })

  unfoldable pub fill_c : T → ℕ → Arrays T → Run (Arrays T)
  fill_c z i s = do c' ← store s.c i z; ok (record s { c = c' })

  abbrev pub a_row : T → Row T → Row T
  a_row v x = record x { a = v }

  fill_a-arrays_of :
      (v : T) (i : ℕ) (l : List (Row T))
      → i < length l
      → fill_a v i (arrays_of l) ≡ ok (arrays_of (update_at i (a_row v) l))
  unfolding fill_a
  fill_a-arrays_of v i l h =
      let (p, e) = get_elem?-lt l i h in
      rw
        (
          store-map (λ (q : Row T). q.a) (a_row v) l i e,
          map-update_at (λ (q : Row T). q.b) (a_row v) (λ x. refl) l i,
          map-update_at (λ (q : Row T). q.c) (a_row v) (λ x. refl) l i,
        )
        refl

  pub for_each-fill_a :
      (v : T) (is : List ℕ) (l : List (Row T))
      → IsSchedule (length l) is
      → for_each is (fill_a v) (arrays_of l) ≡ ok (arrays_of (map (a_row v) l))
  for_each-fill_a v = for_each-map arrays_of (fill_a v) (a_row v) (fill_a-arrays_of v)

  abbrev pub b_row : T → Row T → Row T
  b_row v x = record x { b = v }

  fill_b-arrays_of :
      (v : T) (i : ℕ) (l : List (Row T))
      → i < length l
      → fill_b v i (arrays_of l) ≡ ok (arrays_of (update_at i (b_row v) l))
  unfolding fill_b
  fill_b-arrays_of v i l h =
      let (p, e) = get_elem?-lt l i h in
      rw
        (
          store-map (λ (q : Row T). q.b) (b_row v) l i e,
          map-update_at (λ (q : Row T). q.a) (b_row v) (λ x. refl) l i,
          map-update_at (λ (q : Row T). q.c) (b_row v) (λ x. refl) l i,
        )
        refl

  pub for_each-fill_b :
      (v : T) (is : List ℕ) (l : List (Row T))
      → IsSchedule (length l) is
      → for_each is (fill_b v) (arrays_of l) ≡ ok (arrays_of (map (b_row v) l))
  for_each-fill_b v = for_each-map arrays_of (fill_b v) (b_row v) (fill_b-arrays_of v)

  abbrev pub c_row : T → Row T → Row T
  c_row v x = record x { c = v }

  fill_c-arrays_of :
      (v : T) (i : ℕ) (l : List (Row T))
      → i < length l
      → fill_c v i (arrays_of l) ≡ ok (arrays_of (update_at i (c_row v) l))
  unfolding fill_c
  fill_c-arrays_of v i l h =
      let (p, e) = get_elem?-lt l i h in
      rw
        (
          store-map (λ (q : Row T). q.c) (c_row v) l i e,
          map-update_at (λ (q : Row T). q.a) (c_row v) (λ x. refl) l i,
          map-update_at (λ (q : Row T). q.b) (c_row v) (λ x. refl) l i,
        )
        refl

  pub for_each-fill_c :
      (v : T) (is : List ℕ) (l : List (Row T))
      → IsSchedule (length l) is
      → for_each is (fill_c v) (arrays_of l) ≡ ok (arrays_of (map (c_row v) l))
  for_each-fill_c v = for_each-map arrays_of (fill_c v) (c_row v) (fill_c-arrays_of v)

  -- Three fills make all rows equal.
  pub fills-replicate :
      (x y z : T) (n : ℕ) (l : List (Row T))
      → length l ≡ n
      → map (c_row z) (map (b_row y) (map (a_row x) l))
        ≡ replicate n (record { a = x; b = y; c = z })
  fills-replicate x y z zero [] e = refl
  fills-replicate x y z zero (_ ∷ _) e = absurd (omega arith)
  fills-replicate x y z (suc n) [] e = absurd (omega arith)
  fills-replicate x y z (suc n) (_ ∷ l) e =
      ap (λ m. record { a = x; b = y; c = z } ∷ m) (fills-replicate x y z n l (omega arith))

module _ {ℓ} {T : Type ℓ} ⦃r : Arith T⦄ where
  -- The first `transform` of `DATA17`: `ai + bi`.
  unfoldable pub plus_b_body : ℕ → Arrays T → Run (Arrays T)
  plus_b_body i s = do
    x ← read s.a i
    y ← read s.b i
    a' ← store s.a i (x ⊕ y)
    ok (record s { a = a' })

  -- The second: `ai + startScalar * ci`.
  unfoldable pub plus_c_body : ℕ → Arrays T → Run (Arrays T)
  plus_c_body i s = do
    x ← read s.a i
    z ← read s.c i
    a' ← store s.a i (x ⊕ start_scalar ⊗ z)
    ok (record s { a = a' })

  -- The `transform` of `DATA23`: `a + b + startScalar * c`.
  unfoldable pub flat_body : ℕ → Arrays T → Run (Arrays T)
  flat_body i s = do
    x ← read s.a i
    y ← read s.b i
    z ← read s.c i
    a' ← store s.a i (x ⊕ y ⊕ start_scalar ⊗ z)
    ok (record s { a = a' })

  abbrev plus_b_row : Row T → Row T
  plus_b_row x = record x { a = x.a ⊕ x.b }

  abbrev plus_c_row : Row T → Row T
  plus_c_row x = record x { a = x.a ⊕ start_scalar ⊗ x.c }

  plus_b_body-arrays_of :
      (i : ℕ) (l : List (Row T))
      → i < length l
      → plus_b_body i (arrays_of l) ≡ ok (arrays_of (update_at i plus_b_row l))
  unfolding plus_b_body
  plus_b_body-arrays_of i l h =
      let (p, e) = get_elem?-lt l i h in
      rw
        (
          read-map (λ (q : Row T). q.a) l i e,
          read-map (λ (q : Row T). q.b) l i e,
          store-map (λ (q : Row T). q.a) plus_b_row l i e,
          map-update_at (λ (q : Row T). q.b) plus_b_row (λ x. refl) l i,
          map-update_at (λ (q : Row T). q.c) plus_b_row (λ x. refl) l i,
        )
        refl

  plus_c_body-arrays_of :
      (i : ℕ) (l : List (Row T))
      → i < length l
      → plus_c_body i (arrays_of l) ≡ ok (arrays_of (update_at i plus_c_row l))
  unfolding plus_c_body
  plus_c_body-arrays_of i l h =
      let (p, e) = get_elem?-lt l i h in
      rw
        (
          read-map (λ (q : Row T). q.a) l i e,
          read-map (λ (q : Row T). q.c) l i e,
          store-map (λ (q : Row T). q.a) plus_c_row l i e,
          map-update_at (λ (q : Row T). q.b) plus_c_row (λ x. refl) l i,
          map-update_at (λ (q : Row T). q.c) plus_c_row (λ x. refl) l i,
        )
        refl

  abbrev flat_row : Row T → Row T
  flat_row x = plus_c_row (plus_b_row x)

  flat_body-arrays_of :
      (i : ℕ) (l : List (Row T))
      → i < length l
      → flat_body i (arrays_of l) ≡ ok (arrays_of (update_at i flat_row l))
  unfolding flat_body
  flat_body-arrays_of i l h =
      let (p, e) = get_elem?-lt l i h in
      rw
        (
          read-map (λ (q : Row T). q.a) l i e,
          read-map (λ (q : Row T). q.b) l i e,
          read-map (λ (q : Row T). q.c) l i e,
          store-map (λ (q : Row T). q.a) flat_row l i e,
          map-update_at (λ (q : Row T). q.b) flat_row (λ x. refl) l i,
          map-update_at (λ (q : Row T). q.c) flat_row (λ x. refl) l i,
        )
        refl

  pub first_pass :
      (is : List ℕ) (l : List (Row T))
      → IsSchedule (length l) is
      → for_each is plus_b_body (arrays_of l) ≡ ok (arrays_of (map plus_b_row l))
  first_pass = for_each-map arrays_of plus_b_body plus_b_row plus_b_body-arrays_of

  module _ (assoc : IsAssociative T) where
    map-flat_row : (l : List (Row T)) → map flat_row l ≡ map nstream_row l
    map-flat_row [] = refl
    map-flat_row (x ∷ l) = rw (map-flat_row l, assoc x.a x.b (start_scalar ⊗ x.c)) refl

    map-passes : (l : List (Row T)) → map plus_c_row (map plus_b_row l) ≡ map nstream_row l
    map-passes [] = refl
    map-passes (x ∷ l) = rw (map-passes l, assoc x.a x.b (start_scalar ⊗ x.c)) refl

    -- `DATA23`: one pass with the other grouping.
    pub one_pass :
        (is : List ℕ) (l : List (Row T))
        → IsSchedule (length l) is
        → for_each is flat_body (arrays_of l) ≡ ok (arrays_of (map nstream_row l))
    one_pass is l s =
        for_each-map arrays_of flat_body flat_row flat_body-arrays_of is l s
        ∙ ap (λ m. ok (arrays_of m)) (map-flat_row l)

    -- `DATA17`: the second pass, after the first.
    pub second_pass :
        (js : List ℕ) (l : List (Row T))
        → IsSchedule (length l) js
        → for_each js plus_c_body (arrays_of (map plus_b_row l))
          ≡ ok (arrays_of (map nstream_row l))
    second_pass js l s =
        for_each-map arrays_of plus_c_body plus_c_row plus_c_body-arrays_of js (map plus_b_row l)
          (rw (length-map plus_b_row l) s)
        ∙ ap (λ m. ok (arrays_of m)) (map-passes l)
