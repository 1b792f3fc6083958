-- ===== src/Backend/Algorithms.antt =====
-- What src/std/STDStream.cpp expects of the parallel algorithms of the standard library: `for_each_n`,
-- `copy`, `fill_n` and `transform` treat each item once, in any order, and `transform_reduce` adds
-- the initial value and the products in any order and grouping (GENERALIZED_SUM of the standard).
use babel_stream.Prelude.{
  ℕ, ◌<◌, ◌≡◌, refl, sym, ap, ◌∙◌, List, [], ◌∷◌, ◌++◌, length, All, Run, ok, ◌>>=◌, ◌+◌, arith,
}
use mathlib.Core.List.{append-nil, append_assoc}
use babel_stream.Arith.{Arith, ◌⊕◌, ◌⊗◌, IsExact}
use babel_stream.Loop.{read, range}
use babel_stream.Loop.Schedule.{IsSchedule, range-IsSchedule}
use babel_stream.Loop.Updates.{get_elem?-lt, read-map}
use babel_stream.Loop.Sums.{add_up, add_up-append, add_up_schedule}
use babel_stream.Stream.{Arrays, Row, arrays_of}
use babel_stream.Stream.Dot.{product_at, product_at_lem, dot_rows, add_up_from, All-head}

-- The expression that a reduction evaluates.
pub data Sum : Type 0 where
  initial : Sum
  product : ℕ → Sum
  plus : Sum → Sum → Sum

abbrev pub products : Sum → List ℕ
products initial = []
products (product i) = i ∷ []
products (plus e f) = products e ++ products f

-- How often the initial value is added.
abbrev pub initials : Sum → ℕ
initials initial = 1
initials (product i) = 0
initials (plus e f) = initials e + initials f

pub record IsSum (n : ℕ) (e : Sum) : Type 0 where
  pub products_ok : IsSchedule n (products e)
  pub initials_ok : initials e ≡ 1

-- The choices of the library at launch number `k`, for `n` items.
pub record Algorithms : Type 0 where
  pub order : (k n : ℕ) → List ℕ
  pub sums : (k n : ℕ) → Sum

pub record IsAlgorithms (lib : Algorithms) : Type 0 where
  pub order_ok : (k n : ℕ) → IsSchedule n (lib.order k n)
  pub sums_ok : (k n : ℕ) → IsSum n (lib.sums k n)

module _ {ℓ} {T : Type ℓ} ⦃r : Arith T⦄ where
  -- `transform_reduce` of `a` and `b` from `T{0}`.
  unfoldable pub transform_reduce : Sum → Arrays T → Run T
  transform_reduce initial s = ok r.nought
  transform_reduce (product i) s = do x ← read s.a i; y ← read s.b i; ok (x ⊗ y)
  transform_reduce (plus e f) s = do x ← transform_reduce e s; y ← transform_reduce f s; ok (x ⊕ y)

  -- What a reduction can give for some order and grouping.
  abbrev pub IsGeneralizedSum : List (Row T) → T → Type ℓ
  IsGeneralizedSum l v = (e : Sum) × IsSum (length l) e × (transform_reduce e (arrays_of l) ≡ ok v)

  product_ok :
      (l : List (Row T)) (i : ℕ)
      → i < length l
      → transform_reduce (product i) (arrays_of l) ≡ ok (product_at l i)
  unfolding transform_reduce
  product_ok l i lt =
      let (x, e) = get_elem?-lt l i lt in
      rw
        (
          read-map (λ (q : Row T). q.a) l i e,
          read-map (λ (q : Row T). q.b) l i e,
          product_at_lem l i e,
        )
        refl

  transform_reduce_total :
      (l : List (Row T)) (e : Sum)
      → All (λ i. i < length l) (products e)
      → (v : T) × (transform_reduce e (arrays_of l) ≡ ok v)
  unfolding transform_reduce
  transform_reduce_total l initial h = (_, refl)
  transform_reduce_total l (product i) (lt, h) = (_, product_ok l i lt)
  transform_reduce_total l (plus e f) h =
      let (p, q) = All-head (length l) (products e) (products f) h in
      let (x, d) = transform_reduce_total l e p in
      let (y, c) = transform_reduce_total l f q in (x ⊕ y, rw (d, c) refl)

  pub transform_reduce_ok :
      (lib : Algorithms) (good : IsAlgorithms lib) (k : ℕ) (l : List (Row T))
      → (v : T) × (transform_reduce (lib.sums k (length l)) (arrays_of l) ≡ ok v)
        × IsGeneralizedSum l v
  transform_reduce_ok lib good k l =
      let s = good.sums_ok k (length l) in
      let (v, e) = transform_reduce_total l (lib.sums k (length l)) s.products_ok.in_range in
      (v, e, (lib.sums k (length l), s, e))

  module _ (exact : IsExact T) where
    transform_reduce-add_up :
        (l : List (Row T)) (e : Sum)
        → All (λ i. i < length l) (products e)
        → transform_reduce e (arrays_of l) ≡ ok (add_up (products e) (product_at l) r.nought)
    unfolding transform_reduce add_up
    transform_reduce-add_up l initial h = refl
    transform_reduce-add_up l (product i) (lt, h) =
        product_ok l i lt ∙ ap ok (sym (exact.nought_add _))
    transform_reduce-add_up l (plus e f) h =
        let (p, q) = All-head (length l) (products e) (products f) h in
        let x = add_up (products e) (product_at l) r.nought in
        rw (transform_reduce-add_up l e p, transform_reduce-add_up l f q)
          (ap ok (
            sym (
              add_up-append (products e) (products f) (product_at l) r.nought
              ∙ add_up_from exact (products f) (product_at l) x)))

    -- In exact arithmetic that is the dot product.
    pub IsGeneralizedSum-dot_rows :
        (l : List (Row T)) (v : T) → IsGeneralizedSum l v → v ≡ dot_rows l
    unfolding dot_rows
    IsGeneralizedSum-dot_rows l v (t, s, e) =
        let sum : transform_reduce t (arrays_of l) ≡ ok (dot_rows l) =
          transform_reduce-add_up l t s.products_ok.in_range
          ∙ ap ok (
              add_up_schedule exact (length l) (product_at l) (products t) r.nought s.products_ok
              ∙ exact.nought_add _) in
        cc (e, sum)

-- The algorithms from the left, on one thread.
abbrev pub left_from : Sum → List ℕ → Sum
left_from e [] = e
left_from e (i ∷ is) = left_from (plus e (product i)) is

abbrev pub from_left : Algorithms
from_left = record { order = λ k n. range n; sums = λ k n. left_from initial (range n) }

initials-left_from : (e : Sum) (is : List ℕ) → initials (left_from e is) ≡ initials e
initials-left_from e [] = refl
initials-left_from e (i ∷ is) = ground (arith, initials-left_from (plus e (product i)) is)

products-left_from : (e : Sum) (is : List ℕ) → products (left_from e is) ≡ products e ++ is
products-left_from e [] = sym (append-nil (products e))
products-left_from e (i ∷ is) =
    products-left_from (plus e (product i)) is ∙ append_assoc (products e) (i ∷ []) is

pub from_left-IsAlgorithms : IsAlgorithms from_left
from_left-IsAlgorithms = record {
  order_ok = λ k n. range-IsSchedule n;
  sums_ok = λ k n. record {
    products_ok = rw (products-left_from initial (range n)) (range-IsSchedule n);
    initials_ok = initials-left_from initial (range n);
  };
}
