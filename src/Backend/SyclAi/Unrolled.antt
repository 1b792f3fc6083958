-- ===== src/Backend/SyclAi/Unrolled.antt =====
-- The unrolled loop of the reduction against the plain one.
use babel_stream.Prelude.{
  ℕ, zero, suc, ◌+◌, ◌-◌, ◌*◌, ◌%◌, ◌^◌, ◌<◌, ◌≤◌, ◌≡◌, refl, sym, subst, false, Bool-cases, inl,
  inr, some, List, [], ◌∷◌, ◌++◌, ltb, lt→ltb, ltb→lt, arith,
}
use mathlib.Core.List.{append_assoc}
use babel_stream.Backend.Grid.{lane_loop, lane_visits}
use babel_stream.Backend.SyclAi.{terms, at_most_eight, unrolled_loop, unrolled_visits}

suc_mul : (v size : ℕ) → suc v * size ≡ v * size + size
suc_mul v size = grind arith

mul_suc : (v size : ℕ) → size * suc v ≡ v * size + size
mul_suc v size = grind arith

module _ (size n : ℕ) (pos : 0 < size) where
  -- From `i` the plain loop visits `is`, with any fuel that is enough.
  abbrev Visits : ℕ → List ℕ → Type 0
  Visits i is = (fuel : ℕ) → n ≤ fuel + i → lane_loop (suc fuel) i size n ≡ some is

  module _ (room : n + size ≤ 2 ^ 64) where
    Visits-done : (i : ℕ) → n ≤ i → Visits i []
    unfolding lane_loop
    Visits-done i ge fuel enough = let done : ltb i n ≡ false = ground arith in rw done refl

    Visits-step : (i : ℕ) (is : List ℕ) → i < n → Visits (i + size) is → Visits i (i ∷ is)
    unfolding lane_loop
    Visits-step i is lt rest zero enough = absurd (omega arith)
    Visits-step i is lt rest (suc fuel) enough =
        let next : (i + size) % 2 ^ 64 ≡ i + size = omega arith in
        rw (lt→ltb i n lt, next, rest fuel (omega arith)) refl

    Visits-total : (fuel i : ℕ) → n ≤ fuel + i → (is : List ℕ) × Visits i is
    Visits-total zero i enough = ([], Visits-done i (omega arith))
    Visits-total (suc fuel) i enough = elim (Bool-cases (ltb i n)) [
      | inl more ↦
          let (is, v) = Visits-total fuel (i + size) (omega arith) in
          (i ∷ is, Visits-step i is (ltb→lt i n more) v)
      | inr done ↦ ([], Visits-done i (ground arith))
    ]

    -- A round of the unrolled loop is as many rounds of the plain one as it has terms.
    terms-Visits :
        (num i : ℕ) (rest : List ℕ)
        → i + num * size < n + size
        → Visits (i + num * size) rest
        → Visits i (terms i size num ++ rest)
    unfolding terms
    terms-Visits zero i rest lt v =
        let e : i + 0 * size ≡ i = omega arith in subst (λ k. Visits k rest) e v
    terms-Visits (suc num) i rest lt v =
        let e : i + suc num * size ≡ i + size + num * size = omega (arith, suc_mul num size) in
        let next : (i + size) % 2 ^ 64 ≡ i + size = omega (arith, suc_mul num size) in
        rw next (
          Visits-step i _ (omega (arith, suc_mul num size))
            (terms-Visits num (i + size) rest (omega (arith, e)) (subst (λ k. Visits k rest) e v)))

    module _ (v : ℕ) (few : suc v ≤ 8) (wide : n + size + size * suc v ≤ 2 ^ 64) where
      last_term : (i : ℕ) → i < n + size → (i + (suc v - 1) * size) % 2 ^ 64 ≡ i + v * size
      last_term i near =
          let one_less : suc v - 1 ≡ v = omega arith in rw one_less (omega (arith, mul_suc v size))

      unrolled_loop_ok :
          (fuel i : ℕ)
          → n ≤ fuel + i
          → i < n + size
          → (is : List ℕ) × (j : ℕ) × (unrolled_loop (suc fuel) i (suc v) size n ≡ some (is, j))
            × ((rest : List ℕ) → Visits j rest → Visits i (is ++ rest))
      unfolding unrolled_loop
      unrolled_loop_ok zero i enough near =
          let done : ltb ((i + (suc v - 1) * size) % 2 ^ 64) n ≡ false =
            rw (last_term i near) (ground arith) in
          rw done ([], i, refl, λ rest w. w)
      unrolled_loop_ok (suc fuel) i enough near =
          elim (Bool-cases (ltb ((i + (suc v - 1) * size) % 2 ^ 64) n)) [
            | inl more ↦
                let next : (i + size * suc v) % 2 ^ 64 ≡ i + suc v * size =
                  omega (arith, suc_mul v size, mul_suc v size) in
                let below : i + v * size < n =
                  ltb→lt (i + v * size) n (rw (sym (last_term i near)) more) in
                let (is, j, e, w) =
                  unrolled_loop_ok fuel (i + suc v * size) (omega (arith, suc_mul v size))
                    (omega (arith, suc_mul v size)) in
                let eight : at_most_eight (suc v) ≡ suc v = ground arith in
                rw (more, next, e, eight)
                  (
                    _,
                    j,
                    refl,
                    λ rest u. subst (Visits i) (sym (append_assoc (terms i size (suc v)) is rest)) (
                        terms-Visits (suc v) i (is ++ rest) (omega (arith, suc_mul v size))
                          (w rest u)),
                  )
            | inr done ↦ rw done ([], i, refl, λ rest w. w)
          ]

-- For a factor of at most 8 the unrolled loop and the rest after it visit what the plain loop visits,
-- in the same order, as long as the indices stay within 64 bits.
pub unrolled_visits-lane_visits :
    (i unroll size n : ℕ)
    → 0 < size
    → 0 < unroll
    → unroll ≤ 8
    → i < n + size
    → n + size + size * unroll ≤ 2 ^ 64
    → unrolled_visits i unroll size n ≡ lane_visits i size n
unfolding unrolled_visits lane_visits
unrolled_visits-lane_visits i zero size n pos some_terms few near wide = absurd (omega arith)
unrolled_visits-lane_visits i (suc v) size n pos some_terms few near wide =
    let room : n + size ≤ 2 ^ 64 = omega arith in
    let (is, j, e, w) = unrolled_loop_ok size n pos room v few wide n i (omega arith) near in
    let (rest, u) = Visits-total size n pos room n j (omega arith) in
    rw (e, u n (omega arith), w rest u n (omega arith), unrolled_visits, lane_visits) refl
