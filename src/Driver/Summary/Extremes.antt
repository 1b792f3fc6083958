-- ===== src/Driver/Summary/Extremes.antt =====
-- The printed minimum and maximum of the last loop of `run` in src/main.cpp.
use babel_stream.Prelude.{
  ℕ, zero, suc, ◌≡◌, refl, sym, subst, ap, ◌∙◌, Bool, true, false, Bool-cases, inl, inr, List, [],
  ◌∷◌, replicate, All, if◌then◌else◌,
}
use babel_stream.Arith.{Arith}
use babel_stream.Driver.Summary.{smallest, largest}

-- `<` on times that are numbers, and never NaN.
record IsOrdered {κ} (D : Type κ) ⦃d : Arith D⦄ : Type κ where
  irrefl : (x : D) → d.lt x x ≡ false
  asym : (x y : D) → d.lt x y ≡ true → d.lt y x ≡ false
  trans : (x y z : D) → d.lt y x ≡ false → d.lt z y ≡ false → d.lt z x ≡ false

module _ {κ} {D : Type κ} ⦃d : Arith D⦄ where
  smallest-cons :
      (x y : D) (ys : List D) (b : Bool)
      → d.lt y x ≡ b
      → smallest x (y ∷ ys) ≡ smallest (if b then y else x) ys
  unfolding smallest
  smallest-cons x y ys b e = ap (λ c. smallest (if c then y else x) ys) e

  largest-cons :
      (x y : D) (ys : List D) (b : Bool)
      → d.lt y x ≡ b
      → largest x (y ∷ ys) ≡ largest (if b then x else y) ys
  unfolding largest
  largest-cons x y ys b e = ap (λ c. largest (if c then x else y) ys) e

  -- No item is below `v`; no item is above `v`.
  abbrev NoneBelow : D → List D → Type 0
  NoneBelow v = All (λ y. d.lt y v ≡ false)

  abbrev NoneAbove : D → List D → Type 0
  NoneAbove v = All (λ y. d.lt v y ≡ false)

  module _ (ordered : IsOrdered D) where
    open ordered use {irrefl, asym, trans}

    smallest_lower : (x : D) (xs : List D) → NoneBelow (smallest x xs) (x ∷ xs)
    unfolding smallest
    smallest_lower x [] = (irrefl x, tt)
    smallest_lower x (y ∷ ys) = elim (Bool-cases (d.lt y x)) [
      | inl e ↦
          let (p, q) = smallest_lower y ys in
          subst (λ v. NoneBelow v (x ∷ (y ∷ ys))) (sym (smallest-cons x y ys true e))
            (trans (smallest y ys) y x p (asym y x e), (p, q))
      | inr e ↦
          let (p, q) = smallest_lower x ys in
          subst (λ v. NoneBelow v (x ∷ (y ∷ ys))) (sym (smallest-cons x y ys false e))
            (p, (trans (smallest x ys) x y p e, q))
    ]

    largest_upper : (x : D) (xs : List D) → NoneAbove (largest x xs) (x ∷ xs)
    unfolding largest
    largest_upper x [] = (irrefl x, tt)
    largest_upper x (y ∷ ys) = elim (Bool-cases (d.lt y x)) [
      | inl e ↦
          let (p, q) = largest_upper x ys in
          subst (λ v. NoneAbove v (x ∷ (y ∷ ys))) (sym (largest-cons x y ys true e))
            (p, (trans y x (largest x ys) (asym y x e) p, q))
      | inr e ↦
          let (p, q) = largest_upper y ys in
          subst (λ v. NoneAbove v (x ∷ (y ∷ ys))) (sym (largest-cons x y ys false e))
            (trans x y (largest y ys) e p, (p, q))
    ]

    -- No time is below the printed minimum or above the printed maximum.
    extremes_bound :
        (x : D) (xs : List D)
        → NoneBelow (smallest x xs) (x ∷ xs) × NoneAbove (largest x xs) (x ∷ xs)
    extremes_bound x xs = (smallest_lower x xs, largest_upper x xs)

  if_same : (b : Bool) (x : D) → (if b then x else x) ≡ x
  if_same true x = refl
  if_same false x = refl

  -- In the isolated order all times are one, and so are the minimum and the maximum.
  extremes-replicate :
      (n : ℕ) (x : D) → (smallest x (replicate n x) ≡ x) × (largest x (replicate n x) ≡ x)
  unfolding smallest largest
  extremes-replicate zero x = (refl, refl)
  extremes-replicate (suc n) x =
      let (p, q) = extremes-replicate n x in
      (
        ap (λ y. smallest y (replicate n x)) (if_same (d.lt x x) x) ∙ p,
        ap (λ y. largest y (replicate n x)) (if_same (d.lt x x) x) ∙ q,
      )
