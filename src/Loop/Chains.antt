-- ===== src/Loop/Chains.antt =====
-- Loops over lists that are put together from others, and writes to an array by index.
use babel_stream.Prelude.{
  ℕ, zero, suc, ◌<◌, ◌≤◌, ◌≡◌, refl, sym, subst, ap, ◌∙◌, List, [], ◌∷◌, ◌++◌, Run, ok, ◌>>=◌,
  bind_congr, bind_bind, Bool, true, false, ◌&&◌, Bool-cases, inl, inr, ltb, ◌==◌, ==_iff,
  if◌then◌else◌, All, length, get_elem?, some, arith,
}
use babel_stream.Loop.{for_each, read, store}
use babel_stream.Loop.Schedule.{count, IsSchedule}

pub for_each-append {ℓ} :
    {S : Type ℓ} (is ks : List ℕ) (body : ℕ → S → Run S) (s : S)
    → for_each (is ++ ks) body s ≡ (for_each is body s >>= for_each ks body)
unfolding for_each
for_each-append [] ks body s = refl
for_each-append (i ∷ is) ks body s =
    bind_congr (body i s) _ _ (λ t. for_each-append is ks body t)
    ∙ sym (bind_bind (body i s) (for_each is body) (for_each ks body))

module _ {ℓ} {A : Type ℓ} where
  -- The list holds `cur i` at each index `i` below `n`, and no more.
  pub record Shows (n : ℕ) (cur : ℕ → A) (xs : List A) : Type ℓ where
    pub size : length xs ≡ n
    pub items : (i : ℕ) → i < n → get_elem? xs i ≡ some (cur i)

  -- `cur` with `v` at index `i`.
  abbrev pub override : ℕ → A → (ℕ → A) → ℕ → A
  override i v cur j = if i == j then v else cur j

  pub read-Shows :
      {n : ℕ} (cur : ℕ → A) (xs : List A) (i : ℕ) → Shows n cur xs → i < n → read xs i ≡ ok (cur i)
  unfolding read
  read-Shows cur xs i s lt = rw (s.items i lt) refl

  store_lem :
      (xs : List A) (i : ℕ) (v : A)
      → i < length xs
      → (ys : List A) × (store xs i v ≡ ok ys)
        × (length ys ≡ length xs)
        × ((j : ℕ) → get_elem? ys j ≡ (if i == j then some v else get_elem? xs j))
  unfolding store
  store_lem [] i v lt = absurd (omega arith)
  store_lem (x ∷ xs) zero v lt = (v ∷ xs, refl, refl, λ j. first j)
    where
      first : (j : ℕ) → get_elem? (v ∷ xs) j ≡ (if 0 == j then some v else get_elem? (x ∷ xs) j)
      first zero = refl
      first (suc j) = ground arith
  store_lem (x ∷ xs) (suc i) v lt =
      let (ys, e, n, h) = store_lem xs i v (omega arith) in
      (x ∷ ys, rw e refl, ap suc n, λ j. later ys h j)
    where
      later :
          (ys : List A)
          → ((j : ℕ) → get_elem? ys j ≡ (if i == j then some v else get_elem? xs j))
          → (j : ℕ) → get_elem? (x ∷ ys) j ≡ (if suc i == j then some v else get_elem? (x ∷ xs) j)
      later ys h zero = ground arith
      later ys h (suc j) = ground (arith, h j)

  pub store-Shows :
      {n : ℕ} (cur : ℕ → A) (xs : List A) (i : ℕ) (v : A)
      → Shows n cur xs
      → i < n
      → (ys : List A) × (store xs i v ≡ ok ys) × Shows n (override i v cur) ys
  store-Shows cur xs i v s lt =
      let (ys, e, m, h) = store_lem xs i v (rw s.size lt) in
      (ys, e, record { size = m ∙ s.size; items = λ j below. ground (arith, h j, s.items j below) })

if_true_and {ℓ} :
    {A : Type ℓ} (b : Bool) (x y : A) → (if b && true then x else y) ≡ (if b then x else y)
if_true_and true x y = refl
if_true_and false x y = refl

-- A loop in which an iteration writes its own slot at most, and no iteration that writes reads a
-- slot that another writes.
module _ {ℓ} {A : Type ℓ} (n : ℕ) (body : ℕ → List A → Run (List A)) (writes : ℕ → Bool)
    (new : (ℕ → A) → ℕ → A) where
  pub record IsScatter : Type ℓ where
    pub write :
        (cur : ℕ → A) (xs : List A) (i : ℕ)
        → Shows n cur xs
        → i < n
        → writes i ≡ true
        → body i xs ≡ store xs i (new cur i)
    pub skip : (xs : List A) (i : ℕ) → writes i ≡ false → body i xs ≡ ok xs
    pub stable :
        (cur : ℕ → A) (i j : ℕ) (v : A)
        → writes i ≡ true
        → writes j ≡ true
        → (i == j) ≡ false
        → new (override i v cur) j ≡ new cur j

  -- The slots after the iterations `is`.
  abbrev scattered : List ℕ → (ℕ → A) → ℕ → A
  scattered is cur j = if writes j && ltb 0 (count j is) then new cur j else cur j

  Shows-congr :
      (f g : ℕ → A) (xs : List A) → Shows n f xs → ((j : ℕ) → j < n → f j ≡ g j) → Shows n g xs
  Shows-congr f g xs s e = record { size = s.size; items = λ j lt. s.items j lt ∙ ap some (e j lt) }

  module _ (laws : IsScatter) where
    scatter_step :
        (i : ℕ) (is : List ℕ) (cur : ℕ → A) (j : ℕ)
        → writes i ≡ true
        → count j (i ∷ is) ≤ 1
        → scattered is (override i (new cur i) cur) j ≡ scattered (i ∷ is) cur j
    scatter_step i is cur j w once = elim (Bool-cases (i == j)) [
      | inl e ↦
          let same : i ≡ j = (==_iff i j).0 e in
          let none_left : count j is ≡ 0 = ground arith in
          let w' : writes j ≡ true = subst (λ k. writes k ≡ true) same w in
          rw (e, none_left, w') (ap (new cur) same)
      | inr e ↦ elim (Bool-cases (writes j)) [
        | inl w' ↦ rw (w', e, laws.stable cur i j (new cur i) w w' e) refl
        | inr w' ↦ rw (w', e) refl
      ]
    ]

    unwritten :
        (i : ℕ) (is : List ℕ) (cur : ℕ → A) (j : ℕ)
        → writes i ≡ false
        → scattered is cur j ≡ scattered (i ∷ is) cur j
    unwritten i is cur j w = elim (Bool-cases (i == j)) [
      | inl e ↦
          let w' : writes j ≡ false = subst (λ k. writes k ≡ false) ((==_iff i j).0 e) w in
          rw w' refl
      | inr e ↦ rw e refl
    ]

    scatter :
        (is : List ℕ) (cur : ℕ → A) (xs : List A)
        → All (λ i. i < n) is
        → ((j : ℕ) → j < n → count j is ≤ 1)
        → Shows n cur xs
        → (ys : List A) × (for_each is body xs ≡ ok ys) × Shows n (scattered is cur) ys
    unfolding for_each
    scatter [] cur xs h once s =
        (xs, refl, Shows-congr cur (scattered [] cur) xs s (λ j lt. ground arith))
    scatter (i ∷ is) cur xs (lt, h) once s = elim (Bool-cases (writes i)) [
      | inl w ↦
          let (zs, stored, shown) = store-Shows cur xs i (new cur i) s lt in
          let (ys, e, t) =
            scatter is (override i (new cur i) cur) zs h (λ j below. ground (arith, once j below))
              shown in
          rw (laws.write cur xs i s lt w, stored)
            (
              ys,
              e,
              Shows-congr _ (scattered (i ∷ is) cur) ys t
                  (λ j below. scatter_step i is cur j w (once j below)),
            )
      | inr w ↦
          let (ys, e, t) = scatter is cur xs h (λ j below. ground (arith, once j below)) s in
          rw (laws.skip xs i w)
            (ys, e, Shows-congr _ (scattered (i ∷ is) cur) ys t (λ j below. unwritten i is cur j w))
    ]

    -- Over a schedule every slot that is written has its new value.
    pub for_each-scatter :
        (is : List ℕ) (cur : ℕ → A) (xs : List A)
        → IsSchedule n is
        → Shows n cur xs
        → (ys : List A) × (for_each is body xs ≡ ok ys)
          × Shows n (λ j. if writes j then new cur j else cur j) ys
    for_each-scatter is cur xs sched s =
        let (ys, e, t) =
          scatter is cur xs sched.in_range (λ j lt. omega (arith, sched.once j lt)) s in
        (ys, e, Shows-congr _ _ ys t (λ j lt. rw (sched.once j lt) (if_true_and (writes j) _ _)))
