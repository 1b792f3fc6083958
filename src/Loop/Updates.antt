-- ===== src/Loop/Updates.antt =====
-- Loops whose body rewrites item `i` from item `i`.
use babel_stream.Prelude.{
  ℕ, zero, suc, ◌<◌, ◌≤◌, ◌≡◌, refl, ap, dec_lt, List, [], ◌∷◌, map, ◌==◌, if◌then◌else◌, arith,
  Option, none, some, Run, ok, All, length, get_elem?,
}
use babel_stream.Loop.{read, store, for_each}
use babel_stream.Loop.Schedule.{count, IsSchedule}

module _ {ℓ} {A : Type ℓ} where
  -- The list with `f` applied to item `i`.
  unfoldable pub update_at : ℕ → (A → A) → List A → List A
  update_at i f [] = []
  update_at zero f (x ∷ xs) = f x ∷ xs
  update_at (suc i) f (x ∷ xs) = x ∷ update_at i f xs

  abbrev pub updates : List ℕ → (A → A) → List A → List A
  updates [] f l = l
  updates (i ∷ is) f l = updates is f (update_at i f l)

  abbrev iterate : ℕ → (A → A) → A → A
  iterate zero f x = x
  iterate (suc n) f x = iterate n f (f x)

  abbrev map_some {κ} : {B : Type κ} → (A → B) → Option A → Option B
  map_some f none = none
  map_some f (some x) = some (f x)

  pub length-update_at : (i : ℕ) (f : A → A) (l : List A) → length (update_at i f l) ≡ length l
  unfolding update_at
  length-update_at i f [] = refl
  length-update_at zero f (x ∷ xs) = refl
  length-update_at (suc i) f (x ∷ xs) = ap suc (length-update_at i f xs)

  -- Two lists that agree at every index are equal.
  pub list_ext : (xs ys : List A) → ((j : ℕ) → get_elem? xs j ≡ get_elem? ys j) → xs ≡ ys
  list_ext [] [] h = refl
  list_ext [] (y ∷ ys) h = cc (h 0)
  list_ext (x ∷ xs) [] h = cc (h 0)
  list_ext (x ∷ xs) (y ∷ ys) h = cc (h 0, list_ext xs ys (λ j. h (suc j)))

  get_elem?-update_at :
      (i j : ℕ) (f : A → A) (l : List A)
      → get_elem? (update_at i f l) j
        ≡ (if i == j then map_some f (get_elem? l j) else get_elem? l j)
  unfolding update_at
  get_elem?-update_at i j f [] = ground arith
  get_elem?-update_at zero zero f (x ∷ xs) = refl
  get_elem?-update_at zero (suc j) f (x ∷ xs) = ground arith
  get_elem?-update_at (suc i) zero f (x ∷ xs) = ground arith
  get_elem?-update_at (suc i) (suc j) f (x ∷ xs) = ground (arith, get_elem?-update_at i j f xs)

  get_elem?-updates :
      (is : List ℕ) (j : ℕ) (f : A → A) (l : List A)
      → get_elem? (updates is f l) j ≡ map_some (iterate (count j is) f) (get_elem? l j)
  get_elem?-updates [] j f l = ground arith
  get_elem?-updates (i ∷ is) j f l =
      ground (arith, get_elem?-updates is j f (update_at i f l), get_elem?-update_at i j f l)

  pub get_elem?-map {κ} :
      {B : Type κ} (f : A → B) (l : List A) (j : ℕ)
      → get_elem? (map f l) j ≡ map_some f (get_elem? l j)
  get_elem?-map f [] j = refl
  get_elem?-map f (x ∷ xs) zero = refl
  get_elem?-map f (x ∷ xs) (suc j) = get_elem?-map f xs j

  pub get_elem?-lt : (l : List A) (j : ℕ) → j < length l → (x : A) × (get_elem? l j ≡ some x)
  get_elem?-lt [] j h = absurd (omega arith)
  get_elem?-lt (x ∷ xs) zero h = (x, refl)
  get_elem?-lt (x ∷ xs) (suc j) h = get_elem?-lt xs j (omega arith)

  pub get_elem?-ge : (l : List A) (j : ℕ) → length l ≤ j → get_elem? l j ≡ none
  get_elem?-ge [] j h = refl
  get_elem?-ge (x ∷ xs) zero h = absurd (omega arith)
  get_elem?-ge (x ∷ xs) (suc j) h = get_elem?-ge xs j (omega arith)

  -- Each item is rewritten once, so the order does not matter.
  pub updates-eq-map :
      (is : List ℕ) (f : A → A) (l : List A) → IsSchedule (length l) is → updates is f l ≡ map f l
  updates-eq-map is f l sched = list_ext _ _ λ j. elim (dec_lt j (length l)) [
    | yes h ↦ rw (get_elem?-updates is j f l, get_elem?-map f l j, sched.once j h) refl
    | no h ↦
        rw (get_elem?-updates is j f l, get_elem?-map f l j, get_elem?-ge l j (omega arith)) refl
  ]

  module _ {κ} {B : Type κ} (f : A → B) where
    -- `read` and `store` on one field of the items.
    pub read-map :
        (l : List A) (i : ℕ) {x : A} → get_elem? l i ≡ some x → read (map f l) i ≡ ok (f x)
    unfolding read
    read-map l i e = rw (get_elem?-map f l i, e) refl

    pub store-map :
        (g : A → A) (l : List A) (i : ℕ) {x : A}
        → get_elem? l i ≡ some x
        → store (map f l) i (f (g x)) ≡ ok (map f (update_at i g l))
    unfolding store update_at
    store-map g [] i e = cc
    store-map g (y ∷ l) zero e = cc
    store-map g (y ∷ l) (suc i) e = rw (store-map g l i e) refl

    pub map-update_at :
        (g : A → A)
        → ((x : A) → f (g x) ≡ f x)
        → (l : List A) (i : ℕ) → map f (update_at i g l) ≡ map f l
    unfolding update_at
    map-update_at g h [] i = refl
    map-update_at g h (x ∷ l) zero = rw (h x) refl
    map-update_at g h (x ∷ l) (suc i) = ap (λ m. f x ∷ m) (map-update_at g h l i)

  -- A loop over a schedule, seen through `view`.
  module _ {κ} {S : Type κ} (view : List A → S) (body : ℕ → S → Run S) (f : A → A) where
    for_each-updates :
        ((i : ℕ) (l : List A) → i < length l → body i (view l) ≡ ok (view (update_at i f l)))
        → (is : List ℕ) (l : List A) → All (λ i. i < length l) is
        → for_each is body (view l) ≡ ok (view (updates is f l))
    unfolding for_each
    for_each-updates step [] l h = refl
    for_each-updates step (i ∷ is) l (lt, h) =
        rw (step i l lt)
          (for_each-updates step is (update_at i f l) (rw (length-update_at i f l) h))

    pub for_each-map :
        ((i : ℕ) (l : List A) → i < length l → body i (view l) ≡ ok (view (update_at i f l)))
        → (is : List ℕ) (l : List A) → IsSchedule (length l) is
        → for_each is body (view l) ≡ ok (view (map f l))
    for_each-map step is l sched =
        rw (for_each-updates step is l sched.in_range, updates-eq-map is f l sched) refl
