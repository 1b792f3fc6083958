-- ===== src/Stream/Laws.antt =====
-- The kernels' loops under a schedule, and the row functions.
use babel_stream.Prelude.{ℕ, ◌<◌, ◌≡◌, refl, List, map, length, ok}
use babel_stream.Arith.{Arith}
use babel_stream.Loop.{for_each}
use babel_stream.Loop.Schedule.{IsSchedule}
use babel_stream.Loop.Updates.{
  update_at, get_elem?-lt, read-map, store-map, map-update_at, for_each-map,
}
use babel_stream.Stream.{Row, arrays_of, copy_row, mul_row, add_row, triad_row, nstream_row}
use babel_stream.Stream.Kernels.{init_body, copy_body, mul_body, add_body, triad_body, nstream_body}

module _ {ℓ} {T : Type ℓ} where
  abbrev pub init_row : T → T → T → Row T → Row T
  init_row x y z _ = record { a = x; b = y; c = z }

  init_body-arrays_of :
      (x y z : T) (i : ℕ) (l : List (Row T))
      → i < length l
      → init_body x y z i (arrays_of l) ≡ ok (arrays_of (update_at i (init_row x y z) l))
  unfolding init_body
  init_body-arrays_of x y z i l h =
      let (p, e) = get_elem?-lt l i h in
      rw
        (
          store-map (λ (q : Row T). q.a) (init_row x y z) l i e,
          store-map (λ (q : Row T). q.b) (init_row x y z) l i e,
          store-map (λ (q : Row T). q.c) (init_row x y z) l i e,
        )
        refl

  pub for_each-init :
      (x y z : T) (is : List ℕ) (l : List (Row T))
      → IsSchedule (length l) is
      → for_each is (init_body x y z) (arrays_of l) ≡ ok (arrays_of (map (init_row x y z) l))
  for_each-init x y z =
      for_each-map arrays_of (init_body x y z) (init_row x y z) (init_body-arrays_of x y z)

module _ {ℓ} {T : Type ℓ} ⦃r : Arith T⦄ where
  copy_body-arrays_of :
      (i : ℕ) (l : List (Row T))
      → i < length l
      → copy_body i (arrays_of l) ≡ ok (arrays_of (update_at i copy_row l))
  unfolding copy_body
  copy_body-arrays_of i l h =
      let (p, e) = get_elem?-lt l i h in
      rw
        (
          read-map (λ (q : Row T). q.a) l i e,
          store-map (λ (q : Row T). q.c) copy_row l i e,
          map-update_at (λ (q : Row T). q.a) copy_row (λ x. refl) l i,
          map-update_at (λ (q : Row T). q.b) copy_row (λ x. refl) l i,
        )
        refl

  pub for_each-copy :
      (is : List ℕ) (l : List (Row T))
      → IsSchedule (length l) is
      → for_each is copy_body (arrays_of l) ≡ ok (arrays_of (map copy_row l))
  for_each-copy = for_each-map arrays_of copy_body copy_row copy_body-arrays_of

  mul_body-arrays_of :
      (i : ℕ) (l : List (Row T))
      → i < length l
      → mul_body i (arrays_of l) ≡ ok (arrays_of (update_at i mul_row l))
  unfolding mul_body
  mul_body-arrays_of i l h =
      let (p, e) = get_elem?-lt l i h in
      rw
        (
          read-map (λ (q : Row T). q.c) l i e,
          store-map (λ (q : Row T). q.b) mul_row l i e,
          map-update_at (λ (q : Row T). q.a) mul_row (λ x. refl) l i,
          map-update_at (λ (q : Row T). q.c) mul_row (λ x. refl) l i,
        )
        refl

  pub for_each-mul :
      (is : List ℕ) (l : List (Row T))
      → IsSchedule (length l) is
      → for_each is mul_body (arrays_of l) ≡ ok (arrays_of (map mul_row l))
  for_each-mul = for_each-map arrays_of mul_body mul_row mul_body-arrays_of

  add_body-arrays_of :
      (i : ℕ) (l : List (Row T))
      → i < length l
      → add_body i (arrays_of l) ≡ ok (arrays_of (update_at i add_row l))
  unfolding add_body
  add_body-arrays_of i l h =
      let (p, e) = get_elem?-lt l i h in
      rw
        (
          read-map (λ (q : Row T). q.a) l i e,
          read-map (λ (q : Row T). q.b) l i e,
          store-map (λ (q : Row T). q.c) add_row l i e,
          map-update_at (λ (q : Row T). q.a) add_row (λ x. refl) l i,
          map-update_at (λ (q : Row T). q.b) add_row (λ x. refl) l i,
        )
        refl

  pub for_each-add :
      (is : List ℕ) (l : List (Row T))
      → IsSchedule (length l) is
      → for_each is add_body (arrays_of l) ≡ ok (arrays_of (map add_row l))
  for_each-add = for_each-map arrays_of add_body add_row add_body-arrays_of

  triad_body-arrays_of :
      (i : ℕ) (l : List (Row T))
      → i < length l
      → triad_body i (arrays_of l) ≡ ok (arrays_of (update_at i triad_row l))
  unfolding triad_body
  triad_body-arrays_of i l h =
      let (p, e) = get_elem?-lt l i h in
      rw
        (
          read-map (λ (q : Row T). q.b) l i e,
          read-map (λ (q : Row T). q.c) l i e,
          store-map (λ (q : Row T). q.a) triad_row l i e,
          map-update_at (λ (q : Row T). q.b) triad_row (λ x. refl) l i,
          map-update_at (λ (q : Row T). q.c) triad_row (λ x. refl) l i,
        )
        refl

  pub for_each-triad :
      (is : List ℕ) (l : List (Row T))
      → IsSchedule (length l) is
      → for_each is triad_body (arrays_of l) ≡ ok (arrays_of (map triad_row l))
  for_each-triad = for_each-map arrays_of triad_body triad_row triad_body-arrays_of

  nstream_body-arrays_of :
      (i : ℕ) (l : List (Row T))
      → i < length l
      → nstream_body i (arrays_of l) ≡ ok (arrays_of (update_at i nstream_row l))
  unfolding nstream_body
  nstream_body-arrays_of i l h =
      let (p, e) = get_elem?-lt l i h in
      rw
        (
          read-map (λ (q : Row T). q.b) l i e,
          read-map (λ (q : Row T). q.c) l i e,
          read-map (λ (q : Row T). q.a) l i e,
          store-map (λ (q : Row T). q.a) nstream_row l i e,
          map-update_at (λ (q : Row T). q.b) nstream_row (λ x. refl) l i,
          map-update_at (λ (q : Row T). q.c) nstream_row (λ x. refl) l i,
        )
        refl

  pub for_each-nstream :
      (is : List ℕ) (l : List (Row T))
      → IsSchedule (length l) is
      → for_each is nstream_body (arrays_of l) ≡ ok (arrays_of (map nstream_row l))
  for_each-nstream = for_each-map arrays_of nstream_body nstream_row nstream_body-arrays_of
