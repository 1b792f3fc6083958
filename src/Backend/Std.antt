-- ===== src/Backend/Std.antt =====
-- src/std/STDStream.cpp
use babel_stream.Prelude.{
  ℕ, ◌+◌, ◌∙◌, ◌≡◌, refl, sym, ap, List, map, length, replicate, length-replicate, length-map, Run,
  ok, ◌>>=◌, Returns,
}
use babel_stream.Arith.{Arith}
use babel_stream.Stream.{
  Arrays, Stream, Row, arrays_of, Implements, copy_row, mul_row, add_row, triad_row, nstream_row,
}
use babel_stream.Stream.Kernels.{copy_body, mul_body, add_body, triad_body, nstream_body}
use babel_stream.Stream.Laws.{
  for_each-copy, for_each-mul, for_each-add, for_each-triad, for_each-nstream,
}
use babel_stream.Backend.Memory.{
  room, IsSize, room_ok, Allocator, IsAllocator, allocate, allocate_rows,
}
use babel_stream.Backend.Algorithms.{
  Algorithms, IsAlgorithms, transform_reduce, transform_reduce_ok, IsGeneralizedSum,
}
use babel_stream.Loop.{for_each}
use babel_stream.Backend.Passes.{
  fill_a, fill_b, fill_c, plus_b_body, plus_c_body, flat_body, IsAssociative, one_pass, first_pass,
  second_pass, for_each-fill_a, for_each-fill_b, for_each-fill_c, fills-replicate, a_row, b_row,
}

-- How the file is compiled.
pub data Variant : Type 0 where
  data17 data23 indices : Variant

pub record StdStream {ℓ} (T : Type ℓ) : Type ℓ where
  pub array_size : ℕ
  pub arrays : Arrays T
  pub launches : ℕ

-- The three texts of `nstream`.
unfoldable pub nstream_as {ℓ} :
    {T : Type ℓ} ⦃r : Arith T⦄ → Algorithms → Variant → StdStream T → Run (StdStream T)
unfolding plus_b_body plus_c_body flat_body
nstream_as lib data17 s = do
  t ← for_each (lib.order s.launches s.array_size) plus_b_body s.arrays
  u ← for_each (lib.order (s.launches + 1) s.array_size) plus_c_body t
  ok (record s { arrays = u; launches = s.launches + 2 })
nstream_as lib data23 s = do
  t ← for_each (lib.order s.launches s.array_size) flat_body s.arrays
  ok (record s { arrays = t; launches = s.launches + 1 })
nstream_as lib indices s = do
  t ← for_each (lib.order s.launches s.array_size) nstream_body s.arrays
  ok (record s { arrays = t; launches = s.launches + 1 })

module _ (lib : Algorithms) (variant : Variant) where
  module _ {ℓ} {T : Type ℓ} where
    -- `fill_n` on each array.
    unfoldable pub init_arrays : T → T → T → StdStream T → Run (StdStream T)
    unfolding fill_a fill_b fill_c
    init_arrays x y z s = do
      t ← for_each (lib.order s.launches s.array_size) (fill_a x) s.arrays
      u ← for_each (lib.order (s.launches + 1) s.array_size) (fill_b y) t
      v ← for_each (lib.order (s.launches + 2) s.array_size) (fill_c z) u
      ok (record s { arrays = v; launches = s.launches + 3 })

    -- `alloc_raw`. The benchmark and the device index are not used.
    unfoldable pub construct : (size_of : ℕ) → Allocator T → ℕ → T → T → T → Run (StdStream T)
    unfolding init_arrays
    construct size_of alloc n x y z = do
      fresh ← allocate alloc (room size_of n)
      init_arrays x y z (record { array_size = n; arrays = fresh; launches = 0 })

    unfoldable pub get_arrays : StdStream T → Run (Arrays T × StdStream T)
    get_arrays s = ok (s.arrays, s)

  module _ {ℓ} {T : Type ℓ} ⦃r : Arith T⦄ where
    unfoldable pub copy : StdStream T → Run (StdStream T)
    copy s = do
      t ← for_each (lib.order s.launches s.array_size) copy_body s.arrays
      ok (record s { arrays = t; launches = s.launches + 1 })

    unfoldable pub mul : StdStream T → Run (StdStream T)
    mul s = do
      t ← for_each (lib.order s.launches s.array_size) mul_body s.arrays
      ok (record s { arrays = t; launches = s.launches + 1 })

    unfoldable pub add : StdStream T → Run (StdStream T)
    add s = do
      t ← for_each (lib.order s.launches s.array_size) add_body s.arrays
      ok (record s { arrays = t; launches = s.launches + 1 })

    unfoldable pub triad : StdStream T → Run (StdStream T)
    triad s = do
      t ← for_each (lib.order s.launches s.array_size) triad_body s.arrays
      ok (record s { arrays = t; launches = s.launches + 1 })

    unfoldable pub nstream : StdStream T → Run (StdStream T)
    unfolding nstream_as
    nstream s = nstream_as lib variant s

    unfoldable pub dot : StdStream T → Run (T × StdStream T)
    dot s = do
      sum ← transform_reduce (lib.sums s.launches s.array_size) s.arrays
      ok (sum, record s { launches = s.launches + 1 })

    abbrev pub std_stream : Stream T
    std_stream = record {
      State = StdStream T;
      copy = copy;
      mul = mul;
      add = add;
      triad = triad;
      nstream = nstream;
      dot = dot;
      get_arrays = get_arrays;
    }

    abbrev at : List (Row T) → ℕ → StdStream T
    at l k = record { array_size = length l; arrays = arrays_of l; launches = k }

    abbrev pub Holds : StdStream T → List (Row T) → Type ℓ
    Holds s l = (k : ℕ) × (s ≡ record { array_size = length l; arrays = arrays_of l; launches = k })

    kept :
        (f : Row T → Row T) (l : List (Row T)) (k : ℕ)
        → Holds (record (at l k) { arrays = arrays_of (map f l) }) (map f l)
    kept f l k = (
      k,
      ap (λ n. record { array_size = n; arrays = arrays_of (map f l); launches = k })
          (sym (length-map f l)),
    )

    module _ (good : IsAlgorithms lib) (assoc : IsAssociative T) where
      copy_ok :
          (s : StdStream T) (l : List (Row T))
          → Holds s l
          → Returns (copy s) (λ t. Holds t (map copy_row l))
      unfolding copy
      copy_ok s l (k, h) =
          rw (h, for_each-copy (lib.order k (length l)) l (good.order_ok k (length l)))
            (_, refl, kept copy_row l (k + 1))

      mul_ok :
          (s : StdStream T) (l : List (Row T))
          → Holds s l
          → Returns (mul s) (λ t. Holds t (map mul_row l))
      unfolding mul
      mul_ok s l (k, h) =
          rw (h, for_each-mul (lib.order k (length l)) l (good.order_ok k (length l)))
            (_, refl, kept mul_row l (k + 1))

      add_ok :
          (s : StdStream T) (l : List (Row T))
          → Holds s l
          → Returns (add s) (λ t. Holds t (map add_row l))
      unfolding add
      add_ok s l (k, h) =
          rw (h, for_each-add (lib.order k (length l)) l (good.order_ok k (length l)))
            (_, refl, kept add_row l (k + 1))

      triad_ok :
          (s : StdStream T) (l : List (Row T))
          → Holds s l
          → Returns (triad s) (λ t. Holds t (map triad_row l))
      unfolding triad
      triad_ok s l (k, h) =
          rw (h, for_each-triad (lib.order k (length l)) l (good.order_ok k (length l)))
            (_, refl, kept triad_row l (k + 1))

      nstream_as_ok :
          (v : Variant) (l : List (Row T)) (k : ℕ)
          → (m : ℕ) × (nstream_as lib v (at l k)
              ≡ ok (record (at l m) { arrays = arrays_of (map nstream_row l) }))
      unfolding nstream_as
      nstream_as_ok data17 l k =
          rw
            (
              first_pass (lib.order k (length l)) l (good.order_ok k (length l)),
              second_pass assoc (lib.order (k + 1) (length l)) l (good.order_ok (k + 1) (length l)),
            )
            (k + 2, refl)
      nstream_as_ok data23 l k =
          rw (one_pass assoc (lib.order k (length l)) l (good.order_ok k (length l))) (k + 1, refl)
      nstream_as_ok indices l k =
          rw (for_each-nstream (lib.order k (length l)) l (good.order_ok k (length l)))
            (k + 1, refl)

      nstream_ok :
          (s : StdStream T) (l : List (Row T))
          → Holds s l
          → Returns (nstream s) (λ t. Holds t (map nstream_row l))
      unfolding nstream
      nstream_ok s l (k, h) =
          let (m, e) = nstream_as_ok variant l k in rw (h, e) (_, refl, kept nstream_row l m)

      dot_ok :
          (s : StdStream T) (l : List (Row T))
          → Holds s l
          → Returns (dot s) (λ v. IsGeneralizedSum l v.0 × Holds v.1 l)
      unfolding dot
      dot_ok s l (k, h) =
          let (v, e, chunked) = transform_reduce_ok lib good k l in
          rw (h, e) ((v, at l (k + 1)), refl, (chunked, (k + 1, refl)))

      get_arrays_ok :
          (s : StdStream T) (l : List (Row T))
          → Holds s l
          → Returns (get_arrays s) (λ v. (v.0 ≡ arrays_of l) × Holds v.1 l)
      unfolding get_arrays
      get_arrays_ok s l (k, h) = rw h (_, refl, (refl, (k, refl)))

      -- If addition is associative, each variant of the back end on the parallel algorithms meets the
      -- contract of `Stream`, in any order of the items; `dot` is a sum in any order and grouping.
      pub std_implements : Implements std_stream Holds IsGeneralizedSum
      std_implements = record {
        copy_ok = copy_ok;
        mul_ok = mul_ok;
        add_ok = add_ok;
        triad_ok = triad_ok;
        nstream_ok = nstream_ok;
        dot_ok = dot_ok;
        get_arrays_ok = get_arrays_ok;
      }

    -- The constructor fills all arrays, whatever the allocated memory holds.
    pub std_construct_ok :
        IsAlgorithms lib
        → (size_of : ℕ) (alloc : Allocator T) → IsAllocator alloc
        → (n : ℕ) (x y z : T) → IsSize size_of n
        → Returns
            (construct size_of alloc n x y z)
            (λ s. Holds s (replicate n (record { a = x; b = y; c = z })))
    unfolding construct
    std_construct_ok good size_of alloc good_alloc n x y z fits =
        let full : List (Row T) = replicate n (record { a = x; b = y; c = z }) in
        let (l, e, m) = allocate_rows alloc good_alloc n in
        let m' : length (map (a_row x) l) ≡ n = length-map _ l ∙ m in
        let m'' : length (map (b_row y) (map (a_row x) l)) ≡ n = length-map _ _ ∙ m' in
        rw
          (
            room_ok size_of n fits,
            e,
            for_each-fill_a x (lib.order 0 n) l (rw m (good.order_ok 0 n)),
            for_each-fill_b y (lib.order (0 + 1) n) (map (a_row x) l)
                (rw m' (good.order_ok (0 + 1) n)),
            for_each-fill_c z (lib.order (0 + 2) n) (map (b_row y) (map (a_row x) l))
                (rw m'' (good.order_ok (0 + 2) n)),
            fills-replicate x y z n l m,
          )
          (
            _,
            refl,
            (
              0 + 3,
              ap (λ k. record { array_size = k; arrays = arrays_of full; launches = 0 + 3 })
                  (sym (length-replicate n _)),
            ),
          )
