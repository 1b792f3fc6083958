-- ===== src/Backend/Raja.antt =====
-- src/raja/RAJAStream.cpp
use babel_stream.Prelude.{
  ℕ, ◌+◌, ◌≡◌, refl, sym, ap, List, map, length, replicate, length-replicate, length-map, Run, ok,
  ◌>>=◌, Returns,
}
use babel_stream.Arith.{Arith}
use babel_stream.Stream.{
  Arrays, Stream, Row, arrays_of, Implements, copy_row, mul_row, add_row, triad_row, nstream_row,
}
use babel_stream.Stream.Kernels.{init_body, copy_body, mul_body, add_body, triad_body, nstream_body}
use babel_stream.Stream.Laws.{
  for_each-copy, for_each-mul, for_each-add, for_each-triad, for_each-nstream,
}
use babel_stream.Backend.Memory.{
  room, IsSize, room_ok, Allocator, IsAllocator, allocate, allocate_rows, for_each-init_replicate,
}
use babel_stream.Backend.Parallel.{
  Runtime, IsRuntime, parallel_for, parallel_sum, parallel_sum_ok, IsChunkedSum,
}

-- `range` is the segment from 0 to `array_size`. The arrays are host memory, or memory that host and
-- device share.
pub record RajaStream {ℓ} (T : Type ℓ) : Type ℓ where
  pub array_size : ℕ
  pub arrays : Arrays T
  pub launches : ℕ

module _ (rt : Runtime) where
  module _ {ℓ} {T : Type ℓ} where
    unfoldable pub init_arrays : T → T → T → RajaStream T → Run (RajaStream T)
    init_arrays x y z s = do
      t ← parallel_for rt s.launches s.array_size (init_body x y z) s.arrays
      ok (record s { arrays = t; launches = s.launches + 1 })

    -- `aligned_alloc` or `cudaMallocManaged`. The benchmark and the device index are not used.
    unfoldable pub construct : (size_of : ℕ) → Allocator T → ℕ → T → T → T → Run (RajaStream T)
    unfolding init_arrays
    construct size_of alloc n x y z = do
      fresh ← allocate alloc (room size_of n)
      init_arrays x y z (record { array_size = n; arrays = fresh; launches = 0 })

    unfoldable pub get_arrays : RajaStream T → Run (Arrays T × RajaStream T)
    get_arrays s = ok (s.arrays, s)

  module _ {ℓ} {T : Type ℓ} ⦃r : Arith T⦄ where
    unfoldable pub copy : RajaStream T → Run (RajaStream T)
    copy s = do
      t ← parallel_for rt s.launches s.array_size copy_body s.arrays
      ok (record s { arrays = t; launches = s.launches + 1 })

    unfoldable pub mul : RajaStream T → Run (RajaStream T)
    mul s = do
      t ← parallel_for rt s.launches s.array_size mul_body s.arrays
      ok (record s { arrays = t; launches = s.launches + 1 })

    unfoldable pub add : RajaStream T → Run (RajaStream T)
    add s = do
      t ← parallel_for rt s.launches s.array_size add_body s.arrays
      ok (record s { arrays = t; launches = s.launches + 1 })

    unfoldable pub triad : RajaStream T → Run (RajaStream T)
    triad s = do
      t ← parallel_for rt s.launches s.array_size triad_body s.arrays
      ok (record s { arrays = t; launches = s.launches + 1 })

    unfoldable pub nstream : RajaStream T → Run (RajaStream T)
    nstream s = do
      t ← parallel_for rt s.launches s.array_size nstream_body s.arrays
      ok (record s { arrays = t; launches = s.launches + 1 })

    unfoldable pub dot : RajaStream T → Run (T × RajaStream T)
    dot s = do
      sum ← parallel_sum rt s.launches s.array_size s.arrays
      ok (sum, record s { launches = s.launches + 1 })

    abbrev pub raja_stream : Stream T
    raja_stream = record {
      State = RajaStream T;
      copy = copy;
      mul = mul;
      add = add;
      triad = triad;
      nstream = nstream;
      dot = dot;
      get_arrays = get_arrays;
    }

    abbrev at : List (Row T) → ℕ → RajaStream T
    at l k = record { array_size = length l; arrays = arrays_of l; launches = k }

    abbrev pub Holds : RajaStream T → List (Row T) → Type ℓ
    Holds s l = (k : ℕ) × (s ≡ record { array_size = length l; arrays = arrays_of l; launches = k })

    kept :
        (f : Row T → Row T) (l : List (Row T)) (k : ℕ)
        → Holds (record (at l (k + 1)) { arrays = arrays_of (map f l) }) (map f l)
    kept f l k = (
      k + 1,
      ap (λ n. record { array_size = n; arrays = arrays_of (map f l); launches = k + 1 })
          (sym (length-map f l)),
    )

    module _ (good : IsRuntime rt) where
      copy_ok :
          (s : RajaStream T) (l : List (Row T))
          → Holds s l
          → Returns (copy s) (λ t. Holds t (map copy_row l))
      unfolding copy
      copy_ok s l (k, h) =
          rw (h, for_each-copy (rt.order k (length l)) l (good.order_ok k (length l)))
            (_, refl, kept copy_row l k)

      mul_ok :
          (s : RajaStream T) (l : List (Row T))
          → Holds s l
          → Returns (mul s) (λ t. Holds t (map mul_row l))
      unfolding mul
      mul_ok s l (k, h) =
          rw (h, for_each-mul (rt.order k (length l)) l (good.order_ok k (length l)))
            (_, refl, kept mul_row l k)

      add_ok :
          (s : RajaStream T) (l : List (Row T))
          → Holds s l
          → Returns (add s) (λ t. Holds t (map add_row l))
      unfolding add
      add_ok s l (k, h) =
          rw (h, for_each-add (rt.order k (length l)) l (good.order_ok k (length l)))
            (_, refl, kept add_row l k)

      triad_ok :
          (s : RajaStream T) (l : List (Row T))
          → Holds s l
          → Returns (triad s) (λ t. Holds t (map triad_row l))
      unfolding triad
      triad_ok s l (k, h) =
          rw (h, for_each-triad (rt.order k (length l)) l (good.order_ok k (length l)))
            (_, refl, kept triad_row l k)

      nstream_ok :
          (s : RajaStream T) (l : List (Row T))
          → Holds s l
          → Returns (nstream s) (λ t. Holds t (map nstream_row l))
      unfolding nstream
      nstream_ok s l (k, h) =
          rw (h, for_each-nstream (rt.order k (length l)) l (good.order_ok k (length l)))
            (_, refl, kept nstream_row l k)

      dot_ok :
          (s : RajaStream T) (l : List (Row T))
          → Holds s l
          → Returns (dot s) (λ v. IsChunkedSum l v.0 × Holds v.1 l)
      unfolding dot
      dot_ok s l (k, h) =
          let (v, e, chunked) = parallel_sum_ok rt good k l in
          rw (h, e) ((v, at l (k + 1)), refl, (chunked, (k + 1, refl)))

      get_arrays_ok :
          (s : RajaStream T) (l : List (Row T))
          → Holds s l
          → Returns (get_arrays s) (λ v. (v.0 ≡ arrays_of l) × Holds v.1 l)
      unfolding get_arrays
      get_arrays_ok s l (k, h) = rw h (_, refl, (refl, (k, refl)))

      -- For any run time the RAJA back end meets the contract of `Stream`; `dot` is a sum in chunks.
      pub raja_implements : Implements raja_stream Holds IsChunkedSum
      raja_implements = record {
        copy_ok = copy_ok;
        mul_ok = mul_ok;
        add_ok = add_ok;
        triad_ok = triad_ok;
        nstream_ok = nstream_ok;
        dot_ok = dot_ok;
        get_arrays_ok = get_arrays_ok;
      }

      -- The constructor fills all arrays.
      pub raja_construct_ok :
          (size_of : ℕ) (alloc : Allocator T)
          → IsAllocator alloc
          → (n : ℕ) (x y z : T) → IsSize size_of n
          → Returns
              (construct size_of alloc n x y z)
              (λ s. Holds s (replicate n (record { a = x; b = y; c = z })))
      unfolding construct
      raja_construct_ok size_of alloc good_alloc n x y z fits =
          let full : List (Row T) = replicate n (record { a = x; b = y; c = z }) in
          let (l, e, m) = allocate_rows alloc good_alloc n in
          rw
            (
              room_ok size_of n fits,
              e,
              for_each-init_replicate x y z (rt.order 0 n) l n m (good.order_ok 0 n),
            )
            (
              _,
              refl,
              (
                0 + 1,
                ap (λ k. record { array_size = k; arrays = arrays_of full; launches = 0 + 1 })
                    (sym (length-replicate n _)),
              ),
            )
