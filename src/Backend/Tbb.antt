-- ===== src/Backend/Tbb.antt =====
-- src/tbb/TBBStream.cpp
use babel_stream.Prelude.{
  ℕ, not, ◌%◌, ◌^◌, ◌==◌, threw, if◌then◌else◌, ◌+◌, ◌≡◌, refl, sym, ap, List, map, length,
  replicate, length-replicate, length-map, Run, ok, ◌>>=◌, Returns,
}
use babel_stream.Arith.{Arith, IsExact}
use babel_stream.Stream.{
  Arrays, Stream, Row, arrays_of, Implements, copy_row, mul_row, add_row, triad_row, nstream_row,
}
use babel_stream.Stream.Kernels.{init_body, copy_body, mul_body, add_body, triad_body, nstream_body}
use babel_stream.Stream.Laws.{
  for_each-copy, for_each-mul, for_each-add, for_each-triad, for_each-nstream,
}
use babel_stream.Stream.Dot.{dot_rows}
use babel_stream.Backend.Memory.{
  room, IsSize, room_ok, Allocator, IsAllocator, allocate, allocate_rows, for_each-init_replicate,
}
use babel_stream.Backend.Blocks.{
  Partitioner, IsPartitioner, for_blocks, indices_of, for_blocks-for_each, reduce_joins,
  reduce_joins_ok, IsTreeSum, IsTreeSum-dot_rows,
}

-- `range` is the blocked range from 0 to `array_size`. The storage is allocated memory; the vectors of
-- `USE_VECTOR` differ from it only in who frees them.
pub record TbbStream {ℓ} (T : Type ℓ) : Type ℓ where
  pub array_size : ℕ
  pub arrays : Arrays T
  pub launches : ℕ

module _ (pt : Partitioner) where
  module _ {ℓ} {T : Type ℓ} where
    unfoldable pub init_arrays : T → T → T → TbbStream T → Run (TbbStream T)
    init_arrays x y z s = do
      t ← for_blocks (pt.blocks s.launches s.array_size) (init_body x y z) s.arrays
      ok (record s { arrays = t; launches = s.launches + 1 })

    -- `device` is the index that `make_stream` passes, of which an `int` keeps 32 bits.
    unfoldable pub construct :
        (size_of : ℕ) → Allocator T → (n device : ℕ) → T → T → T → Run (TbbStream T)
    unfolding init_arrays
    construct size_of alloc n device x y z =
        if not (device % 2 ^ 32 == 0) then threw "Device != 0 is not supported by TBB" else (do
          fresh ← allocate alloc (room size_of n)
          init_arrays x y z (record { array_size = n; arrays = fresh; launches = 0 }))

    unfoldable pub get_arrays : TbbStream T → Run (Arrays T × TbbStream T)
    get_arrays s = ok (s.arrays, s)

  module _ {ℓ} {T : Type ℓ} ⦃r : Arith T⦄ where
    unfoldable pub copy : TbbStream T → Run (TbbStream T)
    copy s = do
      t ← for_blocks (pt.blocks s.launches s.array_size) copy_body s.arrays
      ok (record s { arrays = t; launches = s.launches + 1 })

    unfoldable pub mul : TbbStream T → Run (TbbStream T)
    mul s = do
      t ← for_blocks (pt.blocks s.launches s.array_size) mul_body s.arrays
      ok (record s { arrays = t; launches = s.launches + 1 })

    unfoldable pub add : TbbStream T → Run (TbbStream T)
    add s = do
      t ← for_blocks (pt.blocks s.launches s.array_size) add_body s.arrays
      ok (record s { arrays = t; launches = s.launches + 1 })

    unfoldable pub triad : TbbStream T → Run (TbbStream T)
    triad s = do
      t ← for_blocks (pt.blocks s.launches s.array_size) triad_body s.arrays
      ok (record s { arrays = t; launches = s.launches + 1 })

    unfoldable pub nstream : TbbStream T → Run (TbbStream T)
    nstream s = do
      t ← for_blocks (pt.blocks s.launches s.array_size) nstream_body s.arrays
      ok (record s { arrays = t; launches = s.launches + 1 })

    unfoldable pub dot : TbbStream T → Run (T × TbbStream T)
    dot s = do
      sum ← reduce_joins (pt.joins s.launches s.array_size) s.arrays
      ok (sum, record s { launches = s.launches + 1 })

    abbrev pub tbb_stream : Stream T
    tbb_stream = record {
      State = TbbStream T;
      copy = copy;
      mul = mul;
      add = add;
      triad = triad;
      nstream = nstream;
      dot = dot;
      get_arrays = get_arrays;
    }

    abbrev at : List (Row T) → ℕ → TbbStream T
    at l k = record { array_size = length l; arrays = arrays_of l; launches = k }

    abbrev pub Holds : TbbStream T → List (Row T) → Type ℓ
    Holds s l = (k : ℕ) × (s ≡ record { array_size = length l; arrays = arrays_of l; launches = k })

    kept :
        (f : Row T → Row T) (l : List (Row T)) (k : ℕ)
        → Holds (record (at l (k + 1)) { arrays = arrays_of (map f l) }) (map f l)
    kept f l k = (
      k + 1,
      ap (λ n. record { array_size = n; arrays = arrays_of (map f l); launches = k + 1 })
          (sym (length-map f l)),
    )

    module _ (good : IsPartitioner pt) where
      copy_ok :
          (s : TbbStream T) (l : List (Row T))
          → Holds s l
          → Returns (copy s) (λ t. Holds t (map copy_row l))
      unfolding copy
      copy_ok s l (k, h) =
          rw
            (
              h,
              for_blocks-for_each (pt.blocks k (length l)) copy_body (arrays_of l),
              for_each-copy (indices_of (pt.blocks k (length l))) l (good.blocks_ok k (length l)),
            )
            (_, refl, kept copy_row l k)

      mul_ok :
          (s : TbbStream T) (l : List (Row T))
          → Holds s l
          → Returns (mul s) (λ t. Holds t (map mul_row l))
      unfolding mul
      mul_ok s l (k, h) =
          rw
            (
              h,
              for_blocks-for_each (pt.blocks k (length l)) mul_body (arrays_of l),
              for_each-mul (indices_of (pt.blocks k (length l))) l (good.blocks_ok k (length l)),
            )
            (_, refl, kept mul_row l k)

      add_ok :
          (s : TbbStream T) (l : List (Row T))
          → Holds s l
          → Returns (add s) (λ t. Holds t (map add_row l))
      unfolding add
      add_ok s l (k, h) =
          rw
            (
              h,
              for_blocks-for_each (pt.blocks k (length l)) add_body (arrays_of l),
              for_each-add (indices_of (pt.blocks k (length l))) l (good.blocks_ok k (length l)),
            )
            (_, refl, kept add_row l k)

      triad_ok :
          (s : TbbStream T) (l : List (Row T))
          → Holds s l
          → Returns (triad s) (λ t. Holds t (map triad_row l))
      unfolding triad
      triad_ok s l (k, h) =
          rw
            (
              h,
              for_blocks-for_each (pt.blocks k (length l)) triad_body (arrays_of l),
              for_each-triad (indices_of (pt.blocks k (length l))) l (good.blocks_ok k (length l)),
            )
            (_, refl, kept triad_row l k)

      nstream_ok :
          (s : TbbStream T) (l : List (Row T))
          → Holds s l
          → Returns (nstream s) (λ t. Holds t (map nstream_row l))
      unfolding nstream
      nstream_ok s l (k, h) =
          rw
            (
              h,
              for_blocks-for_each (pt.blocks k (length l)) nstream_body (arrays_of l),
              for_each-nstream (indices_of (pt.blocks k (length l))) l
                  (good.blocks_ok k (length l)),
            )
            (_, refl, kept nstream_row l k)

      dot_ok :
          (s : TbbStream T) (l : List (Row T))
          → Holds s l
          → Returns (dot s) (λ v. IsTreeSum l v.0 × Holds v.1 l)
      unfolding dot
      dot_ok s l (k, h) =
          let (v, e, chunked) = reduce_joins_ok pt good k l in
          rw (h, e) ((v, at l (k + 1)), refl, (chunked, (k + 1, refl)))

      get_arrays_ok :
          (s : TbbStream T) (l : List (Row T))
          → Holds s l
          → Returns (get_arrays s) (λ v. (v.0 ≡ arrays_of l) × Holds v.1 l)
      unfolding get_arrays
      get_arrays_ok s l (k, h) = rw h (_, refl, (refl, (k, refl)))

      -- For every partition into blocks the oneTBB back end meets the contract of `Stream`; `dot` is a
      -- sum along a tree of joins.
      pub tbb_implements : Implements tbb_stream Holds IsTreeSum
      tbb_implements = record {
        copy_ok = copy_ok;
        mul_ok = mul_ok;
        add_ok = add_ok;
        triad_ok = triad_ok;
        nstream_ok = nstream_ok;
        dot_ok = dot_ok;
        get_arrays_ok = get_arrays_ok;
      }

      -- In exact arithmetic `dot` of the oneTBB back end returns the dot product of `a` and `b`, for
      -- every partition and every tree of joins, and leaves the rows as they are.
      pub tbb_dot-dot_rows :
          IsExact T
          → (s : TbbStream T) (l : List (Row T)) → Holds s l
          → Returns (dot s) (λ v. (v.0 ≡ dot_rows l) × Holds v.1 l)
      tbb_dot-dot_rows exact s l h =
          let (v, e, (sum, held)) = dot_ok s l h in
          (v, e, (IsTreeSum-dot_rows exact l v.0 sum, held))

      -- The constructor fills all arrays on device 0.
      pub tbb_construct_ok :
          (size_of : ℕ) (alloc : Allocator T)
          → IsAllocator alloc
          → (n : ℕ) (x y z : T) → IsSize size_of n
          → Returns
              (construct size_of alloc n 0 x y z)
              (λ s. Holds s (replicate n (record { a = x; b = y; c = z })))
      unfolding construct
      tbb_construct_ok size_of alloc good_alloc n x y z fits =
          let full : List (Row T) = replicate n (record { a = x; b = y; c = z }) in
          let (l, e, m) = allocate_rows alloc good_alloc n in
          let blocks = pt.blocks 0 n in
          rw
            (
              room_ok size_of n fits,
              e,
              for_blocks-for_each blocks (init_body x y z) (arrays_of l),
              for_each-init_replicate x y z (indices_of blocks) l n m (good.blocks_ok 0 n),
            )
            (
              _,
              refl,
              (
                0 + 1,
                ap (λ k. record { array_size = k; arrays = arrays_of full; launches = 0 + 1 })
                    (sym (length-replicate n _)),
              ),
            )
