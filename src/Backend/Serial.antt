-- ===== src/Backend/Serial.antt =====
-- src/serial/SerialStream.cpp
use babel_stream.Prelude.{
  ℕ, ◌≡◌, refl, sym, ap, ◌∙◌, List, map, length, replicate, length-replicate, length-map, Run, ok,
  ◌>>=◌, Returns,
}
use babel_stream.Arith.{Arith, IsExact}
use babel_stream.Loop.{for_each, range}
use babel_stream.Loop.Schedule.{range-IsSchedule}
use babel_stream.Loop.Sums.{add_up, add_up_schedule}
use babel_stream.Stream.{
  Arrays, Stream, Row, arrays_of, Implements, copy_row, mul_row, add_row, triad_row, nstream_row,
}
use babel_stream.Stream.Kernels.{
  init_body, copy_body, mul_body, add_body, triad_body, nstream_body, dot_body,
}
use babel_stream.Stream.Laws.{
  for_each-copy, for_each-mul, for_each-add, for_each-triad, for_each-nstream,
}
use babel_stream.Stream.Dot.{product_at, for_each-dot, dot_rows}
use babel_stream.Backend.Memory.{
  room, IsSize, room_ok, Allocator, IsAllocator, allocate, allocate_rows, for_each-init_replicate,
}

pub record SerialStream {ℓ} (T : Type ℓ) : Type ℓ where
  pub array_size : ℕ
  pub arrays : Arrays T

module _ {ℓ} {T : Type ℓ} where
  unfoldable pub init_arrays : T → T → T → SerialStream T → Run (SerialStream T)
  init_arrays x y z s = do
    t ← for_each (range s.array_size) (init_body x y z) s.arrays
    ok (record s { arrays = t })

  -- The benchmark and the device index are not used.
  unfoldable pub construct : (size_of : ℕ) → Allocator T → ℕ → T → T → T → Run (SerialStream T)
  unfolding init_arrays
  construct size_of alloc n x y z = do
    fresh ← allocate alloc (room size_of n)
    init_arrays x y z (record { array_size = n; arrays = fresh })

  unfoldable pub get_arrays : SerialStream T → Run (Arrays T × SerialStream T)
  get_arrays s = ok (s.arrays, s)

module _ {ℓ} {T : Type ℓ} ⦃r : Arith T⦄ where
  unfoldable pub copy : SerialStream T → Run (SerialStream T)
  copy s = do t ← for_each (range s.array_size) copy_body s.arrays; ok (record s { arrays = t })

  unfoldable pub mul : SerialStream T → Run (SerialStream T)
  mul s = do t ← for_each (range s.array_size) mul_body s.arrays; ok (record s { arrays = t })

  unfoldable pub add : SerialStream T → Run (SerialStream T)
  add s = do t ← for_each (range s.array_size) add_body s.arrays; ok (record s { arrays = t })

  unfoldable pub triad : SerialStream T → Run (SerialStream T)
  triad s = do t ← for_each (range s.array_size) triad_body s.arrays; ok (record s { arrays = t })

  unfoldable pub nstream : SerialStream T → Run (SerialStream T)
  nstream s = do
    t ← for_each (range s.array_size) nstream_body s.arrays
    ok (record s { arrays = t })

  unfoldable pub dot : SerialStream T → Run (T × SerialStream T)
  dot s = do sum ← for_each (range s.array_size) (dot_body s.arrays) r.nought; ok (sum, s)

  abbrev pub serial_stream : Stream T
  serial_stream = record {
    State = SerialStream T;
    copy = copy;
    mul = mul;
    add = add;
    triad = triad;
    nstream = nstream;
    dot = dot;
    get_arrays = get_arrays;
  }

  abbrev pub Holds : SerialStream T → List (Row T) → Type ℓ
  Holds s l = s ≡ record { array_size = length l; arrays = arrays_of l }

  abbrev at : List (Row T) → SerialStream T
  at l = record { array_size = length l; arrays = arrays_of l }

  kept :
      (f : Row T → Row T) (l : List (Row T))
      → Holds (record (at l) { arrays = arrays_of (map f l) }) (map f l)
  kept f l =
      ap (λ n. record { array_size = n; arrays = arrays_of (map f l) }) (sym (length-map f l))

  copy_ok :
      (s : SerialStream T) (l : List (Row T))
      → Holds s l
      → Returns (copy s) (λ t. Holds t (map copy_row l))
  unfolding copy
  copy_ok s l h =
      rw (h, for_each-copy (range (length l)) l (range-IsSchedule (length l)))
        (_, refl, kept copy_row l)

  mul_ok :
      (s : SerialStream T) (l : List (Row T))
      → Holds s l
      → Returns (mul s) (λ t. Holds t (map mul_row l))
  unfolding mul
  mul_ok s l h =
      rw (h, for_each-mul (range (length l)) l (range-IsSchedule (length l)))
        (_, refl, kept mul_row l)

  add_ok :
      (s : SerialStream T) (l : List (Row T))
      → Holds s l
      → Returns (add s) (λ t. Holds t (map add_row l))
  unfolding add
  add_ok s l h =
      rw (h, for_each-add (range (length l)) l (range-IsSchedule (length l)))
        (_, refl, kept add_row l)

  triad_ok :
      (s : SerialStream T) (l : List (Row T))
      → Holds s l
      → Returns (triad s) (λ t. Holds t (map triad_row l))
  unfolding triad
  triad_ok s l h =
      rw (h, for_each-triad (range (length l)) l (range-IsSchedule (length l)))
        (_, refl, kept triad_row l)

  nstream_ok :
      (s : SerialStream T) (l : List (Row T))
      → Holds s l
      → Returns (nstream s) (λ t. Holds t (map nstream_row l))
  unfolding nstream
  nstream_ok s l h =
      rw (h, for_each-nstream (range (length l)) l (range-IsSchedule (length l)))
        (_, refl, kept nstream_row l)

  -- The loop of `dot` adds the products from the left.
  abbrev pub IsLeftSum : List (Row T) → T → Type ℓ
  IsLeftSum l v = v ≡ add_up (range (length l)) (product_at l) r.nought

  dot_ok :
      (s : SerialStream T) (l : List (Row T))
      → Holds s l
      → Returns (dot s) (λ v. IsLeftSum l v.0 × Holds v.1 l)
  unfolding dot
  dot_ok s l h =
      rw (h, for_each-dot l (range (length l)) r.nought (range-IsSchedule (length l)).in_range)
        (_, refl, (refl, refl))

  get_arrays_ok :
      (s : SerialStream T) (l : List (Row T))
      → Holds s l
      → Returns (get_arrays s) (λ v. (v.0 ≡ arrays_of l) × Holds v.1 l)
  unfolding get_arrays
  get_arrays_ok s l h = rw h (_, refl, (refl, refl))

  -- The serial back end meets the contract of `Stream`: no kernel leaves the arrays, each rewrites
  -- every row by its row function, and `dot` is the sum from the left. No law of arithmetic is used.
  pub serial_implements : Implements serial_stream Holds IsLeftSum
  serial_implements = record {
    copy_ok = copy_ok;
    mul_ok = mul_ok;
    add_ok = add_ok;
    triad_ok = triad_ok;
    nstream_ok = nstream_ok;
    dot_ok = dot_ok;
    get_arrays_ok = get_arrays_ok;
  }

  -- In exact arithmetic that sum is the dot product.
  pub IsLeftSum-dot_rows : IsExact T → (l : List (Row T)) (v : T) → IsLeftSum l v → v ≡ dot_rows l
  unfolding dot_rows
  IsLeftSum-dot_rows exact l v e =
      e
      ∙ (add_up_schedule exact (length l) (product_at l) (range (length l)) r.nought
            (range-IsSchedule (length l))
          ∙ exact.nought_add _)

  -- If the bytes of an array do not wrap and every allocation succeeds, the constructor fills all
  -- arrays, whatever the allocated memory holds.
  pub construct_ok :
      (size_of : ℕ) (alloc : Allocator T)
      → IsAllocator alloc
      → (n : ℕ) (x y z : T) → IsSize size_of n
      → Returns
          (construct size_of alloc n x y z)
          (λ s. Holds s (replicate n (record { a = x; b = y; c = z })))
  unfolding construct
  construct_ok size_of alloc good n x y z fits =
      let (l, e, m) = allocate_rows alloc good n in
      rw
        (
          room_ok size_of n fits,
          e,
          for_each-init_replicate x y z (range n) l n m (range-IsSchedule n),
        )
        (
          _,
          refl,
          ap
              (λ k. record {
                array_size = k;
                arrays = arrays_of (replicate n (record { a = x; b = y; c = z }));
              })
              (sym (length-replicate n _)),
        )
