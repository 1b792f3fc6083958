-- ===== src/Backend/Omp/Contract.antt =====
-- src/omp/OMPStream.cpp and the contract of `Stream`.
use babel_stream.Prelude.{
  replicate, length-replicate, ℕ, ◌+◌, ◌≡◌, refl, sym, ap, Bool, true, false, List, map, length,
  length-map, Returns,
}
use babel_stream.Arith.{Arith, IsExact}
use babel_stream.Stream.{
  Arrays, Row, arrays_of, Implements, copy_row, mul_row, add_row, triad_row, nstream_row,
}
use babel_stream.Stream.Laws.{
  for_each-copy, for_each-mul, for_each-add, for_each-triad, for_each-nstream,
}
use babel_stream.Stream.Dot.{dot_rows}
use babel_stream.Backend.Memory.{
  IsSize, room_ok, Allocator, IsAllocator, allocate_rows, for_each-init_replicate,
}
use babel_stream.Backend.Parallel.{
  Runtime, IsRuntime, parallel_sum_ok, IsChunkedSum, IsChunkedSum-dot_rows,
}
use babel_stream.Backend.Omp.{
  OmpStream, memory, with_memory, construct, get_arrays, copy, mul, add, triad, nstream, dot,
  omp_stream, at, Holds,
}

-- A kernel has rewritten the rows by `f`.
kept {ℓ} :
    {T : Type ℓ} (mapped : Bool) (f : Row T → Row T) (l : List (Row T)) (h : Arrays T) (k : ℕ)
    → Holds mapped (with_memory mapped (arrays_of (map f l)) (at mapped l h k)) (map f l)
kept true f l h k = (
  h,
  k + 1,
  ap (λ n. record { array_size = n; host = h; device = arrays_of (map f l); launches = k + 1 })
      (sym (length-map f l)),
)
kept false f l h k = (
  h,
  k + 1,
  ap (λ n. record { array_size = n; host = arrays_of (map f l); device = h; launches = k + 1 })
      (sym (length-map f l)),
)

memory-at {ℓ} :
    {T : Type ℓ} (mapped : Bool) (l : List (Row T)) (h : Arrays T) (k : ℕ)
    → memory mapped (at mapped l h k) ≡ arrays_of l
memory-at true l h k = refl
memory-at false l h k = refl

module _ {ℓ} {T : Type ℓ} ⦃r : Arith T⦄ (rt : Runtime) (mapped : Bool) (good : IsRuntime rt) where
  copy_ok :
      (s : OmpStream T) (l : List (Row T))
      → Holds mapped s l
      → Returns (copy rt mapped s) (λ t. Holds mapped t (map copy_row l))
  unfolding copy
  copy_ok s l (h, k, e) =
      rw
        (
          e,
          memory-at mapped l h k,
          for_each-copy (rt.order k (length l)) l (good.order_ok k (length l)),
        )
        (_, refl, kept mapped copy_row l h k)

  mul_ok :
      (s : OmpStream T) (l : List (Row T))
      → Holds mapped s l
      → Returns (mul rt mapped s) (λ t. Holds mapped t (map mul_row l))
  unfolding mul
  mul_ok s l (h, k, e) =
      rw
        (
          e,
          memory-at mapped l h k,
          for_each-mul (rt.order k (length l)) l (good.order_ok k (length l)),
        )
        (_, refl, kept mapped mul_row l h k)

  add_ok :
      (s : OmpStream T) (l : List (Row T))
      → Holds mapped s l
      → Returns (add rt mapped s) (λ t. Holds mapped t (map add_row l))
  unfolding add
  add_ok s l (h, k, e) =
      rw
        (
          e,
          memory-at mapped l h k,
          for_each-add (rt.order k (length l)) l (good.order_ok k (length l)),
        )
        (_, refl, kept mapped add_row l h k)

  triad_ok :
      (s : OmpStream T) (l : List (Row T))
      → Holds mapped s l
      → Returns (triad rt mapped s) (λ t. Holds mapped t (map triad_row l))
  unfolding triad
  triad_ok s l (h, k, e) =
      rw
        (
          e,
          memory-at mapped l h k,
          for_each-triad (rt.order k (length l)) l (good.order_ok k (length l)),
        )
        (_, refl, kept mapped triad_row l h k)

  nstream_ok :
      (s : OmpStream T) (l : List (Row T))
      → Holds mapped s l
      → Returns (nstream rt mapped s) (λ t. Holds mapped t (map nstream_row l))
  unfolding nstream
  nstream_ok s l (h, k, e) =
      rw
        (
          e,
          memory-at mapped l h k,
          for_each-nstream (rt.order k (length l)) l (good.order_ok k (length l)),
        )
        (_, refl, kept mapped nstream_row l h k)

  dot_ok :
      (s : OmpStream T) (l : List (Row T))
      → Holds mapped s l
      → Returns (dot rt mapped s) (λ v. IsChunkedSum l v.0 × Holds mapped v.1 l)
  unfolding dot
  dot_ok s l (h, k, e) =
      let (v, sum, chunked) = parallel_sum_ok rt good k l in
      rw (e, memory-at mapped l h k, sum)
        ((v, at mapped l h (k + 1)), refl, (chunked, (h, k + 1, refl)))

  get_arrays_ok :
      (s : OmpStream T) (l : List (Row T))
      → Holds mapped s l
      → Returns (get_arrays rt mapped s) (λ v. (v.0 ≡ arrays_of l) × Holds mapped v.1 l)
  unfolding get_arrays
  get_arrays_ok s l (h, k, e) = rw e (from mapped)
    where
      from :
          (m : Bool)
          → Returns (get_arrays rt m (at m l h k)) (λ v. (v.0 ≡ arrays_of l) × Holds m v.1 l)
      from true = (_, refl, (refl, (arrays_of l, k, refl)))
      from false = (_, refl, (refl, (h, k, refl)))

  -- For any run time, on the host and on a device, the OpenMP back end meets the contract of
  -- `Stream`; `dot` is a sum in chunks.
  pub omp_implements : Implements {T = T} (omp_stream rt mapped) (Holds mapped) IsChunkedSum
  omp_implements = record {
    copy_ok = copy_ok;
    mul_ok = mul_ok;
    add_ok = add_ok;
    triad_ok = triad_ok;
    nstream_ok = nstream_ok;
    dot_ok = dot_ok;
    get_arrays_ok = get_arrays_ok;
  }

module _ {ℓ} {T : Type ℓ} ⦃r : Arith T⦄ (exact : IsExact T) (rt : Runtime) (mapped : Bool)
    (good : IsRuntime rt) where
  -- In exact arithmetic `dot` of the OpenMP back end returns the dot product of `a` and `b`, however
  -- the run time chunks the loop, and leaves the rows as they are.
  pub omp_dot-dot_rows :
      (s : OmpStream T) (l : List (Row T))
      → Holds mapped s l
      → Returns (dot rt mapped s) (λ v. (v.0 ≡ dot_rows l) × Holds mapped v.1 l)
  omp_dot-dot_rows s l h =
      let (v, e, (sum, held)) = dot_ok rt mapped good s l h in
      (v, e, (IsChunkedSum-dot_rows exact l v.0 sum, held))

filled {ℓ} :
    {T : Type ℓ} (mapped : Bool) (x y z : T) (n : ℕ) (h : Arrays T)
    → let full : List (Row T) = replicate n (record { a = x; b = y; c = z }) in
      Holds mapped (record (at mapped full h 1) { array_size = n }) full
filled {T = T} mapped x y z n h =
    let full : List (Row T) = replicate n (record { a = x; b = y; c = z }) in
    (h, 1, ap (λ k. record (at mapped full h 1) { array_size = k }) (sym (length-replicate n _)))

-- The constructor fills the arrays that the kernels use, whatever the allocated memory holds.
pub omp_construct_ok {ℓ} :
    {T : Type ℓ} (rt : Runtime) (mapped : Bool)
    → IsRuntime rt
    → (size_of : ℕ) (on_host on_device : Allocator T) → IsAllocator on_host
    → IsAllocator on_device
    → (n : ℕ) (x y z : T) → IsSize size_of n
    → Returns
        (construct rt mapped size_of on_host on_device n x y z)
        (λ s. Holds mapped s (replicate n (record { a = x; b = y; c = z })))
unfolding construct
omp_construct_ok rt true good size_of on_host on_device good_host good_device n x y z fits =
    let (g, d, _) = allocate_rows on_host good_host n in
    let (l, e, m) = allocate_rows on_device good_device n in
    rw
      (
        room_ok size_of n fits,
        d,
        e,
        for_each-init_replicate x y z (rt.order 0 n) l n m (good.order_ok 0 n),
      )
      (_, refl, filled true x y z n (arrays_of g))
omp_construct_ok rt false good size_of on_host on_device good_host good_device n x y z fits =
    let (g, d, m) = allocate_rows on_host good_host n in
    let (l, e, _) = allocate_rows on_device good_device n in
    rw
      (
        room_ok size_of n fits,
        d,
        e,
        for_each-init_replicate x y z (rt.order 0 n) g n m (good.order_ok 0 n),
      )
      (_, refl, filled false x y z n (arrays_of l))
