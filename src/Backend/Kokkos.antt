-- ===== src/Backend/Kokkos.antt =====
-- src/kokkos/KokkosStream.cpp
use babel_stream.Prelude.{
  ℕ, ◌+◌, ◌≡◌, refl, sym, ap, List, map, length, replicate, length-replicate, length-map, Run, ok,
  ◌>>=◌, Returns,
}
use babel_stream.Arith.{Arith}
use babel_stream.Stream.{
  Arrays, Stream, Row, arrays_of, Implements, copy_row, mul_row, add_row, triad_row, nstream_row,
}
use babel_stream.Stream.Kernels.{init_body, copy_body, mul_body, add_body, triad_body, nstream_body}
use babel_stream.Stream.Laws.{
  for_each-copy, for_each-mul, for_each-add, for_each-triad, for_each-nstream,
}
use babel_stream.Backend.Memory.{
  Allocator, IsAllocator, allocate, allocate_rows, for_each-init_replicate,
}
use babel_stream.Backend.Parallel.{
  Runtime, IsRuntime, parallel_for, parallel_sum, parallel_sum_ok, IsChunkedSum,
}

-- `device` are the views `d_a`, `d_b`, `d_c`, `host` their mirrors.
pub record KokkosStream {ℓ} (T : Type ℓ) : Type ℓ where
  pub array_size : ℕ
  pub host : Arrays T
  pub device : Arrays T
  pub launches : ℕ

module _ (rt : Runtime) where
  module _ {ℓ} {T : Type ℓ} where
    unfoldable pub init_arrays : T → T → T → KokkosStream T → Run (KokkosStream T)
    init_arrays x y z s = do
      t ← parallel_for rt s.launches s.array_size (init_body x y z) s.device
      ok (record s { device = t; launches = s.launches + 1 })

    -- The views, and a mirror of each. The choice of the device is not modelled.
    unfoldable pub construct :
        (on_host on_device : Allocator T) → ℕ → T → T → T → Run (KokkosStream T)
    unfolding init_arrays
    construct on_host on_device n x y z = do
      h ← allocate on_host n
      fresh ← allocate on_device n
      init_arrays x y z (record { array_size = n; host = h; device = fresh; launches = 0 })

    -- `deep_copy` to the mirrors
    unfoldable pub get_arrays : KokkosStream T → Run (Arrays T × KokkosStream T)
    get_arrays s = let t = record s { host = s.device } in ok (t.host, t)

  module _ {ℓ} {T : Type ℓ} ⦃r : Arith T⦄ where
    unfoldable pub copy : KokkosStream T → Run (KokkosStream T)
    copy s = do
      t ← parallel_for rt s.launches s.array_size copy_body s.device
      ok (record s { device = t; launches = s.launches + 1 })

    unfoldable pub mul : KokkosStream T → Run (KokkosStream T)
    mul s = do
      t ← parallel_for rt s.launches s.array_size mul_body s.device
      ok (record s { device = t; launches = s.launches + 1 })

    unfoldable pub add : KokkosStream T → Run (KokkosStream T)
    add s = do
      t ← parallel_for rt s.launches s.array_size add_body s.device
      ok (record s { device = t; launches = s.launches + 1 })

    unfoldable pub triad : KokkosStream T → Run (KokkosStream T)
    triad s = do
      t ← parallel_for rt s.launches s.array_size triad_body s.device
      ok (record s { device = t; launches = s.launches + 1 })

    unfoldable pub nstream : KokkosStream T → Run (KokkosStream T)
    nstream s = do
      t ← parallel_for rt s.launches s.array_size nstream_body s.device
      ok (record s { device = t; launches = s.launches + 1 })

    unfoldable pub dot : KokkosStream T → Run (T × KokkosStream T)
    dot s = do
      sum ← parallel_sum rt s.launches s.array_size s.device
      ok (sum, record s { launches = s.launches + 1 })

    abbrev pub kokkos_stream : Stream T
    kokkos_stream = record {
      State = KokkosStream T;
      copy = copy;
      mul = mul;
      add = add;
      triad = triad;
      nstream = nstream;
      dot = dot;
      get_arrays = get_arrays;
    }

    abbrev at : List (Row T) → Arrays T → ℕ → KokkosStream T
    at l h k = record { array_size = length l; host = h; device = arrays_of l; launches = k }

    -- The rows stand on the device; the host's copy may hold anything.
    abbrev pub Holds : KokkosStream T → List (Row T) → Type ℓ
    Holds s l =
        (h : Arrays T) × (k : ℕ) × (s
          ≡ record { array_size = length l; host = h; device = arrays_of l; launches = k })

    kept :
        (f : Row T → Row T) (l : List (Row T)) (h : Arrays T) (k : ℕ)
        → Holds (record (at l h (k + 1)) { device = arrays_of (map f l) }) (map f l)
    kept f l h k = (
      h,
      k + 1,
      ap (λ n. record { array_size = n; host = h; device = arrays_of (map f l); launches = k + 1 })
          (sym (length-map f l)),
    )

    module _ (good : IsRuntime rt) where
      copy_ok :
          (s : KokkosStream T) (l : List (Row T))
          → Holds s l
          → Returns (copy s) (λ t. Holds t (map copy_row l))
      unfolding copy
      copy_ok s l (h, k, e) =
          rw (e, for_each-copy (rt.order k (length l)) l (good.order_ok k (length l)))
            (_, refl, kept copy_row l h k)

      mul_ok :
          (s : KokkosStream T) (l : List (Row T))
          → Holds s l
          → Returns (mul s) (λ t. Holds t (map mul_row l))
      unfolding mul
      mul_ok s l (h, k, e) =
          rw (e, for_each-mul (rt.order k (length l)) l (good.order_ok k (length l)))
            (_, refl, kept mul_row l h k)

      add_ok :
          (s : KokkosStream T) (l : List (Row T))
          → Holds s l
          → Returns (add s) (λ t. Holds t (map add_row l))
      unfolding add
      add_ok s l (h, k, e) =
          rw (e, for_each-add (rt.order k (length l)) l (good.order_ok k (length l)))
            (_, refl, kept add_row l h k)

      triad_ok :
          (s : KokkosStream T) (l : List (Row T))
          → Holds s l
          → Returns (triad s) (λ t. Holds t (map triad_row l))
      unfolding triad
      triad_ok s l (h, k, e) =
          rw (e, for_each-triad (rt.order k (length l)) l (good.order_ok k (length l)))
            (_, refl, kept triad_row l h k)

      nstream_ok :
          (s : KokkosStream T) (l : List (Row T))
          → Holds s l
          → Returns (nstream s) (λ t. Holds t (map nstream_row l))
      unfolding nstream
      nstream_ok s l (h, k, e) =
          rw (e, for_each-nstream (rt.order k (length l)) l (good.order_ok k (length l)))
            (_, refl, kept nstream_row l h k)

      dot_ok :
          (s : KokkosStream T) (l : List (Row T))
          → Holds s l
          → Returns (dot s) (λ v. IsChunkedSum l v.0 × Holds v.1 l)
      unfolding dot
      dot_ok s l (h, k, e) =
          let (v, sum, chunked) = parallel_sum_ok rt good k l in
          rw (e, sum) ((v, at l h (k + 1)), refl, (chunked, (h, k + 1, refl)))

      -- The host sees what the device holds.
      get_arrays_ok :
          (s : KokkosStream T) (l : List (Row T))
          → Holds s l
          → Returns (get_arrays s) (λ v. (v.0 ≡ arrays_of l) × Holds v.1 l)
      unfolding get_arrays
      get_arrays_ok s l (h, k, e) = rw e (_, refl, (refl, (arrays_of l, k, refl)))

      -- For any run time the Kokkos back end meets the contract of `Stream`; `dot` is a sum in chunks.
      pub kokkos_implements : Implements kokkos_stream Holds IsChunkedSum
      kokkos_implements = record {
        copy_ok = copy_ok;
        mul_ok = mul_ok;
        add_ok = add_ok;
        triad_ok = triad_ok;
        nstream_ok = nstream_ok;
        dot_ok = dot_ok;
        get_arrays_ok = get_arrays_ok;
      }

      -- The constructor fills the arrays of the device.
      pub kokkos_construct_ok :
          (on_host on_device : Allocator T)
          → IsAllocator on_host
          → IsAllocator on_device
          → (n : ℕ) (x y z : T)
          → Returns
              (construct on_host on_device n x y z)
              (λ s. Holds s (replicate n (record { a = x; b = y; c = z })))
      unfolding construct
      kokkos_construct_ok on_host on_device good_host good_device n x y z =
          let full : List (Row T) = replicate n (record { a = x; b = y; c = z }) in
          let (g, d, _) = allocate_rows on_host good_host n in
          let (l, e, m) = allocate_rows on_device good_device n in
          rw (d, e, for_each-init_replicate x y z (rt.order 0 n) l n m (good.order_ok 0 n))
            (
              _,
              refl,
              (
                arrays_of g,
                0 + 1,
                ap
                    (λ k. record {
                      array_size = k;
                      host = arrays_of g;
                      device = arrays_of full;
                      launches = 0 + 1;
                    })
                    (sym (length-replicate n _)),
              ),
            )
