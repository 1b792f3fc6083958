-- ===== src/Backend/Thrust/Contract.antt =====
-- The Thrust back end meets the contract of `Stream`, if addition is associative and multiplication
-- commutative.
use babel_stream.Prelude.{
  ℕ, zero, suc, ◌+◌, ◌≡◌, refl, sym, ap, ap₂, ◌∙◌, fun_ext, Bool, true, false, none, String, Option,
  List, [], ◌∷◌, map, length, length-map, replicate, length-replicate, Run, ok, ◌>>=◌, bind_congr,
  Returns,
}
use babel_stream.Arith.{Arith, ◌⊗◌}
use babel_stream.Benchmark.{start_scalar}
use babel_stream.Loop.{for_each, read, store}
use babel_stream.Loop.Schedule.{IsSchedule}
use babel_stream.Stream.{
  Arrays, Row, arrays_of, Implements, copy_row, mul_row, add_row, triad_row, nstream_row,
}
use babel_stream.Stream.Kernels.{copy_body, mul_body, add_body, triad_body}
use babel_stream.Stream.Laws.{for_each-copy, for_each-mul, for_each-add, for_each-triad}
use babel_stream.Backend.Algorithms.{
  Algorithms, IsAlgorithms, transform_reduce_ok, IsGeneralizedSum,
}
use babel_stream.Backend.Passes.{
  fill_a, fill_b, fill_c, flat_body, IsAssociative, one_pass, for_each-fill_a, for_each-fill_b,
  for_each-fill_c, fills-replicate, a_row, b_row, c_row,
}
use babel_stream.Backend.Thrust.{
  ThrustStream, flipped_mul_body, each, init_arrays, get_arrays, construct, copy, mul, add, triad,
  nstream, dot, thrust_stream,
}

-- Multiplication of floating-point numbers is commutative.
abbrev pub IsCommutative {ℓ} : (T : Type ℓ) ⦃r : Arith T⦄ → Type ℓ
IsCommutative T = (x y : T) → x ⊗ y ≡ y ⊗ x

module _ {ℓ} {T : Type ℓ} where
  abbrev at : List (Row T) → Arrays T → ℕ → ThrustStream T
  at l h k = record { array_size = length l; device = arrays_of l; host = h; launches = k }

  -- The rows stand in the vectors; the host's copy may hold anything.
  abbrev pub Holds : ThrustStream T → List (Row T) → Type ℓ
  Holds s l =
      (h : Arrays T) × (k : ℕ) × (s
        ≡ record { array_size = length l; device = arrays_of l; host = h; launches = k })

  each-loop :
      (lib : Algorithms)
      → IsAlgorithms lib
      → (body : ℕ → Arrays T → Run (Arrays T)) (f : Row T → Row T)
      → ((is : List ℕ) (l : List (Row T))
          → IsSchedule (length l) is
          → for_each is body (arrays_of l) ≡ ok (arrays_of (map f l)))
      → (s : ThrustStream T) (l : List (Row T)) → Holds s l
      → Returns (each lib body s) (λ t. Holds t (map f l))
  each-loop lib good body f loop s l (h, k, e) =
      rw (e, loop (lib.order k (length l)) l (good.order_ok k (length l)))
        (
          _,
          refl,
          (
            h,
            k + 1,
            ap
                (λ n. record {
                  array_size = n;
                  device = arrays_of (map f l);
                  host = h;
                  launches = k + 1;
                })
                (sym (length-map f l)),
          ),
        )

  get_arrays_ok :
      (lib : Algorithms) (managed : Bool) (s : ThrustStream T) (l : List (Row T))
      → Holds s l
      → Returns (get_arrays lib managed s) (λ v. (v.0 ≡ arrays_of l) × Holds v.1 l)
  unfolding get_arrays
  get_arrays_ok lib true s l (h, k, e) = rw e (_, refl, (refl, (h, k, refl)))
  get_arrays_ok lib false s l (h, k, e) = rw e (_, refl, (refl, (arrays_of l, k, refl)))

  -- Equal rows, as arrays.
  arrays_of-replicate :
      (n : ℕ) (x : T)
      → arrays_of (replicate n (record { a = x; b = x; c = x }))
        ≡ record { a = replicate n x; b = replicate n x; c = replicate n x }
  arrays_of-replicate zero x = refl
  arrays_of-replicate (suc n) x =
      ap (λ (t : Arrays T). record { a = x ∷ t.a; b = x ∷ t.b; c = x ∷ t.c })
        (arrays_of-replicate n x)

  init_arrays_ok :
      (lib : Algorithms)
      → IsAlgorithms lib
      → (x y z : T) (s : ThrustStream T) (l : List (Row T)) → Holds s l
      → Returns
          (init_arrays lib x y z s)
          (λ t. Holds t (map (c_row z) (map (b_row y) (map (a_row x) l))))
  unfolding init_arrays
  init_arrays_ok lib good x y z s l h =
      let (t, e, h') = each-loop lib good (fill_a x) (a_row x) (for_each-fill_a x) s l h in
      let (u, e', h'') = each-loop lib good (fill_b y) (b_row y) (for_each-fill_b y) t _ h' in
      let last = each-loop lib good (fill_c z) (c_row z) (for_each-fill_c z) u _ h'' in
      rw (e, e') last

module _ {ℓ} {T : Type ℓ} ⦃r : Arith T⦄ (lib : Algorithms) (good : IsAlgorithms lib) where
  flipped_mul_body-mul_body : IsCommutative T → flipped_mul_body {T = T} ≡ mul_body
  unfolding flipped_mul_body mul_body
  flipped_mul_body-mul_body commutes = fun_ext λ i. fun_ext λ s.
      bind_congr (read s.c i) _ _
        λ z. ap (λ v. store s.b i v >>= λ b'. ok (record s { b = b' })) (commutes z start_scalar)

  for_each-flipped_mul :
      IsCommutative T
      → (is : List ℕ) (l : List (Row T)) → IsSchedule (length l) is
      → for_each is flipped_mul_body (arrays_of l) ≡ ok (arrays_of (map mul_row l))
  for_each-flipped_mul commutes is l sched =
      ap (λ body. for_each is body (arrays_of l)) (flipped_mul_body-mul_body commutes)
      ∙ for_each-mul is l sched

  dot_ok :
      (s : ThrustStream T) (l : List (Row T))
      → Holds s l
      → Returns (dot lib s) (λ v. IsGeneralizedSum l v.0 × Holds v.1 l)
  unfolding dot
  dot_ok s l (h, k, e) =
      let (v, sum, general) = transform_reduce_ok lib good k l in
      rw (e, sum) ((v, at l h (k + 1)), refl, (general, (h, k + 1, refl)))

  -- If addition is associative and multiplication commutative, the Thrust back end meets the contract
  -- of `Stream`, with and without unified memory; `dot` is a sum in any order and grouping.
  pub thrust_implements :
      IsAssociative T
      → IsCommutative T
      → (managed : Bool) → Implements {T = T} (thrust_stream lib managed) Holds IsGeneralizedSum
  unfolding copy mul add triad nstream
  thrust_implements assoc commutes managed = record {
    copy_ok = each-loop lib good copy_body copy_row for_each-copy;
    mul_ok = each-loop lib good flipped_mul_body mul_row (for_each-flipped_mul commutes);
    add_ok = each-loop lib good add_body add_row for_each-add;
    triad_ok = each-loop lib good triad_body triad_row for_each-triad;
    nstream_ok = each-loop lib good flat_body nstream_row (one_pass assoc);
    dot_ok = dot_ok;
    get_arrays_ok = get_arrays_ok lib managed;
  }

  -- The constructor fills every item of the vectors with the initial values, if they can be allocated.
  pub thrust_construct_ok :
      (refused : ℕ → Option String) (n : ℕ) (x y z : T)
      → refused n ≡ none
      → Returns
          (construct lib refused n x y z)
          (λ s. Holds s (replicate n (record { a = x; b = y; c = z })))
  unfolding construct
  thrust_construct_ok refused n x y z room =
      let fresh : List (Row T) =
        replicate n (record { a = r.nought; b = r.nought; c = r.nought }) in
      let size : length fresh ≡ n = length-replicate n _ in
      let begun = init_arrays_ok lib good x y z _ fresh (
        record { a = []; b = []; c = [] },
        0,
        ap₂
            (λ k d. record {
              array_size = k;
              device = d;
              host = record { a = []; b = []; c = [] };
              launches = 0;
            })
            (sym size) (sym (arrays_of-replicate n r.nought)),
      ) in
      rw (room, construct, sym (fills-replicate x y z n fresh size)) begun
