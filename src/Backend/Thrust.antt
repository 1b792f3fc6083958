-- ===== src/Backend/Thrust.antt =====
-- src/thrust/ThrustStream.cu. The algorithms of Thrust are those of the standard library here: an
-- order of the items, and an expression for `inner_product`.
pub mod Contract
use babel_stream.Prelude.{
  ℕ, ◌+◌, Bool, Option, none, some, String, List, [], replicate, Run, ok, threw, ◌>>=◌,
  if◌then◌else◌,
}
use babel_stream.Arith.{Arith, ◌⊗◌}
use babel_stream.Benchmark.{start_scalar}
use babel_stream.Loop.{for_each, read, store}
use babel_stream.Stream.{Arrays, Stream}
use babel_stream.Stream.Kernels.{copy_body, add_body, triad_body}
use babel_stream.Backend.Algorithms.{Algorithms, transform_reduce}
use babel_stream.Backend.Passes.{fill_a, fill_b, fill_c, flat_body}

-- `device` are the vectors `a`, `b`, `c`.
pub record ThrustStream {ℓ} (T : Type ℓ) : Type ℓ where
  pub array_size : ℕ
  pub device : Arrays T
  pub host : Arrays T
  pub launches : ℕ

-- `b[i] = c[i] * scalar`
unfoldable pub flipped_mul_body {ℓ} : {T : Type ℓ} ⦃r : Arith T⦄ → ℕ → Arrays T → Run (Arrays T)
flipped_mul_body i s = do
  z ← read s.c i
  b' ← store s.b i (z ⊗ start_scalar)
  ok (record s { b = b' })

module _ {ℓ} {T : Type ℓ} (lib : Algorithms) where
  -- An algorithm over all items.
  abbrev pub each : (ℕ → Arrays T → Run (Arrays T)) → ThrustStream T → Run (ThrustStream T)
  each body s = do
    t ← for_each (lib.order s.launches s.array_size) body s.device
    ok (record s { device = t; launches = s.launches + 1 })

  unfoldable pub init_arrays : T → T → T → ThrustStream T → Run (ThrustStream T)
  unfolding fill_a fill_b fill_c
  init_arrays x y z s = do t ← each (fill_a x) s; u ← each (fill_b y) t; each (fill_c z) u

  -- With `MANAGED` the pointers are those of the vectors, otherwise the vectors are copied.
  unfoldable pub get_arrays : (managed : Bool) → ThrustStream T → Run (Arrays T × ThrustStream T)
  get_arrays managed s =
      if managed then ok (s.device, s) else (let t = record s { host = s.device } in ok (t.host, t))

module _ {ℓ} {T : Type ℓ} ⦃r : Arith T⦄ (lib : Algorithms) where
  -- The vectors hold `T{}` at first; `refused` is the message of a failed allocation.
  unfoldable pub construct :
      (refused : (items : ℕ) → Option String) (n : ℕ) → T → T → T → Run (ThrustStream T)
  unfolding init_arrays
  construct refused n x y z = elim (refused n) [
    | some what ↦ threw what
    | none ↦ init_arrays lib x y z (record {
      array_size = n;
      device = record {
        a = replicate n r.nought;
        b = replicate n r.nought;
        c = replicate n r.nought;
      };
      host = record { a = []; b = []; c = [] };
      launches = 0;
    })
  ]

  unfoldable pub copy : ThrustStream T → Run (ThrustStream T)
  copy s = each lib copy_body s

  unfoldable pub mul : ThrustStream T → Run (ThrustStream T)
  unfolding flipped_mul_body
  mul s = each lib flipped_mul_body s

  unfoldable pub add : ThrustStream T → Run (ThrustStream T)
  add s = each lib add_body s

  unfoldable pub triad : ThrustStream T → Run (ThrustStream T)
  triad s = each lib triad_body s

  -- `ai + bi + scalar * ci`
  unfoldable pub nstream : ThrustStream T → Run (ThrustStream T)
  unfolding flat_body
  nstream s = each lib flat_body s

  unfoldable pub dot : ThrustStream T → Run (T × ThrustStream T)
  dot s = do
    sum ← transform_reduce (lib.sums s.launches s.array_size) s.device
    ok (sum, record s { launches = s.launches + 1 })

  abbrev pub thrust_stream : (managed : Bool) → Stream T
  thrust_stream managed = record {
    State = ThrustStream T;
    copy = copy;
    mul = mul;
    add = add;
    triad = triad;
    nstream = nstream;
    dot = dot;
    get_arrays = get_arrays lib managed;
  }
