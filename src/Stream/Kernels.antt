-- ===== src/Stream/Kernels.antt =====
-- The bodies of the kernels' loops, as src/serial/SerialStream.cpp writes them; the other back ends
-- run the same bodies, each under its own loop.
use babel_stream.Prelude.{ℕ, Run, ok, ◌>>=◌}
use babel_stream.Arith.{Arith, ◌⊕◌, ◌⊗◌}
use babel_stream.Benchmark.{start_scalar}
use babel_stream.Loop.{read, store}
use babel_stream.Stream.{Arrays}

-- `a[i] = initA; b[i] = initB; c[i] = initC;`
unfoldable pub init_body {ℓ} : {T : Type ℓ} → T → T → T → ℕ → Arrays T → Run (Arrays T)
init_body x y z i s = do
  a' ← store s.a i x
  b' ← store s.b i y
  c' ← store s.c i z
  ok (record { a = a'; b = b'; c = c' })

module _ {ℓ} {T : Type ℓ} ⦃r : Arith T⦄ where
  -- `c[i] = a[i];`
  unfoldable pub copy_body : ℕ → Arrays T → Run (Arrays T)
  copy_body i s = do x ← read s.a i; c' ← store s.c i x; ok (record s { c = c' })

  -- `b[i] = scalar * c[i];`
  unfoldable pub mul_body : ℕ → Arrays T → Run (Arrays T)
  mul_body i s = do z ← read s.c i; b' ← store s.b i (start_scalar ⊗ z); ok (record s { b = b' })

  -- `c[i] = a[i] + b[i];`
  unfoldable pub add_body : ℕ → Arrays T → Run (Arrays T)
  add_body i s = do
    x ← read s.a i
    y ← read s.b i
    c' ← store s.c i (x ⊕ y)
    ok (record s { c = c' })

  -- `a[i] = b[i] + scalar * c[i];`
  unfoldable pub triad_body : ℕ → Arrays T → Run (Arrays T)
  triad_body i s = do
    y ← read s.b i
    z ← read s.c i
    a' ← store s.a i (y ⊕ start_scalar ⊗ z)
    ok (record s { a = a' })

  -- `a[i] += b[i] + scalar * c[i];`
  unfoldable pub nstream_body : ℕ → Arrays T → Run (Arrays T)
  nstream_body i s = do
    y ← read s.b i
    z ← read s.c i
    x ← read s.a i
    a' ← store s.a i (x ⊕ (y ⊕ start_scalar ⊗ z))
    ok (record s { a = a' })

  -- `sum += a[i] * b[i];`
  unfoldable pub dot_body : Arrays T → ℕ → T → Run T
  dot_body s i sum = do x ← read s.a i; y ← read s.b i; ok (sum ⊕ x ⊗ y)
