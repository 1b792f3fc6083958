-- ===== src/Backend/Cuda/Limits.antt =====
-- The CUDA back end: its constructor, and arrays that are too small for its kernels.
use native.Mathlib.Nat.{div-eq_of_lt}
use babel_stream.Prelude.{
  ℕ, ◌+◌, ◌-◌, ◌/◌, ◌%◌, ◌^◌, ◌<◌, ◌≤◌, ◌≡◌, refl, Run, ok, fault, arith, Bool-cases, inl, inr,
  false, ◌==◌,
}
use babel_stream.Arith.{Arith}
use babel_stream.Stream.{Arrays}
use babel_stream.Backend.Gpu.{Gpu, IsGpu, check_error_ok, ceil_div}
use babel_stream.Backend.Cuda.{
  tb_size, tb_size_dot, unroll_factor, Stride, Kernel, CudaStream, threads_per_block, ceil_div_any,
  for_each, init_arrays, copy, mul, add, triad, nstream,
}
use babel_stream.Backend.Cuda.Launch.{IsOccupancy, IsCache}

module _ {ℓ} {T : Type ℓ} (gpu : Gpu T) (good : IsGpu gpu tb_size_dot) (suggested : Kernel → ℕ)
    (occupancy : IsOccupancy suggested) (stride : Stride) where
  no_blocks : (n t : ℕ) → n < 4 → 0 < t → t ≤ tb_size → ceil_div (n / unroll_factor) t ≡ 0
  unfolding ceil_div
  no_blocks n t small pos le =
      let e : (n / unroll_factor + t - 1) % 2 ^ 64 ≡ t - 1 = omega arith in
      rw e (div-eq_of_lt (omega arith))

  -- After it the block size for the kernel is known, and the arrays are as before.
  threads_known :
      (kernel : Kernel) (s : CudaStream T)
      → IsCache s.threads
      → (s' : CudaStream T) × (threads_per_block gpu suggested stride kernel s ≡ ok s')
        × (s'.array_size ≡ s.array_size)
        × (0 < s'.threads kernel)
        × (s'.threads kernel ≤ tb_size)
  unfolding threads_per_block
  threads_known kernel s cache = elim (Bool-cases (s.threads kernel == 0)) [
    | inl e ↦
        rw (e, check_error_ok gpu tb_size_dot s.calls good)
          (_, refl, refl, ground (arith, occupancy kernel), ground arith)
    | inr e ↦ rw e (s, refl, refl, ground arith, cache kernel)
  ]

  for_each_too_small :
      (kernel : Kernel) (body : ℕ → Arrays T → Run (Arrays T)) (s : CudaStream T)
      → s.array_size < 4
      → IsCache s.threads
      → for_each gpu suggested stride kernel body s ≡ fault
  unfolding for_each ceil_div_any
  for_each_too_small kernel body s small cache =
      let (s', asked, size, pos, le) = threads_known kernel s cache in
      let t_pos : (s'.threads kernel == 0) ≡ false = ground arith in
      rw (asked, t_pos, no_blocks s'.array_size (s'.threads kernel) (omega (arith, size)) pos le)
        refl

module _ {ℓ} {T : Type ℓ} ⦃r : Arith T⦄ where
  -- For the default `UNROLL_FACTOR` of 4, arrays of fewer than 4 items, and any device of which no
  -- call fails, `init_arrays`, `copy`, `mul`, `add`, `triad` and `nstream` divide by 0, whatever
  -- the stride.
  pub cuda_too_small :
      (gpu : Gpu T)
      → IsGpu gpu tb_size_dot
      → (suggested : Kernel → ℕ) → IsOccupancy suggested
      → (stride : Stride) (x y z : T) (s : CudaStream T) → s.array_size < 4
      → IsCache s.threads
      → (init_arrays gpu suggested stride x y z s ≡ fault)
        × (copy gpu suggested stride s ≡ fault)
        × (mul gpu suggested stride s ≡ fault)
        × (add gpu suggested stride s ≡ fault)
        × (triad gpu suggested stride s ≡ fault)
        × (nstream gpu suggested stride s ≡ fault)
  unfolding init_arrays copy mul add triad nstream
  cuda_too_small gpu good suggested occupancy stride x y z s small cache =
      let faults = λ (k : Kernel) (body : ℕ → Arrays T → Run (Arrays T)).
        for_each_too_small gpu good suggested occupancy stride k body s small cache in
      (faults _ _, faults _ _, faults _ _, faults _ _, faults _ _, faults _ _)
