-- ===== src/Backend/Gpu.antt =====
-- What the back ends under src/hip and src/cuda share: the run time library of the device as a
-- parameter, its status codes, and the rounding up of a quotient.
use babel_stream.Prelude.{
  ℕ, ◌+◌, ◌-◌, ◌*◌, ◌/◌, ◌%◌, ◌^◌, ◌≡◌, List, length, Run, ok, exited, refl, ◌==◌, if◌then◌else◌,
}
use babel_stream.Backend.Grid.{Device, IsDevice}

-- The run time: what the device chooses, the status of each call, numbered, with 0 for success, and
-- what the shared memory of a block holds when a kernel starts.
pub record Gpu {ℓ} (T : Type ℓ) : Type ℓ where
  pub dev : Device
  pub error : (call : ℕ) → ℕ
  pub shared : (launch block : ℕ) → List T

-- A device of which no call fails, with room for `lanes` items in the shared memory of a block.
pub record IsGpu {ℓ} {T : Type ℓ} (gpu : Gpu T) (lanes : ℕ) : Type ℓ where
  pub device : IsDevice gpu.dev
  pub quiet : (call : ℕ) → gpu.error call ≡ 0
  pub room : (k b : ℕ) → length (gpu.shared k b) ≡ lanes

-- How the memory of the device is allocated: the macros `MANAGED` and `PAGEFAULT`.
pub data Memory : Type 0 where
  separate : Memory
  managed : Memory
  pagefault : Memory

-- `threadIdx.x + blockDim.x * blockIdx.x` in `size_t`
abbrev pub wide_start : (threads b t : ℕ) → ℕ
wide_start threads b t = t + threads * b

-- `(a + b - 1) / b` in `size_t`, for a `b` above 0
unfoldable pub ceil_div : (a b : ℕ) → ℕ
ceil_div a b = (a + b - 1) % 2 ^ 64 / b

module _ {ℓ} {T : Type ℓ} where
  -- A status other than success is printed, and the program exits with it.
  unfoldable pub check_error : Gpu T → (call : ℕ) → Run (Unit {0})
  check_error gpu call = if gpu.error call == 0 then ok tt else exited (gpu.error call)

  pub check_error_ok :
      (gpu : Gpu T) (lanes call : ℕ) → IsGpu gpu lanes → check_error gpu call ≡ ok tt
  unfolding check_error
  check_error_ok gpu lanes call good = rw (good.quiet call) refl
