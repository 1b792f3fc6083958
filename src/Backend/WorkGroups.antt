-- ===== src/Backend/WorkGroups.antt =====
-- What src/ocl/OCLStream.cpp and src/sycl/SYCLStream.cpp share: the list of devices, kernels over a
-- range with one work item for each index, and the reduction in work groups.
pub mod Laws
use babel_stream.Prelude.{
  ℕ, zero, suc, ◌+◌, ◌*◌, ◌%◌, ◌^◌, ◌-◌, ◌<◌, ltb, arith, ◌≡◌, refl, Bool, true, false, Option,
  none, some, String, List, length, Run, ok, threw, ◌>>=◌, ◌>>◌, if◌then◌else◌,
}
use babel_stream.Arith.{Arith}
use babel_stream.Loop.{for_each, range}
use babel_stream.Stream.{Arrays}
use babel_stream.Backend.Gpu.{wide_start}
use babel_stream.Backend.Grid.{Device, IsDevice, reduce_kernel}

-- The library: what the device chooses, the message of the exception that call number `call` throws,
-- if it does, and what the local memory of a group holds when a kernel starts.
pub record Queue {ℓ} (T : Type ℓ) : Type ℓ where
  pub dev : Device
  pub failure : (call : ℕ) → Option String
  pub local_mem : (launch group : ℕ) → List T

-- No call fails, and a group has room for `items` items in its local memory.
pub record IsQueue {ℓ} {T : Type ℓ} (q : Queue T) (items : ℕ) : Type ℓ where
  pub device : IsDevice q.dev
  pub quiet : (call : ℕ) → q.failure call ≡ none
  pub room : (k g : ℕ) → length (q.local_mem k g) ≡ items

-- What the constructors ask of a device.
pub record DeviceInfo : Type 0 where
  pub name : String
  pub driver : String
  pub is_cpu : Bool
  pub compute_units : ℕ
  pub vector_width_double : ℕ
  pub max_group_size : ℕ
  pub has_double : Bool
  pub global_mem : ℕ
  pub max_alloc : ℕ

-- The two global variables of each of the files.
pub record Globals : Type 0 where
  pub cached : Bool
  pub devices : List DeviceInfo

-- `dot_num_groups`
unfoldable pub num_groups : DeviceInfo → ℕ
num_groups info = if info.is_cpu then info.compute_units else info.compute_units * 4

-- `dot_wgsize`
unfoldable pub group_size : DeviceInfo → ℕ
group_size info = if info.is_cpu then info.vector_width_double * 2 else info.max_group_size

-- An index is cut to an `int`, and widened to a `size_t` when it is compared with the number of devices.
abbrev pub from_int : ℕ → ℕ
from_int index =
    if ltb (index % 2 ^ 32) (2 ^ 31) then index % 2 ^ 32 else index % 2 ^ 32 + (2 ^ 64 - 2 ^ 32)

pub from_int_small : (index : ℕ) → index < 2 ^ 31 → from_int index ≡ index
from_int_small index small = ground arith

module _ {ℓ} {T : Type ℓ} (q : Queue T) where
  unfoldable pub check : (call : ℕ) → Run (Unit {0})
  check call = elim (q.failure call) [ none ↦ ok tt | some what ↦ threw what ]

  -- The calls `call, call + 1, …`, as many as `num`.
  unfoldable pub check_all : (call num : ℕ) → Run (Unit {0})
  unfolding check
  check_all call zero = ok tt
  check_all call (suc num) = do check call; check_all (call + 1) num

  -- A kernel with a work item for each of `n` indices.
  unfoldable pub range_for :
      (call n : ℕ) → (ℕ → Arrays T → Run (Arrays T)) → Arrays T → Run (Arrays T)
  unfolding check
  range_for call n body s = do check call; for_each (q.dev.interleave call (range n)) body s

module _ {ℓ} {T : Type ℓ} ⦃r : Arith T⦄ (q : Queue T) where
  -- The reduction in `groups` groups of `items` work items.
  unfoldable pub group_sums : (call n groups items : ℕ) → Arrays T → List T → Run (List T)
  unfolding check
  group_sums call n groups items s sums = do
    check q call
    reduce_kernel q.dev call s (wide_start items) (groups * items) n items groups (q.local_mem call)
        sums
