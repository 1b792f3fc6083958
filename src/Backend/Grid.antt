-- ===== src/Backend/Grid.antt =====
-- Kernels on a grid of blocks of threads, as src/hip, src/cuda, src/ocl and src/sycl launch them: the
-- strided loop of a lane, and the reduction with shared memory and barriers.
pub mod Strides
pub mod Cover
pub mod Halving
pub mod Reduction
pub mod Exact
pub mod Launch
use babel_stream.Prelude.{
  ℕ, zero, suc, ◌+◌, ◌/◌, ◌%◌, ◌^◌, ◌≡◌, Bool, List, [], ◌∷◌, ◌++◌, Option, none, some, replicate,
  ltb, Run, ok, hung, ◌>>=◌, if◌then◌else◌,
}
use babel_stream.Arith.{Arith, ◌⊕◌}
use babel_stream.Loop.{for_each, read, store, range}
use babel_stream.Loop.Schedule.{IsSchedule, count}
use babel_stream.Stream.{Arrays}
use babel_stream.Stream.Kernels.{dot_body}

-- What the device chooses at launch number `launch`: how the iterations of all lanes interleave, in
-- which order the blocks of a reduction run, and in which order the lanes of block `block` run
-- between two barriers. Lanes between barriers touch different slots of the shared memory.
pub record Device : Type 0 where
  pub interleave : (launch : ℕ) → List ℕ → List ℕ
  pub blocks : (launch n : ℕ) → List ℕ
  pub lanes : (launch block pass n : ℕ) → List ℕ

-- No iteration is lost or done twice.
pub record IsDevice (dev : Device) : Type 0 where
  pub interleave_ok : (k : ℕ) (is : List ℕ) (j : ℕ) → count j (dev.interleave k is) ≡ count j is
  pub blocks_ok : (k n : ℕ) → IsSchedule n (dev.blocks k n)
  pub lanes_ok : (k b p n : ℕ) → IsSchedule n (dev.lanes k b p n)

abbrev pub prepend : ℕ → Option (List ℕ) → Option (List ℕ)
prepend i none = none
prepend i (some is) = some (i ∷ is)

-- `for (; i < n; i += stride)` in `size_t`: the values of `i`; `none` if the fuel runs out.
unfoldable pub lane_loop : (fuel i stride n : ℕ) → Option (List ℕ)
lane_loop zero i stride n = none
lane_loop (suc fuel) i stride n =
    let rest = lane_loop fuel ((i + stride) % 2 ^ 64) stride n in
    if ltb i n then prepend i rest else some []

-- After more than `n` rounds some `i` has come back, and the loop never ends.
unfoldable pub lane_visits : (i stride n : ℕ) → Run (List ℕ)
unfolding lane_loop
lane_visits i stride n = elim (lane_loop (suc n) i stride n) [ none ↦ hung | some is ↦ ok is ]

-- The iterations of the lanes `first, first + 1, …` of a block, as many as `lanes`; lane `t` starts
-- at index `start t`.
unfoldable pub block_visits : (start : ℕ → ℕ) (stride n first lanes : ℕ) → Run (List ℕ)
block_visits start stride n first zero = ok []
block_visits start stride n first (suc lanes) = do
  is ← lane_visits (start first) stride n
  rest ← block_visits start stride n (first + 1) lanes
  ok (is ++ rest)

-- The same of the blocks `first, first + 1, …` of `threads` lanes each.
unfoldable pub grid_visits : (start : ℕ → ℕ → ℕ) (stride n threads first blocks : ℕ) → Run (List ℕ)
grid_visits start stride n threads first zero = ok []
grid_visits start stride n threads first (suc blocks) = do
  is ← block_visits (start first) stride n 0 threads
  rest ← grid_visits start stride n threads (first + 1) blocks
  ok (is ++ rest)

module _ {ℓ} {S : Type ℓ} where
  -- A kernel whose lanes run `body` at each index of their loops.
  unfoldable pub grid_for :
      Device
      → (launch : ℕ) → (start : ℕ → ℕ → ℕ) → (stride n threads blocks : ℕ) → (ℕ → S → Run S)
      → S
      → Run S
  grid_for dev k start stride n threads blocks body s = do
    is ← grid_visits start stride n threads 0 blocks
    for_each (dev.interleave k is) body s

module _ {ℓ} {T : Type ℓ} ⦃r : Arith T⦄ where
  -- `x = {}; for (; i < n; i += stride) x += a[i] * b[i];`
  unfoldable pub lane_sum : Arrays T → (i stride n : ℕ) → Run T
  lane_sum s i stride n = do is ← lane_visits i stride n; for_each is (dot_body s) r.nought

  -- A lane stores its sum in its slot of the shared memory.
  unfoldable pub fill_body : (lane : ℕ → Run T) → ℕ → List T → Run (List T)
  fill_body lane li shared = do v ← lane li; store shared li v

  -- `if (li < offset) shared[li] += shared[li + offset];`
  unfoldable pub halve_body : (offset li : ℕ) → List T → Run (List T)
  halve_body offset li shared =
      if ltb li offset
      then (do x ← read shared li; y ← read shared (li + offset); store shared li (x ⊕ y))
      else ok shared

  -- `for (; offset > 0; offset /= 2)`, with a barrier before each pass.
  unfoldable pub halve_loop : (lanes : ℕ → List ℕ) → (fuel pass offset : ℕ) → List T → Run (List T)
  halve_loop lanes zero pass offset shared = hung
  halve_loop lanes (suc fuel) pass offset shared =
      let rest = λ (t : List T). halve_loop lanes fuel (pass + 1) (offset / 2) t in
      if ltb 0 offset
      then (do t ← for_each (lanes pass) (halve_body offset) shared; rest t)
      else ok shared

  -- A block's part of the reduction kernel, on shared memory that holds anything; lane `t` adds up
  -- `lane t`.
  unfoldable pub block_reduce :
      Device → (launch block : ℕ) → (lane : ℕ → Run T) → (threads : ℕ) → (shared : List T) → Run T
  unfolding fill_body halve_loop halve_body
  block_reduce dev k b lane threads shared = do
    filled ← for_each (dev.lanes k b 0 threads) (fill_body lane) shared
    halved ← halve_loop (λ pass. dev.lanes k b pass threads) (suc threads) 1 (threads / 2) filled
    read halved 0

  -- The reduction kernel: lane 0 of each block stores its sum.
  unfoldable pub reduce_lanes :
      Device
      → (launch : ℕ) → (lane : ℕ → ℕ → Run T) → (threads blocks : ℕ) → (shared : ℕ → List T)
      → List T
      → Run (List T)
  unfolding block_reduce
  reduce_lanes dev k lane threads blocks shared sums =
      for_each (dev.blocks k blocks)
        (λ b out. do v ← block_reduce dev k b (lane b) threads (shared b); store out b v) sums

  -- The reduction kernel whose lanes have strided loops.
  unfoldable pub reduce_kernel :
      Device
      → (launch : ℕ) → Arrays T
      → (start : ℕ → ℕ → ℕ) → (stride n threads blocks : ℕ) → (shared : ℕ → List T) → List T
      → Run (List T)
  unfolding reduce_lanes lane_sum
  reduce_kernel dev k s start stride n threads blocks shared sums =
      reduce_lanes dev k (λ b t. lane_sum s (start b t) stride n) threads blocks shared sums

  -- `T sum{}; for (i = 0; i < blocks; i++) sum += sums[i];`
  unfoldable pub host_sum : (blocks : ℕ) → List T → Run T
  host_sum blocks sums =
      for_each (range blocks) (λ i sum. do v ← read sums i; ok (sum ⊕ v)) r.nought
