-- ===== src/Backend/Omp.antt =====
-- src/omp/OMPStream.cpp
pub mod Contract
use babel_stream.Prelude.{
  replicate, length-replicate, ℕ, ◌+◌, ◌≡◌, refl, sym, ap, Bool, true, false, List, map, length,
  length-map, Run, ok, ◌>>=◌, Returns, if◌then◌else◌,
}
use babel_stream.Arith.{Arith}
use babel_stream.Stream.{
  Arrays, Stream, Row, arrays_of, Implements, copy_row, mul_row, add_row, triad_row, nstream_row,
}
use babel_stream.Stream.Kernels.{init_body, copy_body, mul_body, add_body, triad_body, nstream_body}
use babel_stream.Stream.Laws.{
  for_each-copy, for_each-mul, for_each-add, for_each-triad, for_each-nstream,
}
use babel_stream.Backend.Memory.{
  room, IsSize, room_ok, Allocator, IsAllocator, allocate, allocate_rows, for_each-init_replicate,
}
use babel_stream.Backend.Parallel.{
  Runtime, IsRuntime, parallel_for, parallel_sum, parallel_sum_ok, IsChunkedSum,
}

-- `mapped` is `OMP_TARGET_GPU` without `PAGEFAULT`: the kernels run on copies of the arrays on the
-- device. Otherwise they run on the host's arrays, by host threads or through unified memory.
pub record OmpStream {ℓ} (T : Type ℓ) : Type ℓ where
  pub array_size : ℕ
  pub host : Arrays T
  pub device : Arrays T
  pub launches : ℕ

module _ {ℓ} {T : Type ℓ} where
  -- The arrays that the kernels name.
  abbrev pub memory : Bool → OmpStream T → Arrays T
  memory mapped s = if mapped then s.device else s.host

  abbrev pub with_memory : Bool → Arrays T → OmpStream T → OmpStream T
  with_memory mapped t s =
      if mapped
      then record s { device = t; launches = s.launches + 1 }
      else record s { host = t; launches = s.launches + 1 }

module _ (rt : Runtime) (mapped : Bool) where
  module _ {ℓ} {T : Type ℓ} where
    unfoldable pub init_arrays : T → T → T → OmpStream T → Run (OmpStream T)
    init_arrays x y z s = do
      t ← parallel_for rt s.launches s.array_size (init_body x y z) (memory mapped s)
      ok (with_memory mapped t s)

    -- `aligned_alloc`, and `target enter data map(alloc: …)` for the device. The choice of the device
    -- is not modelled.
    unfoldable pub construct :
        (size_of : ℕ) (on_host on_device : Allocator T) → ℕ → T → T → T → Run (OmpStream T)
    unfolding init_arrays
    construct size_of on_host on_device n x y z = do
      h ← allocate on_host (room size_of n)
      d ← allocate on_device n
      init_arrays x y z (record { array_size = n; host = h; device = d; launches = 0 })

    -- `target update from(…)` where the arrays are mapped
    unfoldable pub get_arrays : OmpStream T → Run (Arrays T × OmpStream T)
    get_arrays s = let t = if mapped then record s { host = s.device } else s in ok (t.host, t)

  module _ {ℓ} {T : Type ℓ} ⦃r : Arith T⦄ where
    unfoldable pub copy : OmpStream T → Run (OmpStream T)
    copy s = do
      t ← parallel_for rt s.launches s.array_size copy_body (memory mapped s)
      ok (with_memory mapped t s)

    unfoldable pub mul : OmpStream T → Run (OmpStream T)
    mul s = do
      t ← parallel_for rt s.launches s.array_size mul_body (memory mapped s)
      ok (with_memory mapped t s)

    unfoldable pub add : OmpStream T → Run (OmpStream T)
    add s = do
      t ← parallel_for rt s.launches s.array_size add_body (memory mapped s)
      ok (with_memory mapped t s)

    unfoldable pub triad : OmpStream T → Run (OmpStream T)
    triad s = do
      t ← parallel_for rt s.launches s.array_size triad_body (memory mapped s)
      ok (with_memory mapped t s)

    unfoldable pub nstream : OmpStream T → Run (OmpStream T)
    nstream s = do
      t ← parallel_for rt s.launches s.array_size nstream_body (memory mapped s)
      ok (with_memory mapped t s)

    unfoldable pub dot : OmpStream T → Run (T × OmpStream T)
    dot s = do
      sum ← parallel_sum rt s.launches s.array_size (memory mapped s)
      ok (sum, record s { launches = s.launches + 1 })

    abbrev pub omp_stream : Stream T
    omp_stream = record {
      State = OmpStream T;
      copy = copy;
      mul = mul;
      add = add;
      triad = triad;
      nstream = nstream;
      dot = dot;
      get_arrays = get_arrays;
    }

-- The rows stand in the memory that the kernels use; the other arrays may hold anything.
abbrev pub at {ℓ} : {T : Type ℓ} → Bool → List (Row T) → Arrays T → ℕ → OmpStream T
at mapped l h k = record {
  array_size = length l;
  host = if mapped then h else arrays_of l;
  device = if mapped then arrays_of l else h;
  launches = k;
}

abbrev pub Holds {ℓ} : {T : Type ℓ} → Bool → OmpStream T → List (Row T) → Type ℓ
Holds {T} mapped s l = (h : Arrays T) × (k : ℕ) × (s ≡ at mapped l h k)
