-- ===== src/Backend/Parallel.antt =====
-- What the parallel back ends expect of their run times (OpenMP, OpenACC, RAJA, Kokkos): a `for` runs each iteration once, in any order, and
-- a reduction splits the iterations into chunks, in any way.
use babel_stream.Prelude.{ℕ, ◌≡◌, List, [], ◌∷◌, ◌++◌, length, Run, ok}
use mathlib.Core.List.{append-nil}
use babel_stream.Arith.{Arith, IsExact}
use babel_stream.Loop.{for_each, range}
use babel_stream.Loop.Schedule.{IsSchedule, range-IsSchedule}
use babel_stream.Stream.{Arrays, Row, arrays_of}
use babel_stream.Stream.Dot.{reduce, all_of, reduce_total, reduce-dot_rows, dot_rows}

-- The choices of the run time at launch number `k`, for `n` iterations.
pub record Runtime : Type 0 where
  pub order : (k n : ℕ) → List ℕ
  pub chunks : (k n : ℕ) → List (List ℕ)

pub record IsRuntime (rt : Runtime) : Type 0 where
  pub order_ok : (k n : ℕ) → IsSchedule n (rt.order k n)
  pub chunks_ok : (k n : ℕ) → IsSchedule n (all_of (rt.chunks k n))

module _ {ℓ} {T : Type ℓ} where
  -- A parallel loop over the indices below `n`.
  abbrev pub parallel_for :
      Runtime → (k n : ℕ) → (ℕ → Arrays T → Run (Arrays T)) → Arrays T → Run (Arrays T)
  parallel_for rt k n body s = for_each (rt.order k n) body s

module _ {ℓ} {T : Type ℓ} ⦃r : Arith T⦄ where
  -- A parallel reduction that starts at `T{}`.
  abbrev pub parallel_sum : Runtime → (k n : ℕ) → Arrays T → Run T
  parallel_sum rt k n s = reduce (rt.chunks k n) s r.nought

  -- What a reduction in chunks can give for some chunks.
  abbrev pub IsChunkedSum : List (Row T) → T → Type ℓ
  IsChunkedSum l v =
      (chunks : List (List ℕ)) × IsSchedule (length l) (all_of chunks)
      × (reduce chunks (arrays_of l) r.nought ≡ ok v)

  -- In exact arithmetic that is the dot product, whatever the chunks.
  pub IsChunkedSum-dot_rows :
      IsExact T → (l : List (Row T)) (v : T) → IsChunkedSum l v → v ≡ dot_rows l
  IsChunkedSum-dot_rows exact l v (chunks, s, e) = cc (e, reduce-dot_rows exact l chunks s)

  module _ (rt : Runtime) (good : IsRuntime rt) where
    pub parallel_sum_ok :
        (k : ℕ) (l : List (Row T))
        → (v : T) × (parallel_sum rt k (length l) (arrays_of l) ≡ ok v) × IsChunkedSum l v
    parallel_sum_ok k l =
        let s = good.chunks_ok k (length l) in
        let (v, e) = reduce_total l (rt.chunks k (length l)) r.nought s.in_range in
        (v, e, (rt.chunks k (length l), s, e))

-- One thread is a run time.
abbrev pub one_thread : Runtime
one_thread = record { order = λ k n. range n; chunks = λ k n. range n ∷ [] }

append_nil_IsSchedule : (n : ℕ) → IsSchedule n (range n ++ [])
append_nil_IsSchedule n = rw append-nil (range-IsSchedule n)

pub one_thread-IsRuntime : IsRuntime one_thread
one_thread-IsRuntime = record {
  order_ok = λ k n. range-IsSchedule n;
  chunks_ok = λ k n. append_nil_IsSchedule n;
}
