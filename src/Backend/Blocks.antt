-- ===== src/Backend/Blocks.antt =====
-- What src/tbb/TBBStream.cpp expects of oneTBB: a `parallel_for` cuts the range into blocks and calls
-- the body on each, a `parallel_reduce` also joins the sums of its parts along a tree. The blocks
-- run one after the other here, in any order; concurrent ones touch different indices.
use babel_stream.Prelude.{
  bind_congr, ℕ, ◌<◌, ◌≡◌, refl, ◌∙◌, List, [], ◌∷◌, ◌++◌, length, All, Run, ok, ◌>>=◌, sym, ap,
}
use mathlib.Core.List.{append-nil}
use babel_stream.Arith.{Arith, ◌⊕◌, IsExact}
use babel_stream.Loop.{for_each, range, range_from}
use babel_stream.Loop.Chains.{for_each-append}
use babel_stream.Loop.Schedule.{IsSchedule, range-IsSchedule}
use babel_stream.Loop.Sums.{add_up, add_up-append, add_up_schedule}
use babel_stream.Stream.{Arrays, Row, arrays_of}
use babel_stream.Stream.Kernels.{dot_body}
use babel_stream.Stream.Dot.{for_each-dot, product_at, dot_rows, add_up_from, All-head}

-- `tbb::blocked_range`: `begin`, and the number of indices from there.
pub record Block : Type 0 where
  pub first : ℕ
  pub items : ℕ

-- The indices of the blocks, in the order of the loops over them.
abbrev pub indices_of : List Block → List ℕ
indices_of [] = []
indices_of (b ∷ bs) = range_from b.first b.items ++ indices_of bs

-- `body` on each block: `for (i = r.begin(); i < r.end(); ++i)`.
unfoldable pub for_blocks {ℓ} : {S : Type ℓ} → List Block → (ℕ → S → Run S) → S → Run S
for_blocks [] body s = ok s
for_blocks (b ∷ bs) body s = for_each (range_from b.first b.items) body s >>= for_blocks bs body

-- Loops over blocks visit the indices of the blocks.
pub for_blocks-for_each {ℓ} :
    {S : Type ℓ} (bs : List Block) (body : ℕ → S → Run S) (s : S)
    → for_blocks bs body s ≡ for_each (indices_of bs) body s
unfolding for_blocks for_each
for_blocks-for_each [] body s = refl
for_blocks-for_each (b ∷ bs) body s =
    bind_congr (for_each (range_from b.first b.items) body s) _ _
      (λ t. for_blocks-for_each bs body t)
    ∙ sym (for_each-append (range_from b.first b.items) (indices_of bs) body s)

-- How a `parallel_reduce` ends: a body runs over some blocks with one accumulator, or the sums of two
-- parts are joined.
pub data Joins : Type 0 where
  body : List Block → Joins
  join : Joins → Joins → Joins

abbrev pub leaves : Joins → List ℕ
leaves (body bs) = indices_of bs
leaves (join l r) = leaves l ++ leaves r

-- The choices of the partitioner at launch number `k`, for `n` iterations.
pub record Partitioner : Type 0 where
  pub blocks : (k n : ℕ) → List Block
  pub joins : (k n : ℕ) → Joins

pub record IsPartitioner (pt : Partitioner) : Type 0 where
  pub blocks_ok : (k n : ℕ) → IsSchedule n (indices_of (pt.blocks k n))
  pub joins_ok : (k n : ℕ) → IsSchedule n (leaves (pt.joins k n))

-- One block is a partition.
abbrev pub one_block : Partitioner
one_block = record {
  blocks = λ k n. record { first = 0; items = n } ∷ [];
  joins = λ k n. body (record { first = 0; items = n } ∷ []);
}

one_block_IsSchedule : (n : ℕ) → IsSchedule n (range n ++ [])
one_block_IsSchedule n = rw append-nil (range-IsSchedule n)

pub one_block-IsPartitioner : IsPartitioner one_block
one_block-IsPartitioner = record {
  blocks_ok = λ k n. one_block_IsSchedule n;
  joins_ok = λ k n. one_block_IsSchedule n;
}

module _ {ℓ} {T : Type ℓ} ⦃r : Arith T⦄ where
  -- The loop over a block, from an accumulator: `acc += a[i] * b[i]`.
  unfoldable pub block_sum : Arrays T → List Block → T → Run T
  unfolding for_blocks
  block_sum s bs acc = for_blocks bs (dot_body s) acc

  -- Each body starts at the identity `T{}`; `std::plus` joins.
  unfoldable pub reduce_joins : Joins → Arrays T → Run T
  unfolding block_sum
  reduce_joins (body bs) s = block_sum s bs r.nought
  reduce_joins (join l m) s = do x ← reduce_joins l s; y ← reduce_joins m s; ok (x ⊕ y)

  -- What a reduction can give for some tree.
  abbrev pub IsTreeSum : List (Row T) → T → Type ℓ
  IsTreeSum l v =
      (t : Joins) × IsSchedule (length l) (leaves t) × (reduce_joins t (arrays_of l) ≡ ok v)

  block_sum-add_up :
      (l : List (Row T)) (bs : List Block) (z : T)
      → All (λ i. i < length l) (indices_of bs)
      → block_sum (arrays_of l) bs z ≡ ok (add_up (indices_of bs) (product_at l) z)
  unfolding block_sum
  block_sum-add_up l bs z h =
      for_blocks-for_each bs (dot_body (arrays_of l)) z ∙ for_each-dot l (indices_of bs) z h

  -- A reduction returns for every tree, without a law of arithmetic.
  reduce_joins_total :
      (l : List (Row T)) (t : Joins)
      → All (λ i. i < length l) (leaves t)
      → (v : T) × (reduce_joins t (arrays_of l) ≡ ok v)
  unfolding reduce_joins
  reduce_joins_total l (body bs) h = (_, block_sum-add_up l bs r.nought h)
  reduce_joins_total l (join t u) h =
      let (p, q) = All-head (length l) (leaves t) (leaves u) h in
      let (x, e) = reduce_joins_total l t p in
      let (y, f) = reduce_joins_total l u q in (x ⊕ y, rw (e, f) refl)

  pub reduce_joins_ok :
      (pt : Partitioner) (good : IsPartitioner pt) (k : ℕ) (l : List (Row T))
      → (v : T) × (reduce_joins (pt.joins k (length l)) (arrays_of l) ≡ ok v) × IsTreeSum l v
  reduce_joins_ok pt good k l =
      let s = good.joins_ok k (length l) in
      let (v, e) = reduce_joins_total l (pt.joins k (length l)) s.in_range in
      (v, e, (pt.joins k (length l), s, e))

  module _ (exact : IsExact T) where
    reduce_joins-add_up :
        (l : List (Row T)) (t : Joins)
        → All (λ i. i < length l) (leaves t)
        → reduce_joins t (arrays_of l) ≡ ok (add_up (leaves t) (product_at l) r.nought)
    unfolding reduce_joins
    reduce_joins-add_up l (body bs) h = block_sum-add_up l bs r.nought h
    reduce_joins-add_up l (join t u) h =
        let (p, q) = All-head (length l) (leaves t) (leaves u) h in
        let x = add_up (leaves t) (product_at l) r.nought in
        rw (reduce_joins-add_up l t p, reduce_joins-add_up l u q)
          (ap ok (
            sym (
              add_up-append (leaves t) (leaves u) (product_at l) r.nought
              ∙ add_up_from exact (leaves u) (product_at l) x)))

    -- In exact arithmetic a sum along any tree over any partition is the dot product.
    pub IsTreeSum-dot_rows : (l : List (Row T)) (v : T) → IsTreeSum l v → v ≡ dot_rows l
    unfolding dot_rows
    IsTreeSum-dot_rows l v (t, s, e) =
        let sum : reduce_joins t (arrays_of l) ≡ ok (dot_rows l) =
          reduce_joins-add_up l t s.in_range
          ∙ ap ok (
              add_up_schedule exact (length l) (product_at l) (leaves t) r.nought s
              ∙ exact.nought_add _) in
        cc (e, sum)
