-- ===== src/Stream/Footprint.antt =====
-- Which buffers a kernel touches, against the table of `needs_buffer` in src/benchmark.h.
use babel_stream.Prelude.{if◌then◌else◌, ◌≡◌, refl}
use babel_stream.Arith.{Arith, ◌⊗◌}
use babel_stream.Benchmark.{BenchId, copy, mul, add, triad, nstream, dot, all, needs_buffer}
use babel_stream.Stream.{Row, copy_row, mul_row, add_row, triad_row, nstream_row}

module _ {ℓ} {T : Type ℓ} ⦃r : Arith T⦄ where
  -- A kernel's effect on an index, and what the index adds to a dot product. A group runs its
  -- kernels in the order of the table.
  unfoldable pub effect : BenchId → Row T → Row T × T
  effect copy x = (copy_row x, r.nought)
  effect mul x = (mul_row x, r.nought)
  effect add x = (add_row x, r.nought)
  effect triad x = (triad_row x, r.nought)
  effect nstream x = (nstream_row x, r.nought)
  effect dot x = (x, x.a ⊗ x.b)
  effect BenchId.classic x = let y = triad_row (add_row (mul_row (copy_row x))) in (y, y.a ⊗ y.b)
  effect all x = let y = triad_row (add_row (mul_row (copy_row x))) in (nstream_row y, y.a ⊗ y.b)

  -- `x`, with the values of `y` in the buffers that `id` does not need.
  unfoldable pub with_unneeded : BenchId → Row T → Row T → Row T
  unfolding needs_buffer
  with_unneeded id y x = record {
    a = if needs_buffer id b'a' then x.a else y.a;
    b = if needs_buffer id b'b' then x.b else y.b;
    c = if needs_buffer id b'c' then x.c else y.c;
  }

  -- The buffers that the table leaves out are neither written nor read: other values in them pass
  -- through, and change nothing else.
  pub needs_buffer-effect :
      (id : BenchId) (x y : Row T)
      → effect id (with_unneeded id y x) ≡ (with_unneeded id y (effect id x).0, (effect id x).1)
  unfolding needs_buffer effect with_unneeded
  needs_buffer-effect copy x y = refl
  needs_buffer-effect mul x y = refl
  needs_buffer-effect dot x y = refl
  needs_buffer-effect add x y = refl
  needs_buffer-effect triad x y = refl
  needs_buffer-effect nstream x y = refl
  needs_buffer-effect BenchId.classic x y = refl
  needs_buffer-effect all x y = refl
