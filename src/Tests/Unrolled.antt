-- ===== src/Tests/Unrolled.antt =====
-- The back end of src/sycl-ai in whole numbers, on the queue of Tests/Groups.
use babel_stream.Prelude.{ℕ, ◌≡◌, refl, true, some, [], ◌∷◌, arith}
use babel_stream.Arith.{whole}
use babel_stream.Stream.{Implements}
use babel_stream.Backend.Algorithms.{from_left, from_left-IsAlgorithms}
use babel_stream.Backend.Grid.{lane_visits}
use babel_stream.Backend.SyclAi.{Config, unrolled_loop, unrolled_visits, sycl_ai_stream}
use babel_stream.Backend.SyclAi.Contract.{IsDot, sycl_ai_implements}
use babel_stream.Backend.SyclAi.Holds.{Holds}
use babel_stream.Backend.SyclAi.Unrolled.{unrolled_visits-lane_visits}
use babel_stream.Tests.Groups.{queue, queue-IsQueue}

abbrev config : Config
config = record {
  stream_wgsize = 4;
  copy_wgsize = 4;
  mul_wgsize = 4;
  add_wgsize = 4;
  triad_wgsize = 4;
  nstream_wgsize = 4;
  dot_wgsize = 4;
  dot_num_groups = 3;
  dot_unroll = 2;
  use_manual_dot_reduction = true;
}

unrolled_visits-lane_visits_example : unrolled_visits 1 3 2 20 ≡ lane_visits 1 2 20
unrolled_visits-lane_visits_example =
    unrolled_visits-lane_visits 1 3 2 20 (omega arith) (omega arith) (omega arith) (omega arith)
      (omega arith)

-- A round of ten has eight terms.
dropped : unrolled_loop 3 0 10 1 12 ≡ some (0 ∷ 1 ∷ 2 ∷ 3 ∷ 4 ∷ 5 ∷ 6 ∷ 7 ∷ [], 10)
unfolding unrolled_loop
dropped = refl

sycl_ai_implements_example :
    Implements {T = ℕ} (sycl_ai_stream queue from_left) (Holds config 2) (IsDot config 2 true)
sycl_ai_implements_example =
    sycl_ai_implements config 2 queue queue-IsQueue from_left from_left-IsAlgorithms
