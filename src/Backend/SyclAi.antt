-- ===== src/Backend/SyclAi.antt =====
-- src/sycl-ai/SYCLStream.cpp: kernels over a range that is rounded up to work groups, and a reduction
-- by the library or by hand, with its loop unrolled.
pub mod Rounded
pub mod Holds
pub mod Unrolled
pub mod Contract
use babel_stream.Prelude.{
  ℕ, zero, suc, ◌+◌, ◌-◌, ◌*◌, ◌%◌, ◌^◌, Bool, Option, none, some, List, [], ◌∷◌, ◌++◌, ltb, ◌==◌,
  Run, ok, hung, ◌>>=◌, ◌>>◌, if◌then◌else◌,
}
use babel_stream.Arith.{Arith}
use babel_stream.Loop.{for_each, range}
use babel_stream.Stream.{Arrays, Stream}
use babel_stream.Stream.Kernels.{
  init_body, copy_body, mul_body, add_body, triad_body, nstream_body, dot_body,
}
use babel_stream.Backend.Gpu.{wide_start}
use babel_stream.Backend.Grid.{lane_visits, reduce_lanes, host_sum}
use babel_stream.Backend.Algorithms.{Algorithms, transform_reduce}
use babel_stream.Backend.WorkGroups.{Queue, check, check_all}

-- The sizes of the work groups, which the constructor chooses.
pub record Config : Type 0 where
  pub stream_wgsize : ℕ
  pub copy_wgsize : ℕ
  pub mul_wgsize : ℕ
  pub add_wgsize : ℕ
  pub triad_wgsize : ℕ
  pub nstream_wgsize : ℕ
  pub dot_wgsize : ℕ
  pub dot_num_groups : ℕ
  pub dot_unroll : ℕ
  pub use_manual_dot_reduction : Bool

pub record SyclAiStream {ℓ} (T : Type ℓ) : Type ℓ where
  pub array_size : ℕ
  pub config : Config
  pub d_sum : List T
  pub device : Arrays T
  pub host : Arrays T
  pub calls : ℕ

-- The next multiple
unfoldable pub round_up : (value multiple : ℕ) → ℕ
round_up value multiple =
    if multiple == 0
    then value
    else if value % multiple == 0
    then value
    else (value + (multiple - value % multiple)) % 2 ^ 64

-- `i, i + size, …`, as many as `num`: the items that a round of the unrolled loop adds.
unfoldable pub terms : (i size num : ℕ) → List ℕ
terms i size zero = []
terms i size (suc num) = i ∷ terms ((i + size) % 2 ^ 64) size num

abbrev pub at_most_eight : ℕ → ℕ
at_most_eight unroll = if ltb 8 unroll then 8 else unroll

abbrev pub add_round : List ℕ → Option (List ℕ × ℕ) → Option (List ℕ × ℕ)
add_round is none = none
add_round is (some (ks, j)) = some (is ++ ks, j)

-- The unrolled loop: the items that it adds, and the index where it stops. However large `unroll` is,
-- a round has eight terms at most.
unfoldable pub unrolled_loop : (fuel i unroll size n : ℕ) → Option (List ℕ × ℕ)
unfolding terms
unrolled_loop zero i unroll size n = none
unrolled_loop (suc fuel) i unroll size n =
    let rest = unrolled_loop fuel ((i + size * unroll) % 2 ^ 64) unroll size n in
    if ltb ((i + (unroll - 1) * size) % 2 ^ 64) n
    then add_round (terms i size (at_most_eight unroll)) rest
    else some ([], i)

-- The items of a work item: those of the unrolled loop, then the rest.
unfoldable pub unrolled_visits : (i unroll size n : ℕ) → Run (List ℕ)
unfolding unrolled_loop
unrolled_visits i unroll size n = elim (unrolled_loop (suc n) i unroll size n) [
  | none ↦ hung
  | some (is, j) ↦ lane_visits j size n >>= λ ks. ok (is ++ ks)
]

-- `if (idx < N)`
unfoldable pub guarded {ℓ} :
    {T : Type ℓ} → (n : ℕ) → (ℕ → Arrays T → Run (Arrays T)) → ℕ → Arrays T → Run (Arrays T)
guarded n body i s = if ltb i n then body i s else ok s

module _ {ℓ} {T : Type ℓ} (q : Queue T) where
  -- A kernel over the range that is rounded up to groups of `wg`, and `wait`.
  unfoldable pub run_kernel :
      (wg : ℕ) → (ℕ → Arrays T → Run (Arrays T)) → SyclAiStream T → Run (SyclAiStream T)
  unfolding guarded round_up
  run_kernel wg body s = do
    check q s.calls
    t ←
        for_each (q.dev.interleave s.calls (range (round_up s.array_size wg)))
          (guarded s.array_size body) s.device
    check q (s.calls + 1)
    ok (record s { device = t; calls = s.calls + 2 })

  unfoldable pub init_arrays : T → T → T → SyclAiStream T → Run (SyclAiStream T)
  unfolding run_kernel
  init_arrays x y z s = run_kernel s.config.stream_wgsize (init_body x y z) s

  -- The copies of the arrays, and `wait`.
  unfoldable pub get_arrays : SyclAiStream T → Run (Arrays T × SyclAiStream T)
  get_arrays s = do
    check_all q s.calls 4
    let t = record s { host = s.device; calls = s.calls + 4 }
    ok (t.host, t)

module _ {ℓ} {T : Type ℓ} ⦃r : Arith T⦄ (q : Queue T) (lib : Algorithms) where
  unfoldable pub copy : SyclAiStream T → Run (SyclAiStream T)
  unfolding run_kernel
  copy s = run_kernel q s.config.copy_wgsize copy_body s

  unfoldable pub mul : SyclAiStream T → Run (SyclAiStream T)
  unfolding run_kernel
  mul s = run_kernel q s.config.mul_wgsize mul_body s

  unfoldable pub add : SyclAiStream T → Run (SyclAiStream T)
  unfolding run_kernel
  add s = run_kernel q s.config.add_wgsize add_body s

  unfoldable pub triad : SyclAiStream T → Run (SyclAiStream T)
  unfolding run_kernel
  triad s = run_kernel q s.config.triad_wgsize triad_body s

  unfoldable pub nstream : SyclAiStream T → Run (SyclAiStream T)
  unfolding run_kernel
  nstream s = run_kernel q s.config.nstream_wgsize nstream_body s

  -- `sycl::reduction` into `d_dot`, which is 0 before: the library adds in any order and grouping.
  -- The calls are a `memset`, the kernel and a `memcpy`, each with a `wait`.
  unfoldable pub native_dot : SyclAiStream T → Run (T × SyclAiStream T)
  native_dot s = do
    check_all q s.calls 4
    sum ← transform_reduce (lib.sums s.calls s.array_size) s.device
    check_all q (s.calls + 4) 2
    ok (sum, record s { calls = s.calls + 6 })

  -- The sum of a work item.
  unfoldable pub item_sum : Arrays T → (i unroll size n : ℕ) → Run T
  unfolding unrolled_visits
  item_sum s i unroll size n = do
    is ← unrolled_visits i unroll size n
    for_each is (dot_body s) r.nought

  -- The reduction by hand; a kernel, a `wait`, and a `memcpy` with a `wait`.
  unfoldable pub manual_dot : SyclAiStream T → Run (T × SyclAiStream T)
  unfolding item_sum
  manual_dot s = do
    let wg = s.config.dot_wgsize
    let groups = s.config.dot_num_groups
    check q s.calls
    d_sum ←
        reduce_lanes q.dev s.calls
          (λ g t.
            item_sum s.device (wide_start wg g t) s.config.dot_unroll (groups * wg) s.array_size)
          wg groups (q.local_mem s.calls) s.d_sum
    check_all q (s.calls + 1) 3
    sum ← host_sum groups d_sum
    ok (sum, record s { d_sum = d_sum; calls = s.calls + 4 })

  unfoldable pub dot : SyclAiStream T → Run (T × SyclAiStream T)
  unfolding native_dot manual_dot
  dot s = if s.config.use_manual_dot_reduction then manual_dot s else native_dot s

  abbrev pub sycl_ai_stream : Stream T
  sycl_ai_stream = record {
    State = SyclAiStream T;
    copy = copy;
    mul = mul;
    add = add;
    triad = triad;
    nstream = nstream;
    dot = dot;
    get_arrays = get_arrays q;
  }
