-- ===== src/Benchmark.antt =====
-- src/benchmark.h: the benchmarks, their order, and which buffers each needs.
use mathlib.Core.Bool.{◌||◌}
use babel_stream.Prelude.{ℕ, String, Bool, true, false, ◌&&◌, List, [], ◌∷◌, ◌==◌, if◌then◌else◌}
use babel_stream.Arith.{Arith}

pub data BenchId : Type 0 where
  copy mul add triad nstream dot classic all : BenchId

-- `BenchId` as an `int`
abbrev pub rank : BenchId → ℕ
rank copy = 0
rank mul = 1
rank add = 2
rank triad = 3
rank nstream = 4
rank dot = 5
rank classic = 6
rank all = 7

abbrev pub same_id : BenchId → BenchId → Bool
same_id x y = rank x == rank y

pub record Benchmark : Type 0 where
  pub id : BenchId
  pub label : String
  pub weight : ℕ
  pub is_classic : Bool

abbrev pub num_benchmarks : ℕ
num_benchmarks = 6

abbrev pub bench : List Benchmark
bench =
    record { id = copy; label = "Copy"; weight = 2; is_classic = true }
    ∷ record { id = mul; label = "Mul"; weight = 2; is_classic = true }
    ∷ record { id = add; label = "Add"; weight = 3; is_classic = true }
    ∷ record { id = triad; label = "Triad"; weight = 3; is_classic = true }
    ∷ record { id = dot; label = "Dot"; weight = 2; is_classic = true }
    ∷ record { id = nstream; label = "Nstream"; weight = 4; is_classic = false }
    ∷ []

-- The buffer names 'a', 'b', 'c' are bytes.
abbrev find_in : ℕ → List ℕ → Bool
find_in n [] = false
find_in n (v ∷ values) = v == n || find_in n values

unfoldable pub needs_buffer : BenchId → ℕ → Bool
needs_buffer all n = find_in n (b'a' ∷ b'b' ∷ b'c' ∷ [])
needs_buffer classic n = find_in n (b'a' ∷ b'b' ∷ b'c' ∷ [])
needs_buffer copy n = find_in n (b'a' ∷ b'c' ∷ [])
needs_buffer mul n = find_in n (b'b' ∷ b'c' ∷ [])
needs_buffer add n = find_in n (b'a' ∷ b'b' ∷ b'c' ∷ [])
needs_buffer triad n = find_in n (b'a' ∷ b'b' ∷ b'c' ∷ [])
needs_buffer dot n = find_in n (b'a' ∷ b'b' ∷ [])
needs_buffer nstream n = find_in n (b'a' ∷ b'b' ∷ b'c' ∷ [])

unfoldable pub run_benchmark : BenchId → Benchmark → Bool
run_benchmark selection b =
    if same_id selection all
    then true
    else if same_id selection classic && b.is_classic
    then true
    else same_id selection b.id

module _ {ℓ} {T : Type ℓ} ⦃r : Arith T⦄ where
  abbrev pub start_a : T
  start_a = r.literal 1 1

  abbrev pub start_b : T
  start_b = r.literal 2 1

  abbrev pub start_c : T
  start_c = r.literal 0 1

  abbrev pub start_scalar : T
  start_scalar = r.literal 4 1
