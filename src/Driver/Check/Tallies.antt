-- ===== src/Driver/Check/Tallies.antt =====
-- The tally of a validation in `check_solution` of src/main.cpp.
use babel_stream.Prelude.{
  ℕ, zero, suc, ◌+◌, ◌<◌, ◌≤◌, ◌≡◌, refl, ap, true, Bool-cases, inl, inr, List, [], ◌∷◌, ◌++◌, none,
  some, ltb, length, length-append, get_elem?, ok, if◌then◌else◌, arith,
}
use mathlib.Core.List.{append_assoc, append-nil}
use babel_stream.Arith.{Arith}
use babel_stream.Benchmark.{BenchId, Benchmark, bench, run_benchmark, dot}
use babel_stream.Loop.Updates.{read-map}
use babel_stream.Stream.{Row, arrays_of}
use babel_stream.Driver.Gold.{Gold}
use babel_stream.Driver.Check.{
  Report, Tally, differs, check, check_sum, check_index, item, max_rel_dot,
}

abbrev pub dot_bench : Benchmark
dot_bench = record { id = dot; label = "Dot"; weight = 2; is_classic = true }

module _ {ℓ} {T : Type ℓ} ⦃r : Arith T⦄ where
  -- The failures among the comparisons, in their order.
  unfoldable pub failures : List (Report T) → List (Report T)
  failures [] = []
  failures (c ∷ cs) = let rest = failures cs in if differs c then c ∷ rest else rest

  abbrev pub take : ℕ → List (Report T) → List (Report T)
  take zero cs = []
  take (suc n) [] = []
  take (suc n) (c ∷ cs) = c ∷ take n cs

  -- The tally of a list of failures.
  abbrev pub tally_of : List (Report T) → Tally T
  tally_of cs = record { failed = length cs; reports = take 10 cs }

  take-append_lt :
      (n : ℕ) (cs : List (Report T)) (c : Report T)
      → length cs < n
      → take n (cs ++ (c ∷ [])) ≡ take n cs ++ (c ∷ [])
  take-append_lt zero cs c h = absurd (omega arith)
  take-append_lt (suc zero) [] c h = refl
  take-append_lt (suc (suc n)) [] c h = refl
  take-append_lt (suc n) (d ∷ cs) c h = ap (λ l. d ∷ l) (take-append_lt n cs c (omega arith))

  take-append_ge :
      (n : ℕ) (cs : List (Report T)) (c : Report T)
      → n ≤ length cs
      → take n (cs ++ (c ∷ [])) ≡ take n cs
  take-append_ge zero cs c h = refl
  take-append_ge (suc n) [] c h = absurd (omega arith)
  take-append_ge (suc n) (d ∷ cs) c h = ap (λ l. d ∷ l) (take-append_ge n cs c (omega arith))

  failures-append : (cs ds : List (Report T)) → failures (cs ++ ds) ≡ failures cs ++ failures ds
  unfolding failures
  failures-append [] ds = refl
  failures-append (c ∷ cs) ds = elim (Bool-cases (differs c)) [
    | inl e ↦ rw (e, failures-append cs ds) refl
    | inr e ↦ rw (e, failures-append cs ds) refl
  ]

  -- One more comparison.
  check-tally_of :
      (cs : List (Report T)) (c : Report T)
      → check c (tally_of (failures cs)) ≡ tally_of (failures (cs ++ (c ∷ [])))
  unfolding check failures
  check-tally_of cs c = elim (Bool-cases (differs c)) [
    | inr e ↦ rw (failures-append cs (c ∷ []), e, append-nil) refl
    | inl e ↦ elim (Bool-cases (ltb 10 (length (failures cs) + 1))) [
      | inl many ↦
          rw
            (
              failures-append cs (c ∷ []),
              e,
              many,
              length-append (failures cs) (c ∷ []),
              take-append_ge 10 (failures cs) c (ground arith),
            )
            refl
      | inr few ↦
          rw
            (
              failures-append cs (c ∷ []),
              e,
              few,
              length-append (failures cs) (c ∷ []),
              take-append_lt 10 (failures cs) c (ground arith),
            )
            refl
    ]
  ]

  -- The comparisons of one index, in the order of the loop's body.
  abbrev pub row_checks : Gold T → ℕ → Row T → List (Report T)
  row_checks g i x = item "a" i x.a g.a ∷ item "b" i x.b g.b ∷ item "c" i x.c g.c ∷ []

  abbrev pub rows_checks : Gold T → ℕ → List (Row T) → List (Report T)
  rows_checks g i [] = []
  rows_checks g i (x ∷ l) = row_checks g i x ++ rows_checks g (i + 1) l

  abbrev pub sum_checks : BenchId → T → T → List (Report T)
  sum_checks selection sum should =
      if run_benchmark selection dot_bench
      then record { name = "sum"; index = none; is = sum; should = should; max_rel = max_rel_dot }
        ∷ []
      else []

  pub check_sum-tally_of :
      (selection : BenchId) (sum should : T)
      → check_sum selection bench sum should (tally_of [])
        ≡ tally_of (failures (sum_checks selection sum should))
  unfolding check_sum failures
  check_sum-tally_of selection sum should = elim (Bool-cases (run_benchmark selection dot_bench)) [
    | inl e ↦ rw e (check-tally_of [] _)
    | inr e ↦ rw e refl
  ]

  pub check_index-tally_of :
      (g : Gold T) (l : List (Row T)) (i : ℕ) {x : Row T} (cs : List (Report T))
      → get_elem? l i ≡ some x
      → check_index g (arrays_of l) i (tally_of (failures cs))
        ≡ ok (tally_of (failures (cs ++ row_checks g i x)))
  unfolding check_index
  check_index-tally_of g l i {x} cs e =
      rw
        (
          read-map (λ (q : Row T). q.a) l i e,
          read-map (λ (q : Row T). q.b) l i e,
          read-map (λ (q : Row T). q.c) l i e,
          check-tally_of cs (item "a" i x.a g.a),
          check-tally_of (cs ++ (item "a" i x.a g.a ∷ [])) (item "b" i x.b g.b),
          check-tally_of ((cs ++ (item "a" i x.a g.a ∷ [])) ++ (item "b" i x.b g.b ∷ []))
              (item "c" i x.c g.c),
          append_assoc,
          append_assoc,
        )
        refl
