-- ===== src/Driver/Check/Verdict.antt =====
-- `check_solution` of src/main.cpp as a whole, and the exit status that it decides.
use babel_stream.Prelude.{
  ℕ, zero, suc, ◌+◌, ◌≡◌, refl, subst, false, not, ◌&&◌, List, [], ◌∷◌, ◌++◌, some, none, ltb,
  length, length-append, get_elem?, replicate, length-replicate, ok, exited, if◌then◌else◌, arith,
  All, All-append, Bool-cases, inl, inr,
}
use mathlib.Core.List.{append_assoc, append-nil}
use babel_stream.Arith.{Arith}
use babel_stream.Benchmark.{BenchId, run_benchmark}
use babel_stream.Loop.{for_each, range_from}
use babel_stream.Options.{Options}
use babel_stream.Stream.{Row, arrays_of}
use babel_stream.Driver.Gold.{Gold, gold_solution}
use babel_stream.Driver.Check.{
  Report, differs, check_index, item, validate, check_solution, max_rel_dot,
}
use babel_stream.Driver.Check.Tallies.{
  failures, tally_of, dot_bench, rows_checks, row_checks, sum_checks, check_sum-tally_of,
  check_index-tally_of,
}

module _ {ℓ} {T : Type ℓ} ⦃r : Arith T⦄ where
  get_elem?-middle :
      (l : List (Row T)) (x : Row T) (rest : List (Row T))
      → get_elem? (l ++ (x ∷ rest)) (length l) ≡ some x
  get_elem?-middle [] x rest = refl
  get_elem?-middle (y ∷ l) x rest = get_elem?-middle l x rest

  indices-tally_of :
      (g : Gold T) (done rest : List (Row T)) (i : ℕ) (cs : List (Report T))
      → i ≡ length done
      → for_each
          (range_from i (length rest))
          (check_index g (arrays_of (done ++ rest)))
          (tally_of (failures cs))
        ≡ ok (tally_of (failures (cs ++ rows_checks g i rest)))
  unfolding for_each range_from
  indices-tally_of g done [] i cs e = rw append-nil refl
  indices-tally_of g done (x ∷ rest) i cs e =
      let here : get_elem? (done ++ (x ∷ rest)) i ≡ some x = rw e (get_elem?-middle done x rest) in
      let later : (done ++ (x ∷ [])) ++ rest ≡ done ++ (x ∷ rest) =
        append_assoc done (x ∷ []) rest in
      let ih =
        indices-tally_of g (done ++ (x ∷ [])) rest (i + 1) (cs ++ row_checks g i x)
          (omega (arith, length-append done (x ∷ []))) in
      rw (check_index-tally_of g (done ++ (x ∷ rest)) i cs here) (
        subst
          (λ m.
            for_each (range_from (i + 1) (length rest)) (check_index g (arrays_of m))
              (tally_of (failures (cs ++ row_checks g i x)))
            ≡ ok (tally_of (failures (cs ++ (row_checks g i x ++ rows_checks g (i + 1) rest)))))
          later (rw (← append_assoc cs (row_checks g i x) (rows_checks g (i + 1) rest)) ih))

  -- Every comparison of a validation, in the order of the code.
  abbrev pub all_checks : Options → Gold T → List (Row T) → T → List (Report T)
  all_checks o g l sum = sum_checks o.selection sum g.s ++ rows_checks g 0 l

  -- A validation never reads outside the arrays; it counts every failure, and prints the first ten.
  pub validate_tally :
      (o : Options) (g : Gold T) (l : List (Row T)) (sum : T)
      → gold_solution o ≡ ok g
      → length l ≡ o.array_size
      → validate o (arrays_of l) sum ≡ ok (tally_of (failures (all_checks o g l sum)))
  unfolding validate
  validate_tally o g l sum gold size =
      rw (gold, check_sum-tally_of o.selection sum g.s, ← size)
        (indices-tally_of g [] l 0 (sum_checks o.selection sum g.s) refl)

  -- The exit status is 1 exactly when a comparison fails and errors are not silenced.
  pub check_solution_lem :
      (o : Options) (g : Gold T) (l : List (Row T)) (sum : T)
      → gold_solution o ≡ ok g
      → length l ≡ o.array_size
      → let bad = failures (all_checks o g l sum) in
        check_solution o (arrays_of l) sum
        ≡ (if ltb 0 (length bad) && not o.silence_errors then exited 1 else ok (tally_of bad))
  unfolding check_solution
  check_solution_lem o g l sum gold size = rw (validate_tally o g l sum gold size) refl

  failures-eq-nil : (cs : List (Report T)) → All (λ c. differs c ≡ false) cs → failures cs ≡ []
  unfolding failures
  failures-eq-nil [] h = refl
  failures-eq-nil (c ∷ cs) (e, h) = rw (e, failures-eq-nil cs h) refl

  -- The values that the reference ends with pass a comparison with themselves (not so a NaN).
  pub record IsStable (g : Gold T) : Type 0 where
    pub a : differs (item "a" 0 g.a g.a) ≡ false
    pub b : differs (item "b" 0 g.b g.b) ≡ false
    pub c : differs (item "c" 0 g.c g.c) ≡ false

  abbrev pub SumPasses : T → T → Type 0
  SumPasses v should =
      differs
        (record { name = "sum"; index = none; is = v; should = should; max_rel = max_rel_dot })
      ≡ false

  rows_checks-replicate :
      (g : Gold T)
      → IsStable g
      → (i n : ℕ)
      → All
          (λ c. differs c ≡ false)
          (rows_checks g i (replicate n (record { a = g.a; b = g.b; c = g.c })))
  unfolding differs
  rows_checks-replicate g stable i zero = tt
  rows_checks-replicate g stable i (suc n) =
      (stable.a, (stable.b, (stable.c, rows_checks-replicate g stable (i + 1) n)))

  sum_checks_pass :
      (selection : BenchId) (v should : T)
      → SumPasses v should
      → All (λ c. differs c ≡ false) (sum_checks selection v should)
  sum_checks_pass selection v should h = elim (Bool-cases (run_benchmark selection dot_bench)) [
    | inl e ↦ rw e (h, tt)
    | inr e ↦ rw e tt
  ]

  -- Arrays that hold the reference at every index pass, and nothing is printed.
  pub check_solution_passes :
      (o : Options) (g : Gold T) (sum : T)
      → gold_solution o ≡ ok g
      → IsStable g
      → SumPasses sum g.s
      → check_solution o
          (arrays_of (replicate o.array_size (record { a = g.a; b = g.b; c = g.c })))
          sum
        ≡ ok (record { failed = 0; reports = [] })
  check_solution_passes o g sum gold stable passes =
      let l : List (Row T) = replicate o.array_size (record { a = g.a; b = g.b; c = g.c }) in
      let none_bad : failures (all_checks o g l sum) ≡ [] = failures-eq-nil (all_checks o g l sum) (
        All-append (λ c. differs c ≡ false) (sum_checks o.selection sum g.s) (rows_checks g 0 l)
          (sum_checks_pass o.selection sum g.s passes)
          (rows_checks-replicate g stable 0 o.array_size)) in
      rw (check_solution_lem o g l sum gold (length-replicate o.array_size _), none_bad) refl
