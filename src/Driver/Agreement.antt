-- ===== src/Driver/Agreement.antt =====
-- `run_all` and the reference solution of `check_solution` in src/main.cpp, over any back end.
use babel_stream.Prelude.{
  ℕ, zero, suc, ◌+◌, ◌≡◌, refl, subst, none, Bool-cases, inl, inr, List, [], ◌∷◌, map, replicate,
  map-replicate, length, length-append, length-replicate, All, Run, ok, ◌>>=◌, Returns,
  if◌then◌else◌, arith,
}
use babel_stream.Arith.{Arith, ◌⊗◌}
use babel_stream.Benchmark.{
  BenchId, Benchmark, bench, num_benchmarks, run_benchmark, copy, mul, add, triad, nstream, dot,
  all,
}
use babel_stream.Options.{Options, BenchOrder, isolated}
use babel_stream.Stream.{
  Stream, Row, Implements, copy_row, mul_row, add_row, triad_row, nstream_row,
}
use babel_stream.Driver.RunAll.{
  World, Host, reserve_all, run_kernel, time, repeat, classic_round, classic_rounds, isolated_runs,
  run_all,
}
use babel_stream.Driver.Gold.{
  Gold, gold_start, gold_step, gold_repeat, gold_round, gold_rounds, gold_isolated, gold_solution,
}

abbrev IsKernel : BenchId → Type 0
IsKernel BenchId.classic = ⊥
IsKernel all = ⊥
IsKernel _ = Unit

bench-All : All (λ b. IsKernel b.id) bench
bench-All = (tt, (tt, (tt, (tt, (tt, (tt, tt))))))

abbrev gold_row {ℓ} : {T : Type ℓ} → Gold T → Row T
gold_row g = record { a = g.a; b = g.b; c = g.c }

-- Each selected benchmark has `k` times, each other one none.
abbrev pub Recorded {κ} : {D : Type κ} → BenchId → ℕ → List Benchmark → List (List D) → Type 0
Recorded selection k [] [] = Unit
Recorded selection k [] (_ ∷ _) = ⊥
Recorded selection k (_ ∷ _) [] = ⊥
Recorded selection k (b ∷ bs) (ts ∷ tss) =
    (length ts ≡ (if run_benchmark selection b then k else 0)) × Recorded selection k bs tss

module _ {ℓ κ} {T : Type ℓ} {D : Type κ} ⦃r : Arith T⦄ ⦃d : Arith D⦄ (S : Stream T) (host : Host D)
    {Holds : S.State → List (Row T) → Type ℓ} {Dots : List (Row T) → T → Type ℓ}
    (lawful : Implements S Holds Dots) (n : ℕ) (Close : T → T → Type 0)
    (dots : (x : Row T) (v : T) → Dots (replicate n x) v → Close v (x.a ⊗ x.b ⊗ r.of_nat n)) where
  -- The arrays hold the reference values at every index, and `sum` is close to `goldS`.
  pub record Agrees (w : World T S) (g : Gold T) : Type ℓ where
    pub rows : Holds w.stream (replicate n (gold_row g))
    pub sums : Close w.sum g.s

  step :
      (f : Row T → Row T) (m : S.State → Run S.State)
      (m_ok : (s : S.State) (l : List (Row T)) → Holds s l → Returns (m s) (λ t. Holds t (map f l)))
      (w : World T S) (g g' : Gold T)
      → Agrees w g
      → f (gold_row g) ≡ gold_row g'
      → g'.s ≡ g.s
      → Returns (m w.stream >>= λ t. ok (record w { stream = t })) (λ w'. Agrees w' g')
  step f m m_ok w g g' h e same =
      let (t, run, held) = m_ok w.stream (replicate n (gold_row g)) h.rows in
      rw run (
        record w { stream = t },
        refl,
        record { rows = rw (map-replicate f n (gold_row g), e) at held; sums = rw same h.sums },
      )

  run_kernel-Agrees :
      (id : BenchId)
      → IsKernel id
      → (w : World T S) (g : Gold T) → Agrees w g
      → (g' : Gold T) × (gold_step n id g ≡ ok g')
        × Returns (run_kernel S host id w) (λ w'. Agrees w' g')
  unfolding run_kernel gold_step
  run_kernel-Agrees copy _ w g h = (_, refl, step copy_row S.copy lawful.copy_ok w g _ h refl refl)
  run_kernel-Agrees mul _ w g h = (_, refl, step mul_row S.mul lawful.mul_ok w g _ h refl refl)
  run_kernel-Agrees add _ w g h = (_, refl, step add_row S.add lawful.add_ok w g _ h refl refl)
  run_kernel-Agrees triad _ w g h =
      (_, refl, step triad_row S.triad lawful.triad_ok w g _ h refl refl)
  run_kernel-Agrees nstream _ w g h =
      (_, refl, step nstream_row S.nstream lawful.nstream_ok w g _ h refl refl)
  run_kernel-Agrees dot _ w g h =
      let (v, run, (good, held)) = lawful.dot_ok w.stream (replicate n (gold_row g)) h.rows in
      (
        _,
        refl,
        rw run (
          record w { stream = v.1; sum = v.0 },
          refl,
          record { rows = held; sums = dots (gold_row g) v.0 good },
        ),
      )
  run_kernel-Agrees BenchId.classic k w g h = absurd k
  run_kernel-Agrees all k w g h = absurd k

  -- Reading the clock changes nothing that the reference describes.
  time-Agrees :
      (f : World T S → Run (World T S)) (w : World T S) (g' : Gold T)
      → Returns (f (record w { ticks = w.ticks + 1 })) (λ w'. Agrees w' g')
      → Returns (time S host f w) (λ v. Agrees v.1 g')
  unfolding time
  time-Agrees f w g' (w', run, h) = rw run (_, refl, record { rows = h.rows; sums = h.sums })

  tick : (w : World T S) (g : Gold T) → Agrees w g → Agrees (record w { ticks = w.ticks + 1 }) g
  tick w g h = record { rows = h.rows; sums = h.sums }

  repeat-Agrees :
      (times : ℕ) (id : BenchId)
      → IsKernel id
      → (w : World T S) (g : Gold T) → Agrees w g
      → (g' : Gold T) × (gold_repeat n times id g ≡ ok g')
        × Returns (repeat S host times id w) (λ w'. Agrees w' g')
  unfolding repeat gold_repeat
  repeat-Agrees zero id k w g h = (g, refl, (w, refl, h))
  repeat-Agrees (suc times) id k w g h =
      let (g', gold, (w', run, h')) = run_kernel-Agrees id k w g h in
      rw (gold, run) (repeat-Agrees times id k w' g' h')

  classic_round-Agrees :
      (selection : BenchId) (bs : List Benchmark)
      → All (λ b. IsKernel b.id) bs
      → (k : ℕ) (tss : List (List D)) → Recorded selection k bs tss
      → (w : World T S) (g : Gold T) → Agrees w g
      → (g' : Gold T) × (gold_round n selection bs g ≡ ok g')
        × Returns
            (classic_round S host selection bs tss w)
            (λ v. Agrees v.1 g' × Recorded selection (k + 1) bs v.0)
  unfolding classic_round gold_round
  classic_round-Agrees selection [] ks k [] _ w g h = (g, refl, (([], w), refl, (h, tt)))
  classic_round-Agrees selection [] ks k (_ ∷ _) r w g h = absurd r
  classic_round-Agrees selection (b ∷ bs) ks k [] r w g h = absurd r
  classic_round-Agrees selection (b ∷ bs) (kb, ks) k (ts ∷ tss) (l, ls) w g h =
      elim (Bool-cases (run_benchmark selection b)) [
        | inl e ↦
            let (g₁, gold₁, ran) = run_kernel-Agrees b.id kb _ g (tick w g h) in
            let (v, run₁, h₁) = time-Agrees (run_kernel S host b.id) w g₁ ran in
            let (g₂, gold₂, (u, run₂, (h₂, r₂))) =
              classic_round-Agrees selection bs ks k tss ls v.1 g₁ h₁ in
            let old : length ts ≡ k = rw e at l in
            rw (e, gold₁, run₁, gold₂, run₂)
              (g₂, refl, (_, refl, (h₂, (rw e (omega (arith, length-append ts (v.0 ∷ []))), r₂))))
        | inr e ↦
            let (g₂, gold₂, (u, run₂, (h₂, r₂))) =
              classic_round-Agrees selection bs ks k tss ls w g h in
            rw (e, gold₂, run₂) (g₂, refl, (_, refl, (h₂, (rw e (rw e at l), r₂))))
      ]

  classic_rounds-Agrees :
      (times : ℕ) (selection : BenchId) (k : ℕ) (tss : List (List D))
      → Recorded selection k bench tss
      → (w : World T S) (g : Gold T) → Agrees w g
      → (g' : Gold T) × (gold_rounds n times selection g ≡ ok g')
        × Returns
            (classic_rounds S host times selection tss w)
            (λ v. Agrees v.1 g' × Recorded selection (k + times) bench v.0)
  unfolding classic_rounds gold_rounds
  classic_rounds-Agrees zero selection k tss r w g h =
      let e : k ≡ k + zero = omega arith in
      (g, refl, ((tss, w), refl, (h, subst (λ m. Recorded selection m bench tss) e r)))
  classic_rounds-Agrees (suc times) selection k tss r w g h =
      let (g₁, gold₁, (v, run₁, (h₁, r₁))) =
        classic_round-Agrees selection bench bench-All k tss r w g h in
      let (g₂, gold₂, (u, run₂, (h₂, r₂))) =
        classic_rounds-Agrees times selection (k + 1) v.0 r₁ v.1 g₁ h₁ in
      let e : k + 1 + times ≡ k + suc times = omega arith in
      rw (gold₁, run₁, gold₂, run₂)
        (g₂, refl, (u, refl, (h₂, subst (λ m. Recorded selection m bench u.0) e r₂)))

  isolated_runs-Agrees :
      (times : ℕ) (selection : BenchId) (bs : List Benchmark)
      → All (λ b. IsKernel b.id) bs
      → (w : World T S) (g : Gold T) → Agrees w g
      → (g' : Gold T) × (gold_isolated n times selection bs g ≡ ok g')
        × Returns
            (isolated_runs S host times selection bs w)
            (λ v. Agrees v.1 g' × Recorded selection times bs v.0)
  unfolding isolated_runs gold_isolated
  isolated_runs-Agrees times selection [] ks w g h = (g, refl, (([], w), refl, (h, tt)))
  isolated_runs-Agrees times selection (b ∷ bs) (kb, ks) w g h =
      elim (Bool-cases (run_benchmark selection b)) [
        | inl e ↦
            let (g₁, gold₁, ran) = repeat-Agrees times b.id kb _ g (tick w g h) in
            let (v, run₁, h₁) = time-Agrees (repeat S host times b.id) w g₁ ran in
            let (g₂, gold₂, (u, run₂, (h₂, r₂))) =
              isolated_runs-Agrees times selection bs ks v.1 g₁ h₁ in
            rw (e, gold₁, run₁, gold₂, run₂)
              (g₂, refl, (_, refl, (h₂, (rw e (length-replicate times _), r₂))))
        | inr e ↦
            let (g₂, gold₂, (u, run₂, (h₂, r₂))) =
              isolated_runs-Agrees times selection bs ks w g h in
            rw (e, gold₂, run₂) (g₂, refl, (_, refl, (h₂, (rw e refl, r₂))))
      ]

  reserve_all_ok :
      (times : ℕ) (selection : BenchId) (bs : List Benchmark)
      → host.refuses times ≡ none
      → reserve_all host times selection bs ≡ ok tt
  unfolding reserve_all
  reserve_all_ok times selection [] roomy = refl
  reserve_all_ok times selection (b ∷ bs) roomy = elim (Bool-cases (run_benchmark selection b)) [
    | inl e ↦ rw (e, roomy) (reserve_all_ok times selection bs roomy)
    | inr e ↦ rw e (reserve_all_ok times selection bs roomy)
  ]

  none-Recorded :
      (selection : BenchId) (bs : List Benchmark)
      → Recorded {D = D} selection 0 bs (replicate (length bs) [])
  none-Recorded selection [] = tt
  none-Recorded selection (b ∷ bs) = (
    elim (Bool-cases (run_benchmark selection b)) [ inl e ↦ rw e refl | inr e ↦ rw e refl ],
    none-Recorded selection bs,
  )

  -- From equal states, and if there is room for the times, both orders end normally in a state that
  -- holds the reference solution at every index, and every selected benchmark has as many times as
  -- were asked for.
  pub run_all-Agrees :
      (o : Options)
      → o.array_size ≡ n
      → host.refuses o.num_times ≡ none
      → (w : World T S) → Agrees w gold_start
      → (g : Gold T) × (gold_solution o ≡ ok g)
        × Returns
            (run_all S host o w)
            (λ v. Agrees v.1 g × Recorded o.selection o.num_times bench v.0)
  unfolding run_all gold_solution
  run_all-Agrees o size roomy w h = ordered o.order
    where
      ordered :
          (order : BenchOrder)
          → let o' = record o { order = order } in
            (g : Gold T) × (gold_solution o' ≡ ok g)
            × Returns
                (run_all S host o' w)
                (λ v. Agrees v.1 g × Recorded o.selection o.num_times bench v.0)
      ordered BenchOrder.classic =
          let (g, gold, (v, run, (h', rec))) =
            classic_rounds-Agrees o.num_times o.selection 0 (replicate num_benchmarks [])
              (none-Recorded o.selection bench) w gold_start h in
          let e : 0 + o.num_times ≡ o.num_times = omega arith in
          rw (size, reserve_all_ok o.num_times o.selection bench roomy)
            (g, gold, (v, run, (h', subst (λ m. Recorded o.selection m bench v.0) e rec)))
      ordered isolated =
          rw (size, reserve_all_ok o.num_times o.selection bench roomy)
            (isolated_runs-Agrees o.num_times o.selection bench bench-All w gold_start h)
