-- ===== src/Backend/Grid/Exact.antt =====
-- In exact arithmetic the sum over a grid is the dot product, whatever the shape of the grid.
use babel_stream.Prelude.{
  ℕ, zero, suc, ◌+◌, ◌^◌, ◌≡◌, refl, sym, ap, ◌∙◌, fun_ext, List, length, arith,
}
use babel_stream.Arith.{Arith, ◌⊕◌, IsExact}
use babel_stream.Loop.{range, range_from}
use babel_stream.Loop.Schedule.{range-IsSchedule}
use babel_stream.Loop.Sums.{add_up, add_up-append, add_up_schedule, sum_below, add_nought}
use babel_stream.Stream.{Row}
use babel_stream.Stream.Dot.{product_at, dot_rows, add_up_from}
use babel_stream.Backend.Grid.Cover.{
  IsGrid, visited, concat_from, block_visited, grid_visited, grid_visited-IsSchedule,
}
use babel_stream.Backend.Grid.Halving.{tree_sum}
use babel_stream.Backend.Grid.Reduction.{lane_value, grid_sum}

module _ {ℓ} {T : Type ℓ} ⦃r : Arith T⦄ (exact : IsExact T) where
  open exact use {nought_add, add_assoc, add_comm}

  add_swap : (w x y z : T) → (w ⊕ x) ⊕ (y ⊕ z) ≡ (w ⊕ y) ⊕ (x ⊕ z)
  add_swap w x y z =
      cc (
        add_assoc w x (y ⊕ z),
        add_assoc x y z,
        add_comm x y,
        add_assoc y x z,
        add_assoc w y (x ⊕ z),
      )

  sum_below_pairs :
      (n : ℕ) (g h : ℕ → T) → sum_below n (λ i. g i ⊕ h i) ≡ sum_below n g ⊕ sum_below n h
  unfolding sum_below
  sum_below_pairs zero g h = sym (nought_add r.nought)
  sum_below_pairs (suc n) g h =
      rw (sum_below_pairs n g h) (add_swap (g n) (h n) (sum_below n g) (sum_below n h))

  sum_below_add :
      (n m : ℕ) (g : ℕ → T) → sum_below (n + m) g ≡ sum_below n g ⊕ sum_below m (λ i. g (i + n))
  unfolding sum_below
  sum_below_add n zero g =
      ap (λ k. sum_below k g) (omega arith) ∙ sym (add_nought exact (sum_below n g))
  sum_below_add n (suc m) g =
      let e : n + suc m ≡ suc (n + m) = omega arith in
      let c : n + m ≡ m + n = omega arith in
      ap (λ k. sum_below k g) e
      ∙ (ap (λ y. g (n + m) ⊕ y) (sum_below_add n m g)
          ∙ (ap (λ k. g k ⊕ (sum_below n g ⊕ sum_below m (λ i. g (i + n)))) c
              ∙ cc (
                add_assoc (g (m + n)) (sum_below n g) (sum_below m (λ i. g (i + n))),
                add_comm (g (m + n)) (sum_below n g),
                add_assoc (sum_below n g) (g (m + n)) (sum_below m (λ i. g (i + n))),
              )))

  -- The tree adds up every slot once.
  pub tree_sum-sum_below : (k : ℕ) (g : ℕ → T) → tree_sum k g ≡ sum_below (2 ^ k) g
  unfolding tree_sum sum_below
  tree_sum-sum_below zero g = sym (add_nought exact (g 0))
  tree_sum-sum_below (suc k) g =
      let e : 2 ^ k + 2 ^ k ≡ 2 ^ suc k = omega arith in
      tree_sum-sum_below k (λ i. g i ⊕ g (i + 2 ^ k))
      ∙ (sum_below_pairs (2 ^ k) g (λ i. g (i + 2 ^ k))
          ∙ (sym (sum_below_add (2 ^ k) (2 ^ k) g) ∙ ap (λ n. sum_below n g) e))

  add_up-range : (n : ℕ) (g : ℕ → T) → add_up (range n) g r.nought ≡ sum_below n g
  add_up-range n g =
      add_up_schedule exact n g (range n) r.nought (range-IsSchedule n) ∙ nought_add _

  add_up-concat_from :
      (f : ℕ → List ℕ) (first num : ℕ) (g : ℕ → T) (z : T)
      → add_up (concat_from f first num) g z
        ≡ add_up (range_from first num) (λ i. add_up (f i) g r.nought) z
  unfolding add_up concat_from range_from
  add_up-concat_from f first zero g z = refl
  add_up-concat_from f first (suc num) g z =
      add_up-append (f first) (concat_from f (first + 1) num) g z
      ∙ (ap (add_up (concat_from f (first + 1) num) g) (add_up_from exact (f first) g z)
          ∙ add_up-concat_from f (first + 1) num g (z ⊕ add_up (f first) g r.nought))

  -- A block adds up what its lanes visit.
  tree_sum-block :
      (start : ℕ → ℕ → ℕ) (m stride n : ℕ) (g : ℕ → T) (b : ℕ)
      → tree_sum m (lane_value start stride n g b)
        ≡ add_up (block_visited (start b) stride n (2 ^ m)) g r.nought
  tree_sum-block start m stride n g b =
      tree_sum-sum_below m (lane_value start stride n g b)
      ∙ (sym (add_up-range (2 ^ m) (lane_value start stride n g b))
          ∙ sym (add_up-concat_from (λ t. visited (start b t) stride n) 0 (2 ^ m) g r.nought))

  -- The sum over a grid that covers the rows is the dot product.
  pub grid_sum-dot_rows :
      (start : ℕ → ℕ → ℕ) (m stride blocks : ℕ) (l : List (Row T))
      → IsGrid start stride (length l) (2 ^ m) blocks
      → grid_sum start m stride (length l) blocks (product_at l) ≡ dot_rows l
  unfolding grid_sum dot_rows
  grid_sum-dot_rows start m stride blocks l grid =
      let n = length l in
      let g = product_at l in
      let visits : List ℕ = grid_visited start stride (length l) (2 ^ m) blocks in
      ap (λ v. add_up (range blocks) v r.nought)
        (fun_ext (λ b. tree_sum-block start m stride n g b))
      ∙ (sym
            (add_up-concat_from (λ b. block_visited (start b) stride n (2 ^ m)) 0 blocks g r.nought)
          ∙ (add_up_schedule exact n g visits r.nought (grid_visited-IsSchedule grid)
              ∙ nought_add (sum_below n g)))
