-- ===== src/Backend/Grid/Reduction.antt =====
-- The reduction kernel and the sum on the host, whatever the device chooses.
use babel_stream.Prelude.{
  ◌∙◌, ℕ, zero, suc, ◌+◌, ◌^◌, ◌<◌, ◌≤◌, ◌≡◌, refl, subst, true, List, [], ◌∷◌, length, Run, ok,
  ◌>>=◌, arith, get_elem?, some,
}
use babel_stream.Arith.{Arith, ◌⊕◌}
use babel_stream.Loop.{for_each, read, store, range, range_from}
use babel_stream.Loop.Schedule.{IsSchedule}
use babel_stream.Loop.Sums.{add_up}
use babel_stream.Loop.Chains.{Shows, read-Shows, IsScatter, for_each-scatter}
use babel_stream.Stream.{Row, arrays_of}
use babel_stream.Stream.Dot.{product_at, for_each-dot}
use babel_stream.Backend.Grid.{
  Device, IsDevice, lane_sum, fill_body, block_reduce, reduce_kernel, reduce_lanes, host_sum,
}
use babel_stream.Backend.Grid.Cover.{IsGrid, visited, visited_ok}
use babel_stream.Backend.Grid.Halving.{tree_sum, halve_loop_ok, lt_two_pow}

module _ {ℓ} {T : Type ℓ} ⦃r : Arith T⦄ where
  -- What lane `t` of block `b` adds up.
  abbrev pub lane_value : (ℕ → ℕ → ℕ) → (stride n : ℕ) → (ℕ → T) → ℕ → ℕ → T
  lane_value start stride n g b t = add_up (visited (start b t) stride n) g r.nought

  -- The sum over a grid of `blocks` blocks of `2 ^ m` lanes: from the left in each lane, by a tree in
  -- each block, from the left over the blocks.
  unfoldable pub grid_sum : (ℕ → ℕ → ℕ) → (m stride n blocks : ℕ) → (ℕ → T) → T
  grid_sum start m stride n blocks g =
      add_up (range blocks) (λ b. tree_sum m (lane_value start stride n g b)) r.nought

  -- `store` at each index, of a value that does not depend on the list.
  store-IsScatter :
      (n : ℕ) (body : ℕ → List T → Run (List T)) (v : ℕ → T)
      → ((i : ℕ) (xs : List T) → i < n → body i xs ≡ store xs i (v i))
      → IsScatter n body (λ _. true) (λ cur. v)
  store-IsScatter n body v h = record {
    write = λ cur xs i s lt w. h i xs lt;
    skip = λ xs i w. cc w;
    stable = λ cur i j x w w' e. refl;
  }

  -- Any list of that length shows its own items.
  own_items : (xs : List T) → (cur : ℕ → T) × Shows (length xs) cur xs
  own_items [] = (λ i. r.nought, record { size = refl; items = λ i lt. absurd (omega arith) })
  own_items (x ∷ xs) =
      let (cur, s) = own_items xs in (later x cur, record { size = refl; items = shown cur s })
    where
      later : T → (ℕ → T) → ℕ → T
      later y f zero = y
      later y f (suc i) = f i

      shown :
          (cur : ℕ → T)
          → Shows (length xs) cur xs
          → (i : ℕ) → i < length (x ∷ xs)
          → get_elem? (x ∷ xs) i ≡ some (later x cur i)
      shown cur s zero lt = refl
      shown cur s (suc i) lt = s.items i (omega arith)

  scatter_any :
      (n : ℕ) (body : ℕ → List T → Run (List T)) (v : ℕ → T)
      → ((i : ℕ) (xs : List T) → i < n → body i xs ≡ store xs i (v i))
      → (is : List ℕ) (xs : List T) → IsSchedule n is
      → length xs ≡ n
      → (ys : List T) × (for_each is body xs ≡ ok ys) × Shows n v ys
  scatter_any n body v h is xs sched e =
      let (cur, s) = own_items xs in
      for_each-scatter n body (λ _. true) (λ cur. v) (store-IsScatter n body v h) is cur xs sched
        (subst (λ k. Shows k cur xs) e s)

  -- A reduction whose lanes add up `v b t`, in any way.
  module _ (dev : Device) (good : IsDevice dev) (k m blocks : ℕ) (lane : ℕ → ℕ → Run T)
      (v : ℕ → ℕ → T) (lane_ok : (b t : ℕ) → b < blocks → t < 2 ^ m → lane b t ≡ ok (v b t)) where
    block_reduce_ok :
        (b : ℕ) (shared : List T)
        → b < blocks
        → length shared ≡ 2 ^ m
        → block_reduce dev k b (lane b) (2 ^ m) shared ≡ ok (tree_sum m (v b))
    unfolding block_reduce fill_body
    block_reduce_ok b shared hb size =
        let (ys, e, s) =
          scatter_any (2 ^ m) (fill_body (lane b)) (v b) (λ t xs ht. rw (lane_ok b t hb ht) refl)
            (dev.lanes k b 0 (2 ^ m)) shared (good.lanes_ok k b 0 (2 ^ m)) size in
        let (zs, e', w) =
          halve_loop_ok (λ p. dev.lanes k b p (2 ^ m)) (2 ^ m) m (suc (2 ^ m)) 1 (v b) ys
            (λ p. good.lanes_ok k b p (2 ^ m)) (omega arith) (omega (arith, lt_two_pow m)) s in
        rw (e, e') w

    -- The kernel leaves the sum of each block in its slot.
    reduce_lanes_ok :
        (shared : ℕ → List T) (sums : List T)
        → ((b : ℕ) → length (shared b) ≡ 2 ^ m)
        → length sums ≡ blocks
        → (ys : List T) × (reduce_lanes dev k lane (2 ^ m) blocks shared sums ≡ ok ys)
          × Shows blocks (λ b. tree_sum m (v b)) ys
    unfolding reduce_lanes
    reduce_lanes_ok shared sums room size =
        scatter_any blocks _ (λ b. tree_sum m (v b))
          (λ b xs hb. rw (block_reduce_ok b (shared b) hb (room b)) refl) (dev.blocks k blocks) sums
          (good.blocks_ok k blocks) size

  add_shown :
      (n first num : ℕ) (v : ℕ → T) (ys : List T) (z : T)
      → first + num ≤ n
      → Shows n v ys
      → for_each (range_from first num) (λ i sum. do x ← read ys i; ok (sum ⊕ x)) z
        ≡ ok (add_up (range_from first num) v z)
  unfolding for_each range_from add_up
  add_shown n first zero v ys z h s = refl
  add_shown n first (suc num) v ys z h s =
      rw (read-Shows v ys first s (omega arith))
        (add_shown n (first + 1) num v ys (z ⊕ v first) (omega arith) s)

  pub host_sum_ok :
      (n : ℕ) (v : ℕ → T) (ys : List T)
      → Shows n v ys
      → host_sum n ys ≡ ok (add_up (range n) v r.nought)
  unfolding host_sum
  host_sum_ok n v ys s = add_shown n 0 n v ys r.nought (omega arith) s

  module _ (dev : Device) (good : IsDevice dev) (k m : ℕ) (start : ℕ → ℕ → ℕ) {stride blocks : ℕ}
      (l : List (Row T)) (grid : IsGrid start stride (length l) (2 ^ m) blocks) where
    abbrev value : ℕ → ℕ → T
    value = lane_value start stride (length l) (product_at l)

    pub lane_sum_ok :
        (b t : ℕ)
        → b < blocks
        → t < 2 ^ m
        → lane_sum (arrays_of l) (start b t) stride (length l) ≡ ok (value b t)
    unfolding lane_sum
    lane_sum_ok b t hb ht =
        let (e, h, _) = visited_ok grid b t hb ht in
        rw e (for_each-dot l (visited (start b t) stride (length l)) r.nought h)

    -- The kernel and the host together, for lanes that add up like strided loops.
    pub lanes_dot_ok :
        (lane : ℕ → ℕ → Run T)
        → ((b t : ℕ)
            → b < blocks
            → t < 2 ^ m
            → lane b t ≡ lane_sum (arrays_of l) (start b t) stride (length l))
        → (shared : ℕ → List T) (sums : List T) → ((b : ℕ) → length (shared b) ≡ 2 ^ m)
        → length sums ≡ blocks
        → (ys : List T) × (reduce_lanes dev k lane (2 ^ m) blocks shared sums ≡ ok ys)
          × (length ys ≡ blocks)
          × (host_sum blocks ys ≡ ok (grid_sum start m stride (length l) blocks (product_at l)))
    unfolding grid_sum
    lanes_dot_ok lane same shared sums room size =
        let (ys, e, s) =
          reduce_lanes_ok dev good k m blocks lane value
            (λ b t hb ht. same b t hb ht ∙ lane_sum_ok b t hb ht) shared sums room size in
        (ys, e, s.size, host_sum_ok blocks _ ys s)

    -- The same for strided loops.
    pub grid_dot_ok :
        (shared : ℕ → List T) (sums : List T)
        → ((b : ℕ) → length (shared b) ≡ 2 ^ m)
        → length sums ≡ blocks
        → (ys : List T) × (reduce_kernel dev k
              (arrays_of l)
              start
              stride
              (length l)
              (2 ^ m)
              blocks
              shared
              sums
            ≡ ok ys)
          × (length ys ≡ blocks)
          × (host_sum blocks ys ≡ ok (grid_sum start m stride (length l) blocks (product_at l)))
    unfolding reduce_kernel
    grid_dot_ok = lanes_dot_ok _ (λ b t hb ht. refl)
