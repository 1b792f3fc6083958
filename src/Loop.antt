-- ===== src/Loop.antt =====
-- `for` loops over an index set, in the order that a schedule gives, and the accesses to an array in
-- their bodies.
pub mod Schedule
pub mod Updates
pub mod Chains
pub mod Sums
use babel_stream.Prelude.{
  ℕ, zero, suc, ◌+◌, List, [], ◌∷◌, Run, ok, fault, ◌>>=◌, defined, get_elem?,
}

-- `xs[i]`
unfoldable pub read {ℓ} : {A : Type ℓ} → List A → ℕ → Run A
read xs i = defined (get_elem? xs i)

-- `xs[i] = v`
unfoldable pub store {ℓ} : {A : Type ℓ} → List A → ℕ → A → Run (List A)
store [] i v = fault
store (x ∷ xs) zero v = ok (v ∷ xs)
store (x ∷ xs) (suc i) v = do ys ← store xs i v; ok (x ∷ ys)

-- `body` at each index of the list, in its order.
unfoldable pub for_each {ℓ} : {S : Type ℓ} → List ℕ → (ℕ → S → Run S) → S → Run S
for_each [] body s = ok s
for_each (i ∷ is) body s = body i s >>= for_each is body

-- `first, first + 1, …`, as many as `count`.
unfoldable pub range_from : (first count : ℕ) → List ℕ
range_from first zero = []
range_from first (suc count) = first ∷ range_from (first + 1) count

-- The indices of `for (i = 0; i < n; i++)`.
abbrev pub range : ℕ → List ℕ
range n = range_from 0 n
