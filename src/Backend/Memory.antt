-- ===== src/Backend/Memory.antt =====
-- Allocation as the back ends use it. What `aligned_alloc` and its like return is the environment's
-- choice: `alloc k n` is block `k`, with room for `n` items, which hold anything; `none` is a null
-- pointer. Where the source asks for `sizeof(T) * n` bytes, the product is taken modulo 2 ^ 64, and
-- the block has room for as many items as fit those bytes.
use native.Mathlib.Nat.{mul-div_cancel_left}
use babel_stream.Prelude.{
  ℕ, suc, ◌≡◌, refl, sym, ap, List, [], ◌∷◌, map, Option, some, length, replicate, Run, ok, ◌>>=◌,
  defined, arith, zero, ◌*◌, ◌%◌, ◌/◌, ◌^◌, ◌<◌,
}
use babel_stream.Loop.{for_each}
use babel_stream.Loop.Schedule.{IsSchedule}
use babel_stream.Stream.{Arrays, Row, arrays_of}
use babel_stream.Stream.Kernels.{init_body}
use babel_stream.Stream.Laws.{for_each-init}

abbrev pub Allocator {ℓ} : Type ℓ → Type ℓ
Allocator T = (block items : ℕ) → Option (List T)

-- Every allocation succeeds, with the room that was asked for.
abbrev pub IsAllocator {ℓ} : {T : Type ℓ} → Allocator T → Type ℓ
IsAllocator {T} alloc = (k n : ℕ) → (l : List T) × (alloc k n ≡ some l) × (length l ≡ n)

-- The items that fit `sizeof(T) * n` bytes.
unfoldable pub room : (size_of n : ℕ) → ℕ
room size_of n = (size_of * n % 2 ^ 64) / size_of

-- The bytes of `n` items do not wrap.
pub record IsSize (size_of n : ℕ) : Type 0 where
  pub some_bytes : 0 < size_of
  pub no_wrap : size_of * n < 2 ^ 64

pub room_ok : (size_of n : ℕ) → IsSize size_of n → room size_of n ≡ n
unfolding room
room_ok size_of n is =
    let same : size_of * n % 2 ^ 64 ≡ size_of * n = omega (arith, is.no_wrap) in
    rw same (mul-div_cancel_left n is.some_bytes)

module _ {ℓ} {T : Type ℓ} where
  -- The three arrays of a back end. The first access through a null pointer is what faults; every
  -- constructor makes one at once.
  unfoldable pub allocate : Allocator T → ℕ → Run (Arrays T)
  allocate alloc n = do
    a' ← defined (alloc 0 n)
    b' ← defined (alloc 1 n)
    c' ← defined (alloc 2 n)
    ok (record { a = a'; b = b'; c = c' })

  -- Three lists of one length are rows.
  abbrev pub rows : List T → List T → List T → List (Row T)
  rows (x ∷ xs) (y ∷ ys) (z ∷ zs) = record { a = x; b = y; c = z } ∷ rows xs ys zs
  rows _ _ _ = []

  pub arrays_of-rows :
      (n : ℕ) (xs ys zs : List T)
      → length xs ≡ n
      → length ys ≡ n
      → length zs ≡ n
      → (arrays_of (rows xs ys zs) ≡ record { a = xs; b = ys; c = zs })
        × (length (rows xs ys zs) ≡ n)
  arrays_of-rows zero [] [] [] p q s = (refl, refl)
  arrays_of-rows zero (_ ∷ _) ys zs p q s = absurd (omega arith)
  arrays_of-rows zero [] (_ ∷ _) zs p q s = absurd (omega arith)
  arrays_of-rows zero [] [] (_ ∷ _) p q s = absurd (omega arith)
  arrays_of-rows (suc n) [] ys zs p q s = absurd (omega arith)
  arrays_of-rows (suc n) (x ∷ xs) [] zs p q s = absurd (omega arith)
  arrays_of-rows (suc n) (x ∷ xs) (y ∷ ys) [] p q s = absurd (omega arith)
  arrays_of-rows (suc n) (x ∷ xs) (y ∷ ys) (z ∷ zs) p q s =
      let (e, m) = arrays_of-rows n xs ys zs (omega arith) (omega arith) (omega arith) in
      (ap (λ (t : Arrays T). record { a = x ∷ t.a; b = y ∷ t.b; c = z ∷ t.c }) e, ap suc m)

  pub map-const :
      (n : ℕ) (l : List (Row T)) (x : Row T) → length l ≡ n → map (λ _. x) l ≡ replicate n x
  map-const zero [] x e = refl
  map-const zero (_ ∷ _) x e = absurd (omega arith)
  map-const (suc n) [] x e = absurd (omega arith)
  map-const (suc n) (_ ∷ l) x e = ap (λ m. x ∷ m) (map-const n l x (omega arith))

  -- Fresh arrays are rows, whatever they hold.
  pub allocate_rows :
      (alloc : Allocator T)
      → IsAllocator alloc
      → (n : ℕ) → (l : List (Row T)) × (allocate alloc n ≡ ok (arrays_of l)) × (length l ≡ n)
  unfolding allocate
  allocate_rows alloc good n =
      let (xs, ex, nx) = good 0 n in
      let (ys, ey, ny) = good 1 n in
      let (zs, ez, nz) = good 2 n in
      let (e, m) = arrays_of-rows n xs ys zs nx ny nz in
      (rows xs ys zs, rw (ex, ey, ez) (ap ok (sym e)), m)

  -- Initialisation gives equal rows, whatever the arrays held before.
  pub for_each-init_replicate :
      (x y z : T) (is : List ℕ) (l : List (Row T)) (n : ℕ)
      → length l ≡ n
      → IsSchedule n is
      → for_each is (init_body x y z) (arrays_of l)
        ≡ ok (arrays_of (replicate n (record { a = x; b = y; c = z })))
  for_each-init_replicate x y z is l n e s =
      rw (for_each-init x y z is l (rw e s), map-const n l (record { a = x; b = y; c = z }) e) refl
