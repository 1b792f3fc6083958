-- ===== src/Stream.antt =====
-- src/Stream.h: the interface of a back end, and what the driver relies on. An implementation keeps
-- three arrays of the same length; `Row` is one index of all three.
pub mod Kernels
pub mod Laws
pub mod Dot
pub mod Footprint
use babel_stream.Prelude.{◌≡◌, List, map, replicate, ℕ, Run, Returns}
use babel_stream.Arith.{Arith, ◌⊕◌, ◌⊗◌}
use babel_stream.Benchmark.{start_scalar}

pub record Arrays {ℓ} (T : Type ℓ) : Type ℓ where
  pub a : List T
  pub b : List T
  pub c : List T

-- `class Stream`. A state is the object; `get_arrays` gives what the host reads through the pointers.
pub record Stream {ℓ} (T : Type ℓ) : Type (ℓ + 1) where
  pub State : Type ℓ
  pub copy : State → Run State
  pub mul : State → Run State
  pub add : State → Run State
  pub triad : State → Run State
  pub nstream : State → Run State
  pub dot : State → Run (T × State)
  pub get_arrays : State → Run (Arrays T × State)

-- One index of the three arrays.
pub record Row {ℓ} (T : Type ℓ) : Type ℓ where
  pub a : T
  pub b : T
  pub c : T

abbrev pub arrays_of {ℓ} : {T : Type ℓ} → List (Row T) → Arrays T
arrays_of l = record { a = map (λ r. r.a) l; b = map (λ r. r.b) l; c = map (λ r. r.c) l }

-- What each kernel does at an index.
module _ {ℓ} {T : Type ℓ} ⦃r : Arith T⦄ where
  abbrev pub copy_row : Row T → Row T
  copy_row x = record x { c = x.a }

  abbrev pub mul_row : Row T → Row T
  mul_row x = record x { b = start_scalar ⊗ x.c }

  abbrev pub add_row : Row T → Row T
  add_row x = record x { c = x.a ⊕ x.b }

  abbrev pub triad_row : Row T → Row T
  triad_row x = record x { a = x.b ⊕ start_scalar ⊗ x.c }

  abbrev pub nstream_row : Row T → Row T
  nstream_row x = record x { a = x.a ⊕ (x.b ⊕ start_scalar ⊗ x.c) }

-- The contract of a back end: `Holds s l` says that the object `s` keeps the rows `l`, and
-- `Dots l v` what `dot` may return for them.
pub record Implements {ℓ} {T : Type ℓ} ⦃r : Arith T⦄ (S : Stream T)
    (Holds : S.State → List (Row T) → Type ℓ) (Dots : List (Row T) → T → Type ℓ) : Type ℓ where
  pub copy_ok :
      (s : S.State) (l : List (Row T))
      → Holds s l
      → Returns (S.copy s) (λ t. Holds t (map copy_row l))
  pub mul_ok :
      (s : S.State) (l : List (Row T))
      → Holds s l
      → Returns (S.mul s) (λ t. Holds t (map mul_row l))
  pub add_ok :
      (s : S.State) (l : List (Row T))
      → Holds s l
      → Returns (S.add s) (λ t. Holds t (map add_row l))
  pub triad_ok :
      (s : S.State) (l : List (Row T))
      → Holds s l
      → Returns (S.triad s) (λ t. Holds t (map triad_row l))
  pub nstream_ok :
      (s : S.State) (l : List (Row T))
      → Holds s l
      → Returns (S.nstream s) (λ t. Holds t (map nstream_row l))
  pub dot_ok :
      (s : S.State) (l : List (Row T))
      → Holds s l
      → Returns (S.dot s) (λ v. Dots l v.0 × Holds v.1 l)
  pub get_arrays_ok :
      (s : S.State) (l : List (Row T))
      → Holds s l
      → Returns (S.get_arrays s) (λ v. (v.0 ≡ arrays_of l) × Holds v.1 l)
