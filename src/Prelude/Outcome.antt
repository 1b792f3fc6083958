-- ===== src/Prelude/Outcome.antt =====
-- How a piece of the program ends: the C++ control flow that leaves a function early, as values.
use mathlib.Core.Path.{◌≡◌, refl}
use mathlib.Core.Option.{Option, none, some}
use Prim.Native.Nat.{ℕ}
use Prim.Native.String.{String}

-- `fault` is an access outside an array or any other undefined behaviour, `exited` a call of
-- `std::exit`, `hung` a loop that never ends, `threw` an uncaught exception with its message, `aborted` a call of `std::abort`.
pub data Run {ℓ} (V : Type ℓ) : Type ℓ where
  aborted : Run V
  threw : String → Run V
  exited : ℕ → Run V
  fault : Run V
  hung : Run V
  ok : V → Run V

-- Only a normal end runs what follows.
infixl 5 ◌>>=◌ ◌>>◌
abbrev pub ◌>>=◌ {ℓ μ} : {V : Type ℓ} {W : Type μ} → Run V → (V → Run W) → Run W
aborted >>= next = aborted
threw what >>= next = threw what
exited status >>= next = exited status
fault >>= next = fault
hung >>= next = hung
ok v >>= next = next v

abbrev pub ◌>>◌ {ℓ} : {B : Type ℓ} → Run (Unit {0}) → Run B → Run B
m >> k = m >>= λ _. k

-- An access that the language leaves undefined where it finds nothing.
abbrev pub defined {ℓ} : {A : Type ℓ} → Option A → Run A
defined none = fault
defined (some a) = ok a

-- The run ends normally, with a value that satisfies `Good`.
abbrev pub Returns {ℓ μ} : {V : Type ℓ} → Run V → (V → Type μ) → Type (ℓ ⊔ μ)
Returns {V} m Good = (v : V) × (m ≡ ok v) × Good v

pub bind_congr {ℓ} :
    {V W : Type ℓ} (m : Run V) (first second : V → Run W)
    → ((v : V) → first v ≡ second v)
    → (m >>= first) ≡ (m >>= second)
bind_congr aborted first second same = refl
bind_congr (threw what) first second same = refl
bind_congr (exited status) first second same = refl
bind_congr fault first second same = refl
bind_congr hung first second same = refl
bind_congr (ok v) first second same = same v

pub bind_bind {ℓ} :
    {V W : Type ℓ} (m : Run V) (first : V → Run V) (second : V → Run W)
    → ((m >>= first) >>= second) ≡ (m >>= λ v. first v >>= second)
bind_bind aborted first second = refl
bind_bind (threw what) first second = refl
bind_bind (exited status) first second = refl
bind_bind fault first second = refl
bind_bind hung first second = refl
bind_bind (ok v) first second = refl
