-- ===== src/Driver/Main/Ends.antt =====
-- How `main` of src/main.cpp ends.
use babel_stream.Prelude.{
  arith, none, ℕ, true, false, if◌then◌else◌, String, ◌≤◌, ◌≡◌, refl, Bool, List, ◌++◌, Run, exited,
  Returns,
}
use babel_stream.Arith.{Arith, IsExact}
use babel_stream.Options.{Options, default_options}
use babel_stream.Cli.{Parsed, status, parse_arguments, proceed, stopped}
use babel_stream.Cli.Numbers.{Bytes}
use babel_stream.Cli.Valid.{parse_arguments-IsValid}
use babel_stream.Backend.Memory.{Allocator, IsAllocator, IsSize}
use babel_stream.Backend.Parallel.{Runtime, IsRuntime}
use babel_stream.Backend.Omp
use babel_stream.Driver.RunAll.{Host}
use babel_stream.Driver.Output.{Token}
use babel_stream.Driver.Program.Success.{HasTable}
use babel_stream.Driver.Program.Exact.{IsReflexive, omp_run_ok}
use babel_stream.Driver.Main.{title, main, after_parsing, benchmarks}

-- The program stops with the status of the command line, or it ends normally with the title and the
-- output of a run.
unfoldable pub Ends {κ} :
    {D : Type κ} ⦃d : Arith D⦄ → String → Parsed → Run (List (Token D)) → Type κ
Ends implementation (stopped why) m = m ≡ exited (status why)
Ends {D} implementation (proceed o) m = Returns m (λ all.
    (out : List (Token D)) × (size_of : ℕ) × (all ≡ title o implementation ++ out)
    × HasTable size_of o out)

Returns-if {κ} :
    {A : Type κ} (b : Bool) (m n : Run A) (P : A → Type κ)
    → Returns m P
    → Returns n P
    → Returns (if b then m else n) P
Returns-if true m n P h k = h
Returns-if false m n P h k = k

with_size {κ} :
    {D : Type κ} ⦃d : Arith D⦄ (size_of : ℕ) (o : Options) (m : Run (List (Token D)))
    → Returns m (HasTable size_of o)
    → Returns m (λ out. (size_of : ℕ) × HasTable size_of o out)
with_size size_of o m (out, ran, table) = (out, ran, (size_of, table))

module _ {ℓ κ} {F G : Type ℓ} {D : Type κ} ⦃f : Arith F⦄ ⦃g : Arith G⦄ ⦃d : Arith D⦄
    (exact_f : IsExact F) (reflexive_f : IsReflexive F) (exact_g : IsExact G)
    (reflexive_g : IsReflexive G) (host : Host D) (implementation : String) (rt : Runtime)
    (good : IsRuntime rt) (mapped : Bool) (host_f device_f : Allocator F)
    (host_g device_g : Allocator G) (host_f_ok : IsAllocator host_f)
    (device_f_ok : IsAllocator device_f) (host_g_ok : IsAllocator host_g)
    (device_g_ok : IsAllocator device_g) where
  abbrev omp_main : List Bytes → Run (List (Token D))
  omp_main =
      main (Omp.omp_stream rt mapped)
        (λ id n device x y z. Omp.construct rt mapped 4 host_f device_f n x y z)
        (Omp.omp_stream rt mapped)
        (λ id n device x y z. Omp.construct rt mapped 8 host_g device_g n x y z) host implementation

  omp_benchmarks_ok :
      (o : Options)
      → 2 ≤ o.num_times
      → host.refuses o.num_times ≡ none
      → IsSize 8 o.array_size
      → Returns
          (benchmarks
            (Omp.omp_stream rt mapped)
            (λ id n device x y z. Omp.construct rt mapped 4 host_f device_f n x y z)
            (Omp.omp_stream rt mapped)
            (λ id n device x y z. Omp.construct rt mapped 8 host_g device_g n x y z)
            host
            implementation
            o)
          (λ out. (size_of : ℕ) × HasTable size_of o out)
  unfolding benchmarks
  omp_benchmarks_ok o ge roomy wide =
      Returns-if o.use_float _ _ _
        (with_size 4 o _ (
          omp_run_ok exact_f reflexive_f host 4 rt good mapped host_f device_f host_f_ok device_f_ok
            o ge roomy
            (record { some_bytes = omega arith; no_wrap = omega (arith, wide.no_wrap) })))
        (with_size 8 o _ (
          omp_run_ok exact_g reflexive_g host 8 rt good mapped host_g device_g host_g_ok device_g_ok
            o ge roomy wide))

  omp_after_parsing-Ends :
      (p : Parsed)
      → ((o : Options) → p ≡ proceed o → 2 ≤ o.num_times)
      → ((o : Options) → p ≡ proceed o → (host.refuses o.num_times ≡ none) × IsSize 8 o.array_size)
      → Ends implementation p (
          after_parsing
            (Omp.omp_stream rt mapped)
            (λ id n device x y z. Omp.construct rt mapped 4 host_f device_f n x y z)
            (Omp.omp_stream rt mapped)
            (λ id n device x y z. Omp.construct rt mapped 8 host_g device_g n x y z)
            host
            implementation
            p)
  unfolding after_parsing Ends
  omp_after_parsing-Ends (stopped why) ge affordable = refl
  omp_after_parsing-Ends (proceed o) ge affordable =
      let (out, ran, (size_of, table)) =
        let (roomy, wide) = affordable o refl in omp_benchmarks_ok o (ge o refl) roomy wide in
      rw ran (title o implementation ++ out, refl, (out, size_of, refl, table))

  -- In exact arithmetic, and if equal values pass a comparison, the program over the OpenMP back end
  -- ends with the status of the first argument that stops it, or normally with its title and table:
  -- it never reads outside an array, aborts or fails its validation. It needs of a command line that
  -- is accepted that there is room for the times of its rounds and that the bytes of an array of
  -- doubles do not wrap modulo 2^64, and that every allocation succeeds.
  pub omp_main-Ends :
      (args : List Bytes)
      → ((o : Options)
          → parse_arguments default_options args ≡ proceed o
          → (host.refuses o.num_times ≡ none) × IsSize 8 o.array_size)
      → Ends implementation (parse_arguments default_options args) (omp_main args)
  unfolding main
  omp_main-Ends args affordable =
      omp_after_parsing-Ends (parse_arguments default_options args)
        (λ o e. (parse_arguments-IsValid args e).times_ge) affordable
