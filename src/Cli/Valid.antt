-- ===== src/Cli/Valid.antt =====
-- The settings that `parseArguments` of src/main.cpp can reach.
use babel_stream.Prelude.{
  ℕ, ◌^◌, ◌<◌, ◌≡◌, refl, subst, Bool, Bool-cases, Option-cases, inl, inr, List, [], ◌∷◌, Option,
  none, some, ltb, leb, ◌||◌, if◌then◌else◌, arith,
}
use babel_stream.Options.{Options, default_options}
use babel_stream.Benchmark.{bench}
use babel_stream.Cli.Numbers.{Bytes, pos, negsuc, parse_uint, parse_int}
use babel_stream.Cli.{
  go_on, Stop, Effect, alone, with_next, stop, is, find_label, set_device, set_array_size,
  set_num_times, set_selection, set_order, argument, Parsed, proceed, stopped, parse_arguments,
}
use babel_stream.Cli.Bounds.{
  IsValid, default-IsValid, parse_uint-lt, parse_int-lt, Sets, Sets-if, Sets-alone, Sets-stop,
}

set_device-IsValid :
    (o : Options) (next : Option Bytes) → IsValid o → Sets (set_device o next) IsValid
unfolding set_device Sets
set_device-IsValid o none h = tt
set_device-IsValid o (some v) h = elim (Option-cases (parse_uint v)) [
  | inl e ↦ rw (e, set_device) tt
  | inr (n, e) ↦
      rw (e, set_device)
        (record {
          size_pos = h.size_pos;
          size_lt = h.size_lt;
          times_ge = h.times_ge;
          times_lt = h.times_lt;
          device_lt = parse_uint-lt v e;
        })
]

set_num_times-IsValid :
    (o : Options) (next : Option Bytes) → IsValid o → Sets (set_num_times o next) IsValid
unfolding set_num_times Sets
set_num_times-IsValid o none h = tt
set_num_times-IsValid o (some v) h = elim (Option-cases (parse_uint v)) [
  | inl e ↦ rw (e, set_num_times) tt
  | inr (n, e) ↦
      rw (e, set_num_times)
        (elim (Bool-cases (ltb n 2)) [
          | inl few ↦ rw few tt
          | inr many ↦ rw many (record {
            size_pos = h.size_pos;
            size_lt = h.size_lt;
            times_ge = ground arith;
            times_lt = parse_uint-lt v e;
            device_lt = h.device_lt;
          })
        ])
]

set_size :
    (o : Options) (n : ℕ)
    → IsValid o
    → n < 2 ^ 63
    → Sets
        (if leb n 0 then stop Stop.invalid_array_size else with_next (record o { array_size = n }))
        IsValid
unfolding Sets
set_size o n h lt = elim (Bool-cases (leb n 0)) [
  | inl e ↦ rw e tt
  | inr e ↦ rw e (record {
    size_pos = ground arith;
    size_lt = lt;
    times_ge = h.times_ge;
    times_lt = h.times_lt;
    device_lt = h.device_lt;
  })
]

set_array_size-IsValid :
    (o : Options) (next : Option Bytes) → IsValid o → Sets (set_array_size o next) IsValid
unfolding set_array_size Sets
set_array_size-IsValid o none h = tt
set_array_size-IsValid o (some v) h = elim (Option-cases (parse_int v)) [
  | inl e ↦ rw (e, set_array_size) tt
  | inr (negsuc _, e) ↦ rw (e, set_array_size) tt
  | inr (pos n, e) ↦ rw (e, set_array_size) (set_size o n h (parse_int-lt v e))
]

-- Settings that the bounds do not read.
abbrev SameBounds : Options → Options → Type 0
SameBounds o o' =
    (o'.array_size ≡ o.array_size)
    × (o'.num_times ≡ o.num_times)
    × (o'.device_index ≡ o.device_index)

SameBounds-IsValid : (o o' : Options) → SameBounds o o' → IsValid o → IsValid o'
SameBounds-IsValid o o' (p, q, r) h = ground arith

set_selection-IsValid :
    (o : Options) (next : Option Bytes) → IsValid o → Sets (set_selection o next) IsValid
unfolding set_selection Sets
set_selection-IsValid o none h = tt
set_selection-IsValid o (some key) h =
    Sets-if IsValid (is key "Classic") _ _ (SameBounds-IsValid o _ (refl, refl, refl) h) (
      Sets-if IsValid (is key "All") _ _ (SameBounds-IsValid o _ (refl, refl, refl) h)
        (elim (Option-cases (find_label key bench)) [
          | inl e ↦ rw (e, set_selection) tt
          | inr (id, e) ↦ rw (e, set_selection) (SameBounds-IsValid o _ (refl, refl, refl) h)
        ]))

set_order-IsValid :
    (o : Options) (next : Option Bytes) → IsValid o → Sets (set_order o next) IsValid
unfolding set_order Sets
set_order-IsValid o none h = tt
set_order-IsValid o (some key) h =
    Sets-if IsValid (is key "Isolated") _ (with_next o)
      (SameBounds-IsValid o _ (refl, refl, refl) h) h

-- Each branch of the chain of tests keeps the settings valid.
argument-IsValid :
    (o : Options) (arg : Bytes) (next : Option Bytes)
    → IsValid o
    → Sets (argument o arg next) IsValid
unfolding argument
argument-IsValid o arg next h = branch (is arg "--list") _ _ (Sets-stop IsValid _) (
    branch (is arg "--device") _ _ (set_device-IsValid o next h) (
      branch (is arg "--arraysize" || is arg "-s") _ _ (set_array_size-IsValid o next h) (
        branch (is arg "--numtimes" || is arg "-n") _ _ (set_num_times-IsValid o next h) (
          branch (is arg "--float") _ _ (Sets-alone IsValid (kept _ (refl, refl, refl))) (
            branch (is arg "--print-names") _ _ (Sets-stop IsValid _) (
              branch (is arg "--only" || is arg "-o") _ _ (set_selection-IsValid o next h) (
                branch (is arg "--order") _ _ (set_order-IsValid o next h) (
                  branch (is arg "--csv") _ _ (Sets-alone IsValid (kept _ (refl, refl, refl))) (
                    branch (is arg "--mibibytes") _ _
                      (Sets-alone IsValid (kept _ (refl, refl, refl)))
                      (branch (is arg "--megabytes") _ _
                        (Sets-alone IsValid (kept _ (refl, refl, refl)))
                        (branch (is arg "--gibibytes") _ _
                          (Sets-alone IsValid (kept _ (refl, refl, refl)))
                          (branch (is arg "--gigabytes") _ _
                            (Sets-alone IsValid (kept _ (refl, refl, refl)))
                            (branch (is arg "--tebibytes") _ _
                              (Sets-alone IsValid (kept _ (refl, refl, refl)))
                              (branch (is arg "--terabytes") _ _
                                (Sets-alone IsValid (kept _ (refl, refl, refl)))
                                (branch (is arg "--silence-errors") _ _
                                  (Sets-alone IsValid (kept _ (refl, refl, refl)))
                                  (branch (is arg "--help" || is arg "-h") _ _ (Sets-stop IsValid _)
                                    (Sets-stop IsValid _)))))))))))))))))
  where
    branch :
        (b : Bool) (x y : Effect)
        → Sets x IsValid
        → Sets y IsValid
        → Sets (if b then x else y) IsValid
    branch = Sets-if IsValid

    kept : (o' : Options) → SameBounds o o' → IsValid o'
    kept o' same = SameBounds-IsValid o o' same h

abbrev Proceeds : Parsed → (Options → Type 0) → Type 0
Proceeds (proceed o) P = P o
Proceeds (stopped _) P = Unit

go_on-Proceeds :
    (e : Effect) (k m : Options → Parsed)
    → ((o : Options) → IsValid o → Proceeds (k o) IsValid)
    → ((o : Options) → IsValid o → Proceeds (m o) IsValid)
    → Sets e IsValid
    → Proceeds (go_on e k m) IsValid
unfolding Sets
go_on-Proceeds (alone o) k m hk hm h = hk o h
go_on-Proceeds (with_next o) k m hk hm h = hm o h
go_on-Proceeds (stop why) k m hk hm h = tt

parse_arguments-Proceeds :
    (o : Options) (args : List Bytes) → IsValid o → Proceeds (parse_arguments o args) IsValid
unfolding parse_arguments
parse_arguments-Proceeds o [] h = h
parse_arguments-Proceeds o (arg ∷ []) h =
    go_on-Proceeds (argument o arg none) proceed proceed (λ o' h'. h') (λ o' h'. h')
      (argument-IsValid o arg none h)
parse_arguments-Proceeds o (arg ∷ (next ∷ rest)) h =
    go_on-Proceeds (argument o arg (some next)) (λ o'. parse_arguments o' (next ∷ rest))
      (λ o'. parse_arguments o' rest) (λ o' h'. parse_arguments-Proceeds o' (next ∷ rest) h')
      (λ o' h'. parse_arguments-Proceeds o' rest h') (argument-IsValid o arg (some next) h)

-- If the command line lets the program proceed, the array size is positive and below 2^63, the
-- number of times is at least 2, and it and the device index are below 2^64.
pub parse_arguments-IsValid :
    (args : List Bytes) {o : Options} → parse_arguments default_options args ≡ proceed o → IsValid o
parse_arguments-IsValid args e =
    subst (λ p. Proceeds p IsValid) e
      (parse_arguments-Proceeds default_options args default-IsValid)
