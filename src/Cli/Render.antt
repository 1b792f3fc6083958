-- ===== src/Cli/Render.antt =====
-- The command line that asks `parseArguments` of src/main.cpp for given settings.
use babel_stream.Prelude.{
  ℕ, ◌^◌, ◌<◌, ◌≤◌, ◌≡◌, refl, sym, ap, ◌∙◌, String, Bool, true, false, List, [], ◌∷◌, Option, none,
  some, ltb, leb, arith,
}
use babel_stream.Benchmark.{BenchId, copy, mul, add, triad, nstream, dot, all}
use babel_stream.Units.{Kind, megabyte, gigabyte, terabyte, mibibyte, gibibyte, tebibyte}
use babel_stream.Options.{Options, BenchOrder, isolated, default_options}
use babel_stream.Cli.Numbers.{Bytes, codes}
use babel_stream.Cli.Decimal.{digits, parse_uint-digits, parse_int-digits}
use babel_stream.Cli.{
  alone, with_next, argument, set_device, set_array_size, set_num_times, proceed, parse_arguments,
}
use babel_stream.Cli.Bounds.{IsValid}

-- A flag that is given or not, in front of the rest of the command line.
abbrev flag : Bool → String → List Bytes → List Bytes
flag true name rest = codes name ∷ rest
flag false name rest = rest

unfoldable pub selection_name : BenchId → Bytes
selection_name copy = codes "Copy"
selection_name mul = codes "Mul"
selection_name add = codes "Add"
selection_name triad = codes "Triad"
selection_name nstream = codes "Nstream"
selection_name dot = codes "Dot"
selection_name BenchId.classic = codes "Classic"
selection_name all = codes "All"

unfoldable pub unit_flag : Kind → Bytes
unit_flag megabyte = codes "--megabytes"
unit_flag gigabyte = codes "--gigabytes"
unit_flag terabyte = codes "--terabytes"
unit_flag mibibyte = codes "--mibibytes"
unit_flag gibibyte = codes "--gibibytes"
unit_flag tebibyte = codes "--tebibytes"

abbrev order_words : BenchOrder → List Bytes → List Bytes
order_words BenchOrder.classic rest = rest
order_words isolated rest = codes "--order" ∷ codes "Isolated" ∷ rest

abbrev sizes : Options → List Bytes
sizes o =
    codes "--device"
    ∷ digits o.device_index
    ∷ codes "--arraysize"
    ∷ digits o.array_size
    ∷ codes "--numtimes"
    ∷ digits o.num_times
    ∷ []

unfoldable pub render : Options → List Bytes
unfolding selection_name unit_flag digits
render o = flag o.use_float "--float" (
    flag o.output_as_csv "--csv" (
      flag o.silence_errors "--silence-errors" (
        order_words o.order
          (unit_flag o.unit ∷ codes "--only" ∷ selection_name o.selection ∷ sizes o))))

-- An argument that stands alone.
alone_step :
    (o o' : Options) (arg : Bytes) (rest : List Bytes)
    → ((next : Option Bytes) → argument o arg next ≡ alone o')
    → parse_arguments o (arg ∷ rest) ≡ parse_arguments o' rest
unfolding parse_arguments
alone_step o o' arg [] e = rw (e none) refl
alone_step o o' arg (next ∷ rest) e = rw (e (some next)) refl

-- An argument that uses the next one.
pub pair_step :
    (o o' : Options) (arg next : Bytes) (rest : List Bytes)
    → argument o arg (some next) ≡ with_next o'
    → parse_arguments o (arg ∷ (next ∷ rest)) ≡ parse_arguments o' rest
unfolding parse_arguments
pair_step o o' arg next rest e = rw e refl

use_float_step :
    (o : Options) (b : Bool) (rest : List Bytes)
    → o.use_float ≡ false
    → parse_arguments o (flag b "--float" rest) ≡ parse_arguments (record o { use_float = b }) rest
unfolding argument
use_float_step o true rest e = alone_step o _ (codes "--float") rest (λ next. refl)
use_float_step o false rest e = ap (λ b. parse_arguments (record o { use_float = b }) rest) e

output_as_csv_step :
    (o : Options) (b : Bool) (rest : List Bytes)
    → o.output_as_csv ≡ false
    → parse_arguments o (flag b "--csv" rest)
      ≡ parse_arguments (record o { output_as_csv = b }) rest
unfolding argument
output_as_csv_step o true rest e = alone_step o _ (codes "--csv") rest (λ next. refl)
output_as_csv_step o false rest e =
    ap (λ b. parse_arguments (record o { output_as_csv = b }) rest) e

silence_errors_step :
    (o : Options) (b : Bool) (rest : List Bytes)
    → o.silence_errors ≡ false
    → parse_arguments o (flag b "--silence-errors" rest)
      ≡ parse_arguments (record o { silence_errors = b }) rest
unfolding argument
silence_errors_step o true rest e = alone_step o _ (codes "--silence-errors") rest (λ next. refl)
silence_errors_step o false rest e =
    ap (λ b. parse_arguments (record o { silence_errors = b }) rest) e

order_step :
    (o : Options) (order : BenchOrder) (rest : List Bytes)
    → o.order ≡ BenchOrder.classic
    → parse_arguments o (order_words order rest) ≡ parse_arguments (record o { order = order }) rest
unfolding argument
order_step o BenchOrder.classic rest e = ap (λ b. parse_arguments (record o { order = b }) rest) e
order_step o isolated rest e =
    pair_step o (record o { order = isolated }) (codes "--order") (codes "Isolated") rest refl

unit_step :
    (o : Options) (k : Kind) (rest : List Bytes)
    → parse_arguments o (unit_flag k ∷ rest) ≡ parse_arguments (record o { unit = k }) rest
unfolding argument unit_flag
unit_step o megabyte rest = alone_step o _ (codes "--megabytes") rest (λ next. refl)
unit_step o gigabyte rest = alone_step o _ (codes "--gigabytes") rest (λ next. refl)
unit_step o terabyte rest = alone_step o _ (codes "--terabytes") rest (λ next. refl)
unit_step o mibibyte rest = alone_step o _ (codes "--mibibytes") rest (λ next. refl)
unit_step o gibibyte rest = alone_step o _ (codes "--gibibytes") rest (λ next. refl)
unit_step o tebibyte rest = alone_step o _ (codes "--tebibytes") rest (λ next. refl)

selection_effect :
    (o : Options) (id : BenchId)
    → argument o (codes "--only") (some (selection_name id))
      ≡ with_next (record o { selection = id })
unfolding argument selection_name
selection_effect o copy = refl
selection_effect o mul = refl
selection_effect o add = refl
selection_effect o triad = refl
selection_effect o nstream = refl
selection_effect o dot = refl
selection_effect o BenchId.classic = refl
selection_effect o all = refl

selection_step :
    (o : Options) (id : BenchId) (rest : List Bytes)
    → parse_arguments o (codes "--only" ∷ (selection_name id ∷ rest))
      ≡ parse_arguments (record o { selection = id }) rest
selection_step o id rest =
    pair_step o (record o { selection = id }) (codes "--only") (selection_name id) rest
      (selection_effect o id)

device_effect :
    (o : Options) (n : ℕ)
    → n < 2 ^ 64
    → argument o (codes "--device") (some (digits n)) ≡ with_next (record o { device_index = n })
unfolding argument
device_effect o n h = rw (parse_uint-digits n h, set_device) refl

device_step :
    (o : Options) (n : ℕ) (rest : List Bytes)
    → n < 2 ^ 64
    → parse_arguments o (codes "--device" ∷ (digits n ∷ rest))
      ≡ parse_arguments (record o { device_index = n }) rest
device_step o n rest h =
    pair_step o (record o { device_index = n }) (codes "--device") (digits n) rest
      (device_effect o n h)

array_size_effect :
    (o : Options) (n : ℕ)
    → 1 ≤ n
    → n < 2 ^ 63
    → argument o (codes "--arraysize") (some (digits n)) ≡ with_next (record o { array_size = n })
unfolding argument
array_size_effect o n ge h =
    let some_items : leb n 0 ≡ false = ground arith in
    rw (parse_int-digits n h, set_array_size, some_items) refl

array_size_step :
    (o : Options) (n : ℕ) (rest : List Bytes)
    → 1 ≤ n
    → n < 2 ^ 63
    → parse_arguments o (codes "--arraysize" ∷ (digits n ∷ rest))
      ≡ parse_arguments (record o { array_size = n }) rest
array_size_step o n rest ge h =
    pair_step o (record o { array_size = n }) (codes "--arraysize") (digits n) rest
      (array_size_effect o n ge h)

num_times_effect :
    (o : Options) (n : ℕ)
    → 2 ≤ n
    → n < 2 ^ 64
    → argument o (codes "--numtimes") (some (digits n)) ≡ with_next (record o { num_times = n })
unfolding argument
num_times_effect o n ge h =
    let enough : ltb n 2 ≡ false = ground arith in
    rw (parse_uint-digits n h, set_num_times, enough) refl

num_times_step :
    (o : Options) (n : ℕ) (rest : List Bytes)
    → 2 ≤ n
    → n < 2 ^ 64
    → parse_arguments o (codes "--numtimes" ∷ (digits n ∷ rest))
      ≡ parse_arguments (record o { num_times = n }) rest
num_times_step o n rest ge h =
    pair_step o (record o { num_times = n }) (codes "--numtimes") (digits n) rest
      (num_times_effect o n ge h)

parse_arguments-nil : (o : Options) → parse_arguments o [] ≡ proceed o
unfolding parse_arguments
parse_arguments-nil o = refl

sizes_step :
    (o s : Options)
    → IsValid s
    → parse_arguments o (sizes s)
      ≡ proceed (record o {
        device_index = s.device_index;
        array_size = s.array_size;
        num_times = s.num_times;
      })
sizes_step o s v =
    device_step o s.device_index _ v.device_lt
    ∙ (array_size_step _ s.array_size _ v.size_pos v.size_lt
        ∙ (num_times_step _ s.num_times [] v.times_ge v.times_lt ∙ parse_arguments-nil _))

-- All settings within the bounds can be asked for: the parser reads the command line that names
-- them back, for the one separator that there is.
pub parse_arguments-render :
    (o : Options)
    → IsValid o
    → o.csv_separator ≡ ","
    → parse_arguments default_options (render o) ≡ proceed o
unfolding render
parse_arguments-render o v comma =
    use_float_step default_options o.use_float _ refl
    ∙ (output_as_csv_step _ o.output_as_csv _ refl
        ∙ (silence_errors_step _ o.silence_errors _ refl
            ∙ (order_step _ o.order _ refl
                ∙ (unit_step _ o.unit _
                    ∙ (selection_step _ o.selection _
                        ∙ (sizes_step _ o v
                            ∙ ap (λ c. proceed (record o { csv_separator = c })) (sym comma)))))))
