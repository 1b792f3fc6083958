-- ===== src/Cli.antt =====
-- The command line: `parseArguments` of src/main.cpp. An argument is a list of bytes.
pub mod Numbers
pub mod Decimal
pub mod Bounds
pub mod Valid
pub mod Render
pub mod Accepted
use Prim.Native.Char.{code}
use Prim.Native.String.{String}
use babel_stream.Prelude.{
  ℕ, ◌-◌, ◌^◌, Bool, true, false, not, ◌&&◌, ◌||◌, List, [], ◌∷◌, ◌++◌, Option, none, some, ltb,
  leb, ◌==◌, if◌then◌else◌,
}
use babel_stream.Benchmark.{BenchId, Benchmark, bench, all}
use babel_stream.Units.{Kind, megabyte, gigabyte, terabyte, mibibyte, gibibyte, tebibyte}
use babel_stream.Options.{Options, BenchOrder, isolated}
use babel_stream.Cli.Numbers.{Bytes, codes, same_bytes, ℤ, pos, negsuc, parse_uint, parse_int}

-- Why the program stops at the command line.
pub data Stop : Type 0 where
  listed names_printed help_printed : Stop
  invalid_device invalid_array_size invalid_num_times few_times : Stop
  no_name no_order : Stop
  unknown_name unrecognized : Bytes → Stop

-- `EXIT_SUCCESS` is 0 and `EXIT_FAILURE` is 1.
unfoldable pub status : Stop → ℕ
status listed = 0
status names_printed = 0
status help_printed = 0
status _ = 1

-- `print_labels`
unfoldable pub print_labels : List Benchmark → Bytes
print_labels [] = []
print_labels (b ∷ []) = codes b.label
print_labels (b ∷ (c ∷ bs)) = codes b.label ++ (codes "," ++ print_labels (c ∷ bs))

abbrev newline : Bytes
newline = 10 ∷ []

-- What is written before the program stops. The text of the help is left out, and what `--list`
-- writes is the back end's.
unfoldable pub message : Stop → Bytes
unfolding print_labels
message listed = []
message names_printed = codes "Available benchmarks: " ++ print_labels bench
message help_printed = []
message invalid_device = codes "Invalid device index."
message invalid_array_size = codes "Invalid array size."
message invalid_num_times = codes "Invalid number of times."
message few_times = codes "Number of times must be 2 or more"
message no_name = codes "Expected benchmark name after --only"
message no_order =
    codes "Expected benchmark order after --order. Options: \"Classic\" (default), \"Isolated\"."
message (unknown_name key) =
    codes "Unknown benchmark name \""
    ++ (key
        ++ (codes "\" after --only"
            ++ (newline ++ (codes "Available benchmarks: All, Classic," ++ print_labels bench))))
message (unrecognized arg) = codes "Unrecognized argument '" ++ (arg ++ codes "' (try '--help')")

-- The effect of one argument: it stands alone, or it has used the next one too, or it ends the program.
pub data Effect : Type 0 where
  alone : Options → Effect
  with_next : Options → Effect
  stop : Stop → Effect

abbrev pub is : Bytes → String → Bool
is arg name = same_bytes arg (codes name)

-- `std::find_if` over the labels.
unfoldable pub find_label : Bytes → List Benchmark → Option BenchId
find_label key [] = none
find_label key (b ∷ bs) = let rest = find_label key bs in if is key b.label then some b.id else rest

-- `parseUInt` may fail, and so may the absent argument.
unfoldable pub set_device : Options → Option Bytes → Effect
set_device o none = stop invalid_device
set_device o (some v) = elim (parse_uint v) [
  | none ↦ stop invalid_device
  | some n ↦ with_next (record o { device_index = n })
]

unfoldable pub set_array_size : Options → Option Bytes → Effect
set_array_size o none = stop invalid_array_size
set_array_size o (some v) = elim (parse_int v) [
  | none ↦ stop invalid_array_size
  | some (negsuc _) ↦ stop invalid_array_size
  | some (pos n) ↦
      if leb n 0 then stop invalid_array_size else with_next (record o { array_size = n })
]

unfoldable pub set_num_times : Options → Option Bytes → Effect
set_num_times o none = stop invalid_num_times
set_num_times o (some v) = elim (parse_uint v) [
  | none ↦ stop invalid_num_times
  | some n ↦ if ltb n 2 then stop few_times else with_next (record o { num_times = n })
]

unfoldable pub set_selection : Options → Option Bytes → Effect
unfolding find_label
set_selection o none = stop no_name
set_selection o (some key) =
    if is key "Classic"
    then with_next (record o { selection = BenchId.classic })
    else if is key "All"
    then with_next (record o { selection = all })
    else elim (find_label key bench) [
      | none ↦ stop (unknown_name key)
      | some id ↦ with_next (record o { selection = id })
    ]

unfoldable pub set_order : Options → Option Bytes → Effect
set_order o none = stop no_order
set_order o (some key) =
    if is key "Isolated" then with_next (record o { order = isolated }) else with_next o

-- The body of the loop over the arguments. `next` is `argv[i + 1]`, if there is one.
unfoldable pub argument : Options → Bytes → Option Bytes → Effect
unfolding set_device set_array_size set_num_times set_selection set_order
argument o arg next =
    if is arg "--list"
    then stop listed
    else if is arg "--device"
    then set_device o next
    else if is arg "--arraysize" || is arg "-s"
    then set_array_size o next
    else if is arg "--numtimes" || is arg "-n"
    then set_num_times o next
    else if is arg "--float"
    then alone (record o { use_float = true })
    else if is arg "--print-names"
    then stop names_printed
    else if is arg "--only" || is arg "-o"
    then set_selection o next
    else if is arg "--order"
    then set_order o next
    else if is arg "--csv"
    then alone (record o { output_as_csv = true })
    else if is arg "--mibibytes"
    then alone (record o { unit = mibibyte })
    else if is arg "--megabytes"
    then alone (record o { unit = megabyte })
    else if is arg "--gibibytes"
    then alone (record o { unit = gibibyte })
    else if is arg "--gigabytes"
    then alone (record o { unit = gigabyte })
    else if is arg "--tebibytes"
    then alone (record o { unit = tebibyte })
    else if is arg "--terabytes"
    then alone (record o { unit = terabyte })
    else if is arg "--silence-errors"
    then alone (record o { silence_errors = true })
    else if is arg "--help" || is arg "-h"
    then stop help_printed
    else stop (unrecognized arg)

pub data Parsed : Type 0 where
  proceed : Options → Parsed
  stopped : Stop → Parsed

-- What the loop does next: `after_one` goes on behind the argument, `after_two` behind the next one.
abbrev pub go_on : Effect → (after_one after_two : Options → Parsed) → Parsed
go_on (alone o) after_one after_two = after_one o
go_on (with_next o) after_one after_two = after_two o
go_on (stop why) after_one after_two = stopped why

-- `parseArguments`, from `argv[1]` on.
unfoldable pub parse_arguments : Options → List Bytes → Parsed
unfolding argument
parse_arguments o [] = proceed o
parse_arguments o (arg ∷ []) = go_on (argument o arg none) proceed proceed
parse_arguments o (arg ∷ (next ∷ rest)) =
    go_on (argument o arg (some next)) (λ o'. parse_arguments o' (next ∷ rest))
      (λ o'. parse_arguments o' rest)
