-- ===== src/Tests/Lines.antt =====
-- Command lines.
use babel_stream.Prelude.{◌≡◌, ◌-◌, ◌^◌, refl, true, false, [], ◌∷◌, some, none, arith}
use babel_stream.Benchmark.{nstream}
use babel_stream.Units.{gibibyte}
use babel_stream.Options.{Options, default_options, isolated}
use babel_stream.Cli.Numbers.{codes, parse_uint, parse_int, negsuc}
use babel_stream.Cli.Decimal.{digits, parse_uint-digits}
use babel_stream.Cli.{proceed, stopped, Stop, parse_arguments, message}
use babel_stream.Cli.Bounds.{IsValid}
use babel_stream.Cli.Valid.{parse_arguments-IsValid}
use babel_stream.Cli.Render.{render, parse_arguments-render}
use babel_stream.Cli.Accepted.{num_times_negative}

abbrev small : Options
small = record {
  array_size = 1024;
  num_times = 5;
  device_index = 3;
  use_float = true;
  output_as_csv = false;
  unit = gibibyte;
  silence_errors = true;
  csv_separator = ",";
  selection = nstream;
  order = isolated;
}

numbers :
    (parse_uint (codes " +42") ≡ some 42)
    × (parse_uint (codes "4x") ≡ none)
    × (parse_uint (codes "x") ≡ none)
    × (parse_uint (codes "99999999999999999999") ≡ some (2 ^ 64 - 1))
    × (parse_int (codes "-7") ≡ some (negsuc 6))
unfolding parse_uint parse_int
numbers = (refl, refl, refl, refl, refl)

rendered :
    render small
    ≡ codes "--float"
      ∷ codes "--silence-errors"
      ∷ codes "--order"
      ∷ codes "Isolated"
      ∷ codes "--gibibytes"
      ∷ codes "--only"
      ∷ codes "Nstream"
      ∷ codes "--device"
      ∷ codes "3"
      ∷ codes "--arraysize"
      ∷ codes "1024"
      ∷ codes "--numtimes"
      ∷ codes "5"
      ∷ []
unfolding render
rendered = refl

refusals :
    (parse_arguments default_options (codes "-n" ∷ codes "1" ∷ []) ≡ stopped Stop.few_times)
    × (parse_arguments default_options (codes "-s" ∷ codes "-4" ∷ [])
        ≡ stopped Stop.invalid_array_size)
    × (parse_arguments default_options (codes "--csv" ∷ codes "--only" ∷ []) ≡ stopped Stop.no_name)
    × (parse_arguments default_options (codes "--list" ∷ codes "--bad" ∷ []) ≡ stopped Stop.listed)
unfolding parse_arguments parse_uint parse_int
refusals = (refl, refl, refl, refl)

names : message Stop.names_printed ≡ codes "Available benchmarks: Copy,Mul,Add,Triad,Dot,Nstream"
unfolding message
names = refl

parse_arguments-IsValid_example :
    IsValid (record default_options { num_times = 7; array_size = 64 })
unfolding parse_arguments parse_uint parse_int
parse_arguments-IsValid_example =
    parse_arguments-IsValid (codes "-n" ∷ codes "7" ∷ codes "-s" ∷ codes "64" ∷ [])
      {o = record default_options { num_times = 7; array_size = 64 }} refl

parse_arguments-render_example : parse_arguments default_options (render small) ≡ proceed small
parse_arguments-render_example = parse_arguments-render small (omega arith) refl

num_times_negative_example :
    parse_arguments default_options (codes "--numtimes" ∷ ((b'-' ∷ digits 3) ∷ []))
    ≡ parse_arguments (record default_options { num_times = 2 ^ 64 - 3 }) []
num_times_negative_example = num_times_negative default_options 3 [] (omega arith) (omega arith)

parse_uint-digits_example : parse_uint (digits 2048) ≡ some 2048
parse_uint-digits_example = parse_uint-digits 2048 (omega arith)
