-- ===== src/Options.antt =====
-- The settings that src/main.cpp keeps in global variables, with their initial values.
use babel_stream.Prelude.{ℕ, String, Bool, false}
use babel_stream.Benchmark.{BenchId}
use babel_stream.Units.{Kind, megabyte}

pub data BenchOrder : Type 0 where
  classic isolated : BenchOrder

pub record Options : Type 0 where
  -- `intptr_t`, kept positive by the command line
  pub array_size : ℕ
  pub num_times : ℕ
  pub device_index : ℕ
  pub use_float : Bool
  pub output_as_csv : Bool
  pub unit : Kind
  pub silence_errors : Bool
  pub csv_separator : String
  pub selection : BenchId
  pub order : BenchOrder

abbrev pub default_options : Options
default_options = record {
  array_size = 33554432;
  num_times = 100;
  device_index = 0;
  use_float = false;
  output_as_csv = false;
  unit = megabyte;
  silence_errors = false;
  csv_separator = ",";
  selection = BenchId.classic;
  order = BenchOrder.classic;
}
