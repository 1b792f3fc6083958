-- ===== src/Driver/Output.antt =====
-- What `run` of src/main.cpp writes to `std::cout`, as the sequence of `<<` operands.
use babel_stream.Prelude.{ℕ, ◌*◌, ◌%◌, ◌^◌, String, List, [], ◌∷◌, ◌++◌, ◌==◌, if◌then◌else◌}
use babel_stream.Arith.{Arith, ◌⊗◌, ◌⊘◌}
use babel_stream.Benchmark.{BenchId, Benchmark, bench, same_id, all}
use babel_stream.Units.{str, fmt}
use babel_stream.Options.{Options, BenchOrder, isolated}

-- `setw n` stands for `std::left << std::setw(n)`, `restore` for `std::cout.precision(ss)`.
pub data Token {κ} (D : Type κ) : Type κ where
  text : String → Token D
  num : ℕ → Token D
  real : D → Token D
  setw : ℕ → Token D
  setprecision : ℕ → Token D
  fixed : Token D
  restore : Token D
  endl : Token D

abbrev pub size_mod : ℕ
size_mod = 2 ^ 64

module _ {κ} {D : Type κ} ⦃d : Arith D⦄ where
  -- The products are `size_t`.
  unfoldable pub fmt_bw : Options → (size_of weight : ℕ) → D → D
  unfolding fmt
  fmt_bw o size_of weight dt =
      fmt o.unit (d.of_nat ((weight * size_of % size_mod) * o.array_size % size_mod) ⊘ dt)

  unfoldable pub fmt_csv_header : Options → List (Token D)
  unfolding str
  fmt_csv_header o =
      let sep = text o.csv_separator in
      text "function"
      ∷ sep
      ∷ text "num_times"
      ∷ sep
      ∷ text "n_elements"
      ∷ sep
      ∷ text "sizeof"
      ∷ sep
      ∷ text "max_"
      ∷ text (str o.unit)
      ∷ text "_per_sec"
      ∷ sep
      ∷ text "min_runtime"
      ∷ sep
      ∷ text "max_runtime"
      ∷ sep
      ∷ text "avg_runtime"
      ∷ endl
      ∷ []

  unfoldable pub fmt_csv :
      Options
      → String
      → (num_times num_elements type_size : ℕ) (bandwidth dt_min dt_max dt_avg : D) → List (Token D)
  fmt_csv o function num_times num_elements type_size bandwidth dt_min dt_max dt_avg =
      let sep = text o.csv_separator in
      text function
      ∷ sep
      ∷ num num_times
      ∷ sep
      ∷ num num_elements
      ∷ sep
      ∷ num type_size
      ∷ sep
      ∷ real bandwidth
      ∷ sep
      ∷ real dt_min
      ∷ sep
      ∷ real dt_max
      ∷ sep
      ∷ real dt_avg
      ∷ endl
      ∷ []

  unfoldable pub fmt_cli : String → (bandwidth dt_min dt_max dt_avg : D) → List (Token D)
  fmt_cli function bandwidth dt_min dt_max dt_avg =
      setw 12
      ∷ text function
      ∷ setw 12
      ∷ setprecision 3
      ∷ real bandwidth
      ∷ setw 12
      ∷ setprecision 5
      ∷ real dt_min
      ∷ setw 12
      ∷ setprecision 5
      ∷ real dt_max
      ∷ setw 12
      ∷ setprecision 5
      ∷ real dt_avg
      ∷ endl
      ∷ []

  unfoldable pub fmt_result :
      Options
      → String
      → (num_times num_elements type_size : ℕ) (bandwidth dt_min dt_max dt_avg : D) → List (Token D)
  unfolding fmt_csv fmt_cli
  fmt_result o function num_times num_elements type_size bandwidth dt_min dt_max dt_avg =
      if o.output_as_csv
      then fmt_csv o function num_times num_elements type_size bandwidth dt_min dt_max dt_avg
      else fmt_cli function bandwidth dt_min dt_max dt_avg

  -- The label of the selected benchmark.
  unfoldable pub label_of : BenchId → List Benchmark → List (Token D)
  label_of selection [] = []
  label_of selection (b ∷ bs) =
      let rest = label_of selection bs in if same_id selection b.id then text b.label ∷ [] else rest

  unfoldable pub kernels_banner : BenchId → List (Token D)
  unfolding label_of
  kernels_banner all = text " All kernels " ∷ []
  kernels_banner BenchId.classic = text " Classic kernels " ∷ []
  kernels_banner selection = text "Running " ∷ (label_of selection bench ++ (text " " ∷ []))

  unfoldable pub order_banner : BenchOrder → List (Token D)
  order_banner BenchOrder.classic = text " Classic" ∷ []
  order_banner isolated = text " Isolated" ∷ []

  -- The block under the first `if (!output_as_csv)`.
  unfoldable pub run_banner : Options → ℕ → List (Token D)
  unfolding kernels_banner order_banner fmt str
  run_banner o size_of =
      let nbytes = o.array_size * size_of % size_mod in
      (text "Running " ∷ kernels_banner o.selection)
      ++ ((num o.num_times ∷ text " times in " ∷ order_banner o.order)
          ++ (text " order "
              ∷ endl
              ∷ text "Number of elements: "
              ∷ num o.array_size
              ∷ endl
              ∷ text "Precision: "
              ∷ text (if size_of == 4 then "float" else "double")
              ∷ endl
              ∷ setprecision 1
              ∷ fixed
              ∷ text "Array size: "
              ∷ real (fmt o.unit (d.of_nat nbytes))
              ∷ text " "
              ∷ text (str o.unit)
              ∷ endl
              ∷ text "Total size: "
              ∷ real (fmt o.unit (d.literal 30 1 ⊗ d.of_nat nbytes))
              ∷ text " "
              ∷ text (str o.unit)
              ∷ endl
              ∷ restore
              ∷ []))

  -- The head of the table.
  unfoldable pub table_head : Options → List (Token D)
  unfolding fmt_csv_header str
  table_head o =
      if o.output_as_csv
      then fmt_csv_header o
      else setw 12
        ∷ text "Function"
        ∷ setw 12
        ∷ text (str o.unit)
        ∷ text "/s"
        ∷ setw 12
        ∷ text "Min (sec)"
        ∷ setw 12
        ∷ text "Max"
        ∷ setw 12
        ∷ text "Average"
        ∷ endl
        ∷ fixed
        ∷ []
