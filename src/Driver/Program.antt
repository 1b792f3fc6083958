-- ===== src/Driver/Program.antt =====
-- `run` of src/main.cpp.
pub mod Success
pub mod Refused
pub mod Exact
pub mod Devices
use babel_stream.Prelude.{ℕ, List, [], ◌++◌, Run, ok, ◌>>=◌, if◌then◌else◌}
use babel_stream.Arith.{Arith}
use babel_stream.Benchmark.{BenchId, bench, start_a, start_b, start_c}
use babel_stream.Options.{Options}
use babel_stream.Stream.{Stream}
use babel_stream.Driver.RunAll.{World, Host, run_all}
use babel_stream.Driver.Check.{check_solution}
use babel_stream.Driver.Output.{Token, run_banner, table_head}
use babel_stream.Driver.Summary.{result_rows}

-- `make` is `make_stream<T>`: selection, array size, device index and the three initial values.
module _ {ℓ κ} {T : Type ℓ} {D : Type κ} ⦃r : Arith T⦄ ⦃d : Arith D⦄ (S : Stream T)
    (make : BenchId → ℕ → ℕ → T → T → T → Run S.State) (host : Host D) (size_of : ℕ) where
  unfoldable pub run : Options → Run (List (Token D))
  unfolding run_all check_solution run_banner table_head result_rows
  run o = do
    let banner = if o.output_as_csv then [] else run_banner o size_of
    stream ← make o.selection o.array_size o.device_index start_a start_b start_c
    (timings, w) ← run_all S host o (record { stream = stream; sum = r.nought; ticks = 0 })
    (h, s) ← S.get_arrays w.stream
    t ← check_solution o h w.sum
    rows ← result_rows o size_of bench timings
    ok (banner ++ (table_head o ++ rows))
