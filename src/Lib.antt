-- ===== src/Lib.antt =====
-- BabelStream, the C++ benchmark of memory bandwidth.
--
-- Paths are those of the repository, which keeps its code under src/.
--
-- The program. src/main.cpp reads the command line into global settings, makes a back end through
-- `make_stream` of src/StreamModels.h, runs the selected kernels `num_times` times in one of two
-- orders, reads the arrays back, compares them with a reference solution of three scalars, and
-- prints a row for each kernel. src/benchmark.h holds the table of the kernels, src/Unit.h the
-- units, src/Stream.h the interface of a back end. A back end allocates three arrays and runs
-- copy, mul, add, triad, nstream and dot on them.
--
-- Which file models which part.
--   Benchmark      src/benchmark.h: identifiers, the table, `needs_buffer`, `run_benchmark`
--   Units          src/Unit.h
--   Options        the global settings of src/main.cpp
--   Models         the two #if chains of src/StreamModels.h, as functions of the defined macros
--   Stream         src/Stream.h: the interface as a record of operations on a state, and the
--                  contract `Implements`, which says what a kernel does to an index (a `Row`)
--   Stream/Kernels the loop bodies that the back ends share; Stream/Laws what loops over them do to
--                  all rows; Stream/Dot the reduction; Stream/Footprint the buffers of a kernel
--   Backend        one module for each back end: Serial (src/serial), Omp (src/omp), Raja (src/raja),
--                  Tbb (src/tbb), Std (src/std), Acc (src/acc), Kokkos (src/kokkos); Memory is their
--                  allocation, Parallel, Blocks and Algorithms what they expect of their run times,
--                  Passes the loops that only Std has
--   Backend/Hip, Cuda, Ocl, Sycl, SyclAi, Thrust
--                  src/hip, src/cuda, src/ocl, src/sycl, src/sycl-ai and src/thrust, each with
--                  Contract, which compares it with the contract (`get_arrays` of Sycl does not
--                  meet it), and modules for its constructor and its limits; Gpu is what Hip and
--                  Cuda share, WorkGroups what Ocl, Sycl and SyclAi share; SyclAi/Holds is about
--                  its state, Rounded about ranges of whole work groups, Unrolled about the
--                  unrolled loop of the reduction
--   Backend/Grid   kernels on a grid of blocks of threads: the strided loop of a thread (Strides), the
--                  indices that a grid visits (Cover, Launch), the reduction in shared memory
--                  (Halving, Reduction), and what it gives in exact arithmetic (Exact)
--   Cli            `parseArguments` of src/main.cpp, an argument at a time; Cli/Numbers is `parseUInt`
--                  and `parseInt` with `strtoull` and `strtoll`; Cli/Decimal, Valid, Render and
--                  Accepted prove about it, and Bounds holds what they share
--   Driver         RunAll is `time` and `run_all`; Gold and Check are `check_solution`; Output,
--                  Summary and Program are `run`; Agreement joins RunAll with Gold; Program/Success
--                  and Refused are over any back end, Program/Exact over Omp, Raja, Kokkos, Tbb and
--                  Std and Program/Devices over Hip, Cuda and Ocl in exact arithmetic; Main is
--                  `main`, with Main/Ends
--   Loop           `for` loops over schedules, array accesses, sums
--   Arith, Prelude arithmetic as an interface; outcomes, lists and tests
--   Tests          runs on concrete inputs
--
-- How state and control are modelled. A method is a function from the state of its object to a
-- `Run`: `ok`, `fault` (an access outside an array, or undefined behaviour), `exited` with a
-- status, `threw`, `hung` (a loop that never ends), or `aborted`. The driver keeps a back end,
-- the variable `sum` and the number of clock readings in a `World`. Arrays are lists; an access
-- out of range is a `fault`. Most loops of the program have a bound that is known at their start,
-- and are structural recursion. The loop of a thread over its indices adds a stride modulo 2 ^ 64
-- and has fuel for one round more than there are indices, which is enough for every stride above
-- 0 as long as sizes stay within 2 ^ 63, and never enough for the stride 0, where the loop is
-- `hung`; the halving loop of the reduction has fuel for one pass more than there are threads, of
-- which it needs the logarithm.
--
-- Parameters. Floating point is the interface `Arith`; a theorem that uses a law of it asks for
-- `IsExact` or `IsAssociative`. The clock is a function of the number of its readings, and the
-- exceptions of `reserve` are a function of the number of times; both make a `Host`. An allocator
-- returns blocks that hold anything, or a null pointer; where the source computes the bytes of an
-- array itself the product wraps modulo 2 ^ 64, and the block has room for the items that fit it
-- (`room`). OpenMP, OpenACC, RAJA and Kokkos are a `Runtime`: a schedule of the iterations for
-- each launch, and chunks for each reduction. oneTBB is a `Partitioner`: blocks, and a tree of
-- joins. The parallel algorithms of the standard library and of Thrust are `Algorithms`: an
-- order, and an expression for each reduction. A graphics processor is a `Device`: for each
-- launch any interleaving of the iterations of all threads, an order of the blocks of a
-- reduction, and for each block an order of its threads between two barriers, where they touch
-- different slots of the shared memory. Its library is a `Gpu` or a `Queue`: the device, the
-- status or the exception of each call, and what the shared memory holds at first. Loops run an
-- iteration at a time, in the order that the parameter chooses.
--
-- The scalar of src/std and src/cuda is a double literal in the kernels; the model takes it in T,
-- which is exact for T = double. `UNROLL_FACTOR` of src/cuda and the block sizes have their
-- defaults: 4, and those of the headers.
--
-- Bounds. `size_t` is taken modulo 2 ^ 64 where the code can leave its range: in `strtoull`, in
-- the bytes of an allocation, and in the arithmetic on sizes that is printed or compared with the
-- memory of a device. An index of a device is cut to an `int`. `dim3` and the index of the
-- reduction of src/hip are taken modulo 2 ^ 32. Other loop counters stay below the bound that
-- stops them.
--
-- Not modelled: the marks of `main` for Caliper and the text of the help; destructors, but for
-- the list of devices of Ocl and Sycl; the names and the listing of devices, and what is printed
-- about them; errors that SYCL reports asynchronously; the choice of a device by OpenMP and
-- OpenACC; the back ends sycl2020 (its conditionals are not closed, so no build compiles it),
-- futhark and legacy; the constructor of src/sycl-ai, which takes sizes from the environment or
-- tunes them by timing; src/ocl/CL/cl2.hpp, which belongs to another project; the ports to
-- Fortran, Java, Julia, Rust and Scala; the build files.
pub mod Prelude
pub mod Arith
pub mod Benchmark
pub mod Loop
pub mod Stream
pub mod Backend
pub mod Units
pub mod Options
pub mod Models
pub mod Cli
pub mod Driver
mod Tests
