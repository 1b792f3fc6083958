-- ===== src/Models.antt =====
-- src/StreamModels.h: which back end a build chooses. The header is chosen by one chain of `#if`, the
-- class that `make_stream` makes by another one, in another order.
use babel_stream.Prelude.{String, Bool, ◌||◌, Option, none, some, if◌then◌else◌}

-- The macros that the chains test.
pub data Macro : Type 0 where
  cuda std tbb thrust hip hc ocl use_raja kokkos acc sycl sycl2020 omp serial futhark : Macro

pub data Class : Type 0 where
  cuda_stream std_stream tbb_stream thrust_stream hip_stream hc_stream ocl_stream raja_stream :
      Class
  kokkos_stream acc_stream sycl_stream omp_stream serial_stream futhark_stream : Class

-- The included file; `none`: no header is included.
unfoldable pub included : (Macro → Bool) → Option String
included defined =
    if defined cuda
    then some "CUDAStream.h"
    else if defined std
    then some "STDStream.h"
    else if defined tbb
    then some "TBBStream.hpp"
    else if defined thrust
    then some "ThrustStream.h"
    else if defined hip
    then some "HIPStream.h"
    else if defined hc
    then some "HCStream.h"
    else if defined ocl
    then some "OCLStream.h"
    else if defined use_raja
    then some "RAJAStream.hpp"
    else if defined kokkos
    then some "KokkosStream.hpp"
    else if defined acc
    then some "ACCStream.h"
    else if defined sycl
    then some "SYCLStream.h"
    else if defined sycl2020
    then some "SYCLStream2020.h"
    else if defined omp
    then some "OMPStream.h"
    else if defined serial
    then some "SerialStream.h"
    else if defined futhark
    then some "FutharkStream.h"
    else none

-- `none`: the `#error`.
unfoldable pub made : (Macro → Bool) → Option Class
made defined =
    if defined cuda
    then some cuda_stream
    else if defined hip
    then some hip_stream
    else if defined hc
    then some hc_stream
    else if defined ocl
    then some ocl_stream
    else if defined use_raja
    then some raja_stream
    else if defined kokkos
    then some kokkos_stream
    else if defined std
    then some std_stream
    else if defined tbb
    then some tbb_stream
    else if defined thrust
    then some thrust_stream
    else if defined acc
    then some acc_stream
    else if defined sycl || defined sycl2020
    then some sycl_stream
    else if defined omp
    then some omp_stream
    else if defined serial
    then some serial_stream
    else if defined futhark
    then some futhark_stream
    else none
