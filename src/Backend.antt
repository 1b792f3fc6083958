-- ===== src/Backend.antt =====
-- The implementations of `Stream`, and what they share.
pub mod Memory
pub mod Serial
pub mod Parallel
pub mod Blocks
pub mod Grid
pub mod Gpu
pub mod Hip
pub mod Cuda
pub mod WorkGroups
pub mod Ocl
pub mod Sycl
pub mod SyclAi
pub mod Thrust
pub mod Algorithms
pub mod Omp
pub mod Raja
pub mod Tbb
pub mod Passes
pub mod Std
pub mod Acc
pub mod Kokkos
