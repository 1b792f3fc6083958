-- ===== src/Driver/Program/Devices.antt =====
-- `run` of src/main.cpp over the back ends for graphics processors, in exact arithmetic.
use babel_stream.Prelude.{
  none, ℕ, ◌+◌, ◌*◌, ◌%◌, ◌^◌, ◌<◌, ◌≤◌, ◌≡◌, refl, List, get_elem?, some, ok, ◌>>=◌, Returns,
}
use babel_stream.Arith.{Arith, IsExact}
use babel_stream.Options.{Options}
use babel_stream.Benchmark.{start_a, start_b, start_c}
use babel_stream.Backend.Memory.{Allocator, IsAllocator, IsSize}
use babel_stream.Backend.Gpu.{Gpu, IsGpu, Memory}
use babel_stream.Backend.WorkGroups.{Queue, IsQueue, DeviceInfo, num_groups, group_size}
use babel_stream.Backend.WorkGroups.Laws.{IsRange, IsGroupSum-dot_rows}
use babel_stream.Backend.Hip
use babel_stream.Backend.Hip.Contract.{IsElementSize, Fits as HipFits, hip_implements}
use babel_stream.Backend.Hip.Limits.{hip_construct_ok, IsHipSum-dot_rows}
use babel_stream.Backend.Cuda
use babel_stream.Backend.Cuda.Construct
use babel_stream.Backend.Cuda.Launch.{Fits as CudaFits, IsOccupancy}
use babel_stream.Backend.Cuda.Contract.{cuda_implements, IsCudaSum-dot_rows}
use babel_stream.Backend.Cuda.Made.{cuda_construct_ok}
use babel_stream.Backend.Ocl
use babel_stream.Backend.Ocl.Contract.{ocl_implements}
use babel_stream.Backend.Ocl.Lifetime.{CanRun, at_start, ocl_construct_ok}
use babel_stream.Driver.RunAll.{Host}
use babel_stream.Driver.Program.{run}
use babel_stream.Driver.Program.Success.{HasTable}
use babel_stream.Driver.Program.Exact.{IsReflexive, exact_run_ok}

module _ {ℓ κ} {T : Type ℓ} {D : Type κ} ⦃r : Arith T⦄ ⦃d : Arith D⦄ (exact : IsExact T)
    (reflexive : IsReflexive T) (host : Host D) (size_of : ℕ) where
  -- In exact arithmetic, and if equal values pass a comparison, every run over the HIP back end
  -- with two rounds at least, on a device that is there, of less than 2^31, with 1 to 2^32 items of
  -- 4 or 8 bytes that fit the memory of device 0, ends normally and prints its table, if there is
  -- room for the times of the rounds, no call fails and every allocation succeeds.
  pub hip_run_ok :
      (gpu : Gpu T)
      → IsGpu gpu Hip.tb_size
      → (mem : Memory) (count : ℕ) (global_mem : ℕ → ℕ) (on_host on_device : Allocator T)
      → IsAllocator on_host
      → IsAllocator on_device
      → IsElementSize size_of
      → (o : Options) → 2 ≤ o.num_times
      → host.refuses o.num_times ≡ none
      → HipFits o.array_size
      → o.device_index < count
      → count < 2 ^ 31
      → 3 * (size_of * o.array_size) ≤ global_mem 0
      → Returns
          (run
            (Hip.hip_stream gpu mem)
            (λ id n device x y z.
              Hip.construct gpu size_of mem count global_mem on_host on_device device n x y z)
            host
            size_of
            o)
          (HasTable size_of o)
  hip_run_ok gpu good mem count global_mem on_host on_device good_host good_device sized o ge roomy
        fits there int memory =
      exact_run_ok exact reflexive host size_of (Hip.hip_stream gpu mem) _
        (hip_implements gpu good size_of sized mem)
        (λ l v. IsHipSum-dot_rows exact size_of l v sized) o ge roomy
        (hip_construct_ok gpu good size_of mem count global_mem on_host on_device o.device_index
          o.array_size start_a start_b start_c sized fits there int memory good_host good_device)

  -- In exact arithmetic, and if equal values pass a comparison, every run over the CUDA back end
  -- with `GRID_STRIDE` and two rounds at least, on a device that is there, of less than 2^31, with
  -- 1 to 2^20 multiprocessors, with at least 4 and less than 2^34 items that fit its memory, ends
  -- normally and prints its table, if the bytes of the arrays and of the sums do not wrap modulo
  -- 2^64, there is room for the times of the rounds, no call fails and every allocation succeeds.
  pub cuda_run_ok :
      (gpu : Gpu T)
      → IsGpu gpu Cuda.tb_size_dot
      → (mem : Memory) (suggested : Cuda.Kernel → ℕ) → IsOccupancy suggested
      → (count : ℕ) (processors global_mem : ℕ → ℕ) (on_host on_device : Allocator T)
      → IsAllocator on_host
      → IsAllocator on_device
      → (o : Options) → 2 ≤ o.num_times
      → host.refuses o.num_times ≡ none
      → CudaFits o.array_size
      → o.device_index < count
      → count < 2 ^ 31
      → IsSize size_of o.array_size
      → IsSize size_of (processors o.device_index * 4)
      → 0 < processors o.device_index
      → processors o.device_index ≤ 2 ^ 20
      → ((size_of * o.array_size % 2 ^ 64) * 3 + size_of * (processors o.device_index * 4) % 2 ^ 64)
          % 2 ^ 64
        ≤ global_mem o.device_index
      → Returns
          (run
            (Cuda.cuda_stream gpu suggested Cuda.grid_stride mem)
            (λ id n device x y z.
              Construct.construct gpu mem suggested Cuda.grid_stride size_of count processors
                global_mem on_host on_device device n x y z)
            host
            size_of
            o)
          (HasTable size_of o)
  cuda_run_ok gpu good mem suggested occupancy count processors global_mem on_host on_device
        good_host good_device o ge roomy fits there int wide wide_sums pos few memory =
      exact_run_ok exact reflexive host size_of
        (Cuda.cuda_stream gpu suggested Cuda.grid_stride mem) _
        (cuda_implements gpu good (processors o.device_index) pos few suggested occupancy mem)
        (IsCudaSum-dot_rows exact (processors o.device_index) pos few) o ge roomy
        (cuda_construct_ok gpu good mem suggested size_of count processors global_mem on_host
          on_device o.device_index o.array_size start_a start_b start_c occupancy fits there int
          wide wide_sums memory good_host good_device)

  -- In exact arithmetic, and if equal values pass a comparison, every run over the OpenCL back end
  -- with two rounds at least, on a device of some platform that can run it and whose work groups
  -- have a power of two of work items, ends normally and prints its table, if the index of the
  -- device is an `int`, the bytes of an array and of the sums do not wrap modulo 2^64, there is
  -- room for the times of the rounds, no call fails and every allocation succeeds.
  pub ocl_run_ok :
      (q : Queue T) (m : ℕ)
      → IsQueue q (2 ^ m)
      → (platforms : List (List DeviceInfo)) (on_device : Allocator T) (info : DeviceInfo)
      → IsAllocator on_device
      → (o : Options) → 2 ≤ o.num_times
      → host.refuses o.num_times ≡ none
      → get_elem? (Ocl.concat platforms) o.device_index ≡ some info
      → o.device_index < 2 ^ 31
      → CanRun info size_of o.array_size
      → group_size info ≡ 2 ^ m
      → IsRange m (num_groups info) o.array_size
      → Returns
          (run
            (Ocl.ocl_stream q)
            (λ id n device x y z.
              Ocl.construct q platforms Ocl.built size_of on_device at_start device n x y z >>= λ v.
              ok v.0)
            host
            size_of
            o)
          (HasTable size_of o)
  ocl_run_ok q m good platforms on_device info good_device o ge roomy found int can size is =
      let (v, made, (holds, _)) =
        ocl_construct_ok q m good platforms size_of on_device info o.device_index o.array_size
          start_a start_b start_c found int can size is good_device in
      exact_run_ok exact reflexive host size_of (Ocl.ocl_stream q) _
        (ocl_implements q m good (num_groups info)) (IsGroupSum-dot_rows exact m (num_groups info))
        o ge roomy (v.0, rw made refl, holds)
