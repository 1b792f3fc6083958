-- ===== src/Backend/Ocl.antt =====
-- src/ocl/OCLStream.cpp. The kernels' source text is compiled with the scalar as a macro.
pub mod Contract
pub mod Lifetime
use babel_stream.Prelude.{
  ℕ, zero, suc, ◌+◌, ◌*◌, ◌%◌, ◌^◌, Bool, true, false, not, Option, none, some, List, [], ◌∷◌, ◌++◌,
  length, replicate, get_elem?, ltb, leb, ◌==◌, Run, ok, threw, ◌>>=◌, ◌>>◌, defined, String,
  if◌then◌else◌,
}
use babel_stream.Arith.{Arith}
use babel_stream.Stream.{Arrays, Stream}
use babel_stream.Stream.Kernels.{init_body, copy_body, mul_body, add_body, triad_body, nstream_body}
use babel_stream.Backend.Memory.{room, IsSize, room_ok, Allocator, allocate}
use babel_stream.Backend.Grid.{host_sum}
use babel_stream.Backend.WorkGroups.{
  Queue, DeviceInfo, Globals, num_groups, group_size, from_int, check, check_all, range_for,
  group_sums,
}

-- How `program.build` ends.
pub data Build : Type 0 where
  built : Build
  -- `CL_BUILD_PROGRAM_FAILURE`
  build_failure : Build
  other_error : String → Build

pub record OclStream {ℓ} (T : Type ℓ) : Type ℓ where
  pub array_size : ℕ
  pub dot_num_groups : ℕ
  pub dot_wgsize : ℕ
  pub sums : List T
  pub d_sum : List T
  pub device : Arrays T
  pub host : Arrays T
  pub calls : ℕ

abbrev pub concat : List (List DeviceInfo) → List DeviceInfo
concat [] = []
concat (ds ∷ platforms) = ds ++ concat platforms

-- The devices of all platforms are added to the list.
unfoldable pub get_device_list : (platforms : List (List DeviceInfo)) → Globals → Globals
get_device_list platforms g = record { cached = true; devices = g.devices ++ concat platforms }

-- The destructor empties the list.
unfoldable pub destroy : Globals → Globals
destroy g = record g { devices = [] }

-- For `double` an error other than a failed build is caught and dropped; for `float` none is caught.
unfoldable pub build_program : (size_of : ℕ) → DeviceInfo → Build → Run (Unit {0})
build_program size_of info program =
    if size_of == 8
    then if info.has_double
      then elim program [
        | built ↦ ok tt
        | build_failure ↦ threw "clBuildProgram"
        | other_error what ↦ ok tt
      ]
      else threw "Device does not support double precision, please use --float"
    else if size_of == 4
    then elim program [
      | built ↦ ok tt
      | build_failure ↦ threw "clBuildProgram"
      | other_error what ↦ threw what
    ]
    else ok tt

module _ {ℓ} {T : Type ℓ} (q : Queue T) where
  -- A kernel over all indices, and `queue.finish()`.
  unfoldable pub run_kernel : (ℕ → Arrays T → Run (Arrays T)) → OclStream T → Run (OclStream T)
  run_kernel body s = do
    t ← range_for q s.calls s.array_size body s.device
    check q (s.calls + 1)
    ok (record s { device = t; calls = s.calls + 2 })

  unfoldable pub init_arrays : T → T → T → OclStream T → Run (OclStream T)
  unfolding run_kernel
  init_arrays x y z s = run_kernel (init_body x y z) s

  -- The first ten calls make the context, the queue, the program and the seven kernels, the next four
  -- the buffers.
  unfoldable pub construct :
      ⦃r : Arith T⦄ (platforms : List (List DeviceInfo)) (program : Build) (size_of : ℕ)
      (on_device : Allocator T)
      → Globals
      → (device_index n : ℕ) → T
      → T
      → T
      → Run (OclStream T × Globals)
  unfolding init_arrays get_device_list
  construct ⦃r⦄ platforms program size_of on_device before device_index n x y z = do
    let g = if before.cached then before else get_device_list platforms before
    info ← elim (get_elem? g.devices (from_int device_index)) [
      | none ↦ threw "Invalid device index"
      | some info ↦ ok info
    ]
    check_all q 0 3
    build_program size_of info program
    check_all q 3 7
    if ltb info.max_alloc (size_of * n % 2 ^ 64)
        then threw "Device cannot allocate a buffer big enough"
        else ok tt
    if ltb info.global_mem (3 * size_of * n % 2 ^ 64)
        then threw "Device does not have enough memory for all 3 buffers"
        else ok tt
    check_all q 10 4
    fresh ← allocate on_device (room size_of n)
    d_sum ← defined (on_device 3 (room size_of (num_groups info)))
    s ← init_arrays x y z (record {
      array_size = n;
      dot_num_groups = num_groups info;
      dot_wgsize = group_size info;
      sums = replicate (num_groups info) r.nought;
      d_sum = d_sum;
      device = fresh;
      host = record { a = []; b = []; c = [] };
      calls = 14;
    })
    ok (s, g)

  -- `cl::copy` of each array
  unfoldable pub get_arrays : OclStream T → Run (Arrays T × OclStream T)
  get_arrays s = do
    check_all q s.calls 3
    let t = record s { host = s.device; calls = s.calls + 3 }
    ok (t.host, t)

module _ {ℓ} {T : Type ℓ} ⦃r : Arith T⦄ (q : Queue T) where
  unfoldable pub copy : OclStream T → Run (OclStream T)
  unfolding run_kernel
  copy s = run_kernel q copy_body s

  unfoldable pub mul : OclStream T → Run (OclStream T)
  unfolding run_kernel
  mul s = run_kernel q mul_body s

  unfoldable pub add : OclStream T → Run (OclStream T)
  unfolding run_kernel
  add s = run_kernel q add_body s

  unfoldable pub triad : OclStream T → Run (OclStream T)
  unfolding run_kernel
  triad s = run_kernel q triad_body s

  unfoldable pub nstream : OclStream T → Run (OclStream T)
  unfolding run_kernel
  nstream s = run_kernel q nstream_body s

  -- The kernel, the copy of the sums to the host, and their sum.
  unfoldable pub dot : OclStream T → Run (T × OclStream T)
  dot s = do
    d_sum ← group_sums q s.calls s.array_size s.dot_num_groups s.dot_wgsize s.device s.d_sum
    check q (s.calls + 1)
    sum ← host_sum (length d_sum) d_sum
    ok (sum, record s { sums = d_sum; d_sum = d_sum; calls = s.calls + 2 })

  abbrev pub ocl_stream : Stream T
  ocl_stream = record {
    State = OclStream T;
    copy = copy;
    mul = mul;
    add = add;
    triad = triad;
    nstream = nstream;
    dot = dot;
    get_arrays = get_arrays q;
  }
