-- ===== src/Backend/Sycl.antt =====
-- src/sycl/SYCLStream.cpp. Errors that the run time reports asynchronously are not seen by
-- `queue->wait()`, and not modelled.
pub mod Contract
pub mod Lifetime
use babel_stream.Prelude.{
  ℕ, zero, suc, ◌+◌, ◌*◌, Bool, true, false, ◌&&◌, not, none, some, List, [], ◌∷◌, length,
  get_elem?, ◌==◌, Run, ok, threw, ◌>>=◌, ◌>>◌, defined, if◌then◌else◌,
}
use babel_stream.Arith.{Arith}
use babel_stream.Stream.{Arrays, Stream}
use babel_stream.Stream.Kernels.{init_body, copy_body, mul_body, add_body, triad_body, nstream_body}
use babel_stream.Backend.Memory.{Allocator, allocate}
use babel_stream.Backend.Grid.{host_sum}
use babel_stream.Backend.WorkGroups.{
  Queue, DeviceInfo, Globals, num_groups, group_size, from_int, check, check_all, range_for,
  group_sums,
}

-- `device` are the buffers `d_a`, `d_b`, `d_c`.
pub record SyclStream {ℓ} (T : Type ℓ) : Type ℓ where
  pub array_size : ℕ
  pub dot_num_groups : ℕ
  pub dot_wgsize : ℕ
  pub d_sum : List T
  pub device : Arrays T
  pub calls : ℕ

-- Pointers that no access may use
abbrev pub dangling {ℓ} : {T : Type ℓ} → Arrays T
dangling = record { a = []; b = []; c = [] }

unfoldable pub get_device_list : (all : List DeviceInfo) → Globals → Globals
get_device_list all g = record { cached = true; devices = all }

-- The destructor empties the list.
unfoldable pub destroy : Globals → Globals
destroy g = record g { devices = [] }

module _ {ℓ} {T : Type ℓ} (q : Queue T) where
  -- `submit` of a kernel over all indices, and `wait`.
  unfoldable pub run_kernel : (ℕ → Arrays T → Run (Arrays T)) → SyclStream T → Run (SyclStream T)
  run_kernel body s = do
    t ← range_for q s.calls s.array_size body s.device
    check q (s.calls + 1)
    ok (record s { device = t; calls = s.calls + 2 })

  unfoldable pub init_arrays : T → T → T → SyclStream T → Run (SyclStream T)
  unfolding run_kernel
  init_arrays x y z s = run_kernel (init_body x y z) s

  -- The calls make the queue and the four buffers.
  unfoldable pub construct :
      (all : List DeviceInfo) (size_of : ℕ) (on_device : Allocator T)
      → Globals
      → (device_index n : ℕ) → T
      → T
      → T
      → Run (SyclStream T × Globals)
  unfolding init_arrays get_device_list
  construct all size_of on_device before device_index n x y z = do
    let g = if before.cached then before else get_device_list all before
    info ← elim (get_elem? g.devices (from_int device_index)) [
      | none ↦ threw "Invalid device index"
      | some info ↦ ok info
    ]
    if size_of == 8 && not info.has_double
        then threw "Device does not support double precision, please use --float"
        else ok tt
    check_all q 0 5
    fresh ← allocate on_device n
    d_sum ← defined (on_device 3 (num_groups info))
    s ← init_arrays x y z (record {
      array_size = n;
      dot_num_groups = num_groups info;
      dot_wgsize = group_size info;
      d_sum = d_sum;
      device = fresh;
      calls = 5;
    })
    ok (s, g)

  -- The accessors for the host end with the call: no item can be read through the pointers that it
  -- returns.
  unfoldable pub get_arrays : SyclStream T → Run (Arrays T × SyclStream T)
  get_arrays s = do check_all q s.calls 3; ok (dangling, record s { calls = s.calls + 3 })

module _ {ℓ} {T : Type ℓ} ⦃r : Arith T⦄ (q : Queue T) where
  unfoldable pub copy : SyclStream T → Run (SyclStream T)
  unfolding run_kernel
  copy s = run_kernel q copy_body s

  unfoldable pub mul : SyclStream T → Run (SyclStream T)
  unfolding run_kernel
  mul s = run_kernel q mul_body s

  unfoldable pub add : SyclStream T → Run (SyclStream T)
  unfolding run_kernel
  add s = run_kernel q add_body s

  unfoldable pub triad : SyclStream T → Run (SyclStream T)
  unfolding run_kernel
  triad s = run_kernel q triad_body s

  unfoldable pub nstream : SyclStream T → Run (SyclStream T)
  unfolding run_kernel
  nstream s = run_kernel q nstream_body s

  -- The kernel, the accessor of the sums for the host, and their sum.
  unfoldable pub dot : SyclStream T → Run (T × SyclStream T)
  dot s = do
    d_sum ← group_sums q s.calls s.array_size s.dot_num_groups s.dot_wgsize s.device s.d_sum
    check q (s.calls + 1)
    sum ← host_sum s.dot_num_groups d_sum
    ok (sum, record s { d_sum = d_sum; calls = s.calls + 2 })

  abbrev pub sycl_stream : Stream T
  sycl_stream = record {
    State = SyclStream T;
    copy = copy;
    mul = mul;
    add = add;
    triad = triad;
    nstream = nstream;
    dot = dot;
    get_arrays = get_arrays q;
  }
