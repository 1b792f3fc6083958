-- ===== src/Backend/Ocl/Lifetime.antt =====
-- The constructor and the destructor of the OpenCL back end, and the list of devices that they share.
use babel_stream.Prelude.{
  ◌<◌, ℕ, ◌*◌, ◌%◌, ◌^◌, ◌≤◌, ◌≡◌, ◌⊎◌, inl, inr, refl, sym, ap₂, true, false, some, List, [],
  length, replicate, get_elem?, ltb, ok, threw, Returns, arith, subst,
}
use babel_stream.Arith.{Arith}
use babel_stream.Stream.{Row, arrays_of}
use babel_stream.Stream.Kernels.{init_body}
use babel_stream.Stream.Laws.{for_each-init, init_row}
use babel_stream.Backend.Memory.{IsSize, room_ok, Allocator, IsAllocator, allocate_rows, map-const}
use babel_stream.Backend.WorkGroups.{
  Queue, IsQueue, DeviceInfo, Globals, num_groups, group_size, from_int_small,
}
use babel_stream.Backend.WorkGroups.Laws.{IsRange, check_all_ok}
use babel_stream.Backend.Ocl.{
  Build, built, OclStream, concat, get_device_list, destroy, build_program, init_arrays, construct,
}
use babel_stream.Backend.Ocl.Contract.{Holds, run_kernel-loop}

-- The global variables when the program starts.
abbrev pub at_start : Globals
at_start = record { cached = false; devices = [] }

-- What the constructor needs of the device for `n` items of `size_of` bytes: neither the bytes of an
-- array nor those of the sums wrap modulo 2 ^ 64.
pub record CanRun (info : DeviceInfo) (size_of n : ℕ) : Type 0 where
  pub size : (size_of ≡ 4) ⊎ ((size_of ≡ 8) × (info.has_double ≡ true))
  pub one_fits : size_of * n % 2 ^ 64 ≤ info.max_alloc
  pub wide : IsSize size_of n
  pub wide_sums : IsSize size_of (num_groups info)
  pub all_fit : 3 * size_of * n % 2 ^ 64 ≤ info.global_mem

build_ok :
    (info : DeviceInfo) (size_of n : ℕ)
    → CanRun info size_of n
    → build_program size_of info built ≡ ok tt
unfolding build_program
build_ok info size_of n can = elim can.size [
  | inl e ↦ rw e (ground arith)
  | inr (e, has) ↦ rw (e, has) (ground arith)
]

module _ {ℓ} {T : Type ℓ} ⦃r : Arith T⦄ (q : Queue T) (m : ℕ) (good : IsQueue q (2 ^ m)) where
  begin_ok :
      (groups n : ℕ) (l : List (Row T)) (x y z : T) (s : OclStream T)
      → length l ≡ n
      → Holds m groups s l
      → Returns
          (init_arrays q x y z s)
          (λ t. Holds m groups t (replicate n (record { a = x; b = y; c = z })))
  unfolding init_arrays
  begin_ok groups n l x y z s size h =
      subst (λ k. Returns (init_arrays q x y z s) (λ t. Holds m groups t k))
        (map-const n l (record { a = x; b = y; c = z }) size)
        (run_kernel-loop q m good groups (init_body x y z) (init_row x y z) (for_each-init x y z) s
          l h)

  -- Once the list is cached and the destructor has emptied it, no device is found any more: a second
  -- object cannot be made.
  pub ocl_rebuild_fails :
      (platforms : List (List DeviceInfo)) (program : Build) (size_of : ℕ) (on_device : Allocator T)
      (g : Globals) (device_index n : ℕ) (x y z : T)
      → g.cached ≡ true
      → construct q platforms program size_of on_device (destroy g) device_index n x y z
        ≡ threw "Invalid device index"
  unfolding construct destroy
  ocl_rebuild_fails platforms program size_of on_device g device_index n x y z cached =
      rw cached refl

  pub ocl_construct_ok :
      (platforms : List (List DeviceInfo)) (size_of : ℕ) (on_device : Allocator T)
      (info : DeviceInfo) (device_index n : ℕ) (x y z : T)
      → get_elem? (concat platforms) device_index ≡ some info
      → device_index < 2 ^ 31
      → CanRun info size_of n
      → group_size info ≡ 2 ^ m
      → IsRange m (num_groups info) n
      → IsAllocator on_device
      → Returns (construct q platforms built size_of on_device at_start device_index n x y z) (λ v.
        Holds m (num_groups info) v.0 (replicate n (record { a = x; b = y; c = z }))
        × ((d : ℕ)
            → construct q platforms built size_of on_device (destroy v.1) d n x y z
              ≡ threw "Invalid device index"))
  unfolding construct get_device_list
  ocl_construct_ok platforms size_of on_device info device_index n x y z found int can size is
        good_device =
      let (l, e, len) = allocate_rows on_device good_device n in
      let (d_sum, es, n_sums) = good_device 3 (num_groups info) in
      let one : ltb info.max_alloc (size_of * n % 2 ^ 64) ≡ false = ground (arith, can.one_fits) in
      let all : ltb info.global_mem (3 * size_of * n % 2 ^ 64) ≡ false =
        ground (arith, can.all_fit) in
      let (s, begun, h) =
        begin_ok (num_groups info) n l x y z
          (record {
            array_size = n;
            dot_num_groups = num_groups info;
            dot_wgsize = group_size info;
            sums = replicate (num_groups info) r.nought;
            d_sum = d_sum;
            device = arrays_of l;
            host = record { a = []; b = []; c = [] };
            calls = 14;
          })
          len
          (
            replicate (num_groups info) r.nought,
            d_sum,
            record { a = []; b = []; c = [] },
            14,
            n_sums,
            rw len is,
            ap₂
                (λ k w. record {
                  array_size = k;
                  dot_num_groups = num_groups info;
                  dot_wgsize = w;
                  sums = replicate (num_groups info) r.nought;
                  d_sum = d_sum;
                  device = arrays_of l;
                  host = record { a = []; b = []; c = [] };
                  calls = 14;
                })
                (sym len) size,
          ) in
      let g : Globals = record { cached = true; devices = concat platforms } in
      let made : construct q platforms built size_of on_device at_start device_index n x y z
          ≡ ok (s, record { cached = true; devices = concat platforms }) =
        rw
          (
            from_int_small device_index int,
            found,
            check_all_ok q (2 ^ m) good 0 3,
            build_ok info size_of n can,
            check_all_ok q (2 ^ m) good 3 7,
            one,
            all,
            check_all_ok q (2 ^ m) good 10 4,
            room_ok size_of n can.wide,
            e,
            room_ok size_of (num_groups info) can.wide_sums,
            es,
            begun,
          )
          refl in
      ((s, g), made, (h, λ d. ocl_rebuild_fails platforms built size_of on_device g d n x y z refl))
