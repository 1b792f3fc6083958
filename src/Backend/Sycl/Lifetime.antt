-- ===== src/Backend/Sycl/Lifetime.antt =====
-- The constructor and the destructor of the SYCL back end, and the list of devices that they share.
use babel_stream.Prelude.{
  ◌<◌, ℕ, ◌^◌, ◌≡◌, ◌⊎◌, inl, inr, refl, sym, ap₂, true, false, ◌&&◌, not, some, List, [], length,
  replicate, get_elem?, ◌==◌, ok, threw, Returns, arith, subst,
}
use babel_stream.Stream.{Row, arrays_of}
use babel_stream.Stream.Kernels.{init_body}
use babel_stream.Stream.Laws.{for_each-init, init_row}
use babel_stream.Backend.Memory.{Allocator, IsAllocator, allocate_rows, map-const}
use babel_stream.Backend.WorkGroups.{
  Queue, IsQueue, DeviceInfo, Globals, num_groups, group_size, from_int_small,
}
use babel_stream.Backend.WorkGroups.Laws.{IsRange, check_all_ok}
use babel_stream.Backend.Sycl.{SyclStream, get_device_list, destroy, init_arrays, construct}
use babel_stream.Backend.Sycl.Contract.{Holds, run_kernel-loop}

-- The global variables when the program starts.
abbrev pub at_start : Globals
at_start = record { cached = false; devices = [] }

-- `double` needs a device that has it.
abbrev pub CanRun : DeviceInfo → (size_of : ℕ) → Type 0
CanRun info size_of = (size_of ≡ 4) ⊎ ((size_of ≡ 8) × (info.has_double ≡ true))

precision_ok :
    (info : DeviceInfo) (size_of : ℕ)
    → CanRun info size_of
    → (size_of == 8 && not info.has_double) ≡ false
precision_ok info size_of (inl e) = rw e (ground arith)
precision_ok info size_of (inr (e, has)) = rw (e, has) (ground arith)

module _ {ℓ} {T : Type ℓ} (q : Queue T) (m : ℕ) (good : IsQueue q (2 ^ m)) where
  begin_ok :
      (groups n : ℕ) (l : List (Row T)) (x y z : T) (s : SyclStream T)
      → length l ≡ n
      → Holds m groups s l
      → Returns
          (init_arrays q x y z s)
          (λ t. Holds m groups t (replicate n (record { a = x; b = y; c = z })))
  unfolding init_arrays
  begin_ok groups n l x y z s size h =
      subst (λ k. Returns (init_arrays q x y z s) (λ t. Holds m groups t k))
        (map-const n l (record { a = x; b = y; c = z }) size)
        (run_kernel-loop q m good groups (init_body x y z) (init_row x y z) (for_each-init x y z) s
          l h)

  -- Once the list is cached and the destructor has emptied it, no device is found any more: a second
  -- object cannot be made.
  pub sycl_rebuild_fails :
      (devices : List DeviceInfo) (size_of : ℕ) (on_device : Allocator T) (g : Globals)
      (device_index n : ℕ) (x y z : T)
      → g.cached ≡ true
      → construct q devices size_of on_device (destroy g) device_index n x y z
        ≡ threw "Invalid device index"
  unfolding construct destroy
  sycl_rebuild_fails devices size_of on_device g device_index n x y z cached = rw cached refl

  -- The first object of a program, on a device of the list that can run it: every item of the
  -- arrays has its initial value; and after its destructor no second object can be made, on any
  -- device.
  pub sycl_construct_ok :
      (devices : List DeviceInfo) (size_of : ℕ) (on_device : Allocator T) (info : DeviceInfo)
      (device_index n : ℕ) (x y z : T)
      → get_elem? devices device_index ≡ some info
      → device_index < 2 ^ 31
      → CanRun info size_of
      → group_size info ≡ 2 ^ m
      → IsRange m (num_groups info) n
      → IsAllocator on_device
      → Returns (construct q devices size_of on_device at_start device_index n x y z) (λ v.
        Holds m (num_groups info) v.0 (replicate n (record { a = x; b = y; c = z }))
        × ((d : ℕ)
            → construct q devices size_of on_device (destroy v.1) d n x y z
              ≡ threw "Invalid device index"))
  unfolding construct get_device_list
  sycl_construct_ok devices size_of on_device info device_index n x y z found int can size is
        good_device =
      let (l, e, len) = allocate_rows on_device good_device n in
      let (d_sum, es, n_sums) = good_device 3 (num_groups info) in
      let (s, begun, h) =
        begin_ok (num_groups info) n l x y z
          (record {
            array_size = n;
            dot_num_groups = num_groups info;
            dot_wgsize = group_size info;
            d_sum = d_sum;
            device = arrays_of l;
            calls = 5;
          })
          len
          (
            d_sum,
            5,
            n_sums,
            rw len is,
            ap₂
                (λ k w. record {
                  array_size = k;
                  dot_num_groups = num_groups info;
                  dot_wgsize = w;
                  d_sum = d_sum;
                  device = arrays_of l;
                  calls = 5;
                })
                (sym len) size,
          ) in
      let g : Globals = record { cached = true; devices = devices } in
      let made : construct q devices size_of on_device at_start device_index n x y z
          ≡ ok (s, record { cached = true; devices = devices }) =
        rw
          (
            from_int_small device_index int,
            found,
            precision_ok info size_of can,
            check_all_ok q (2 ^ m) good 0 5,
            e,
            es,
            begun,
          )
          refl in
      ((s, g), made, (h, λ d. sycl_rebuild_fails devices size_of on_device g d n x y z refl))
