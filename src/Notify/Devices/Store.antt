-- ===== src/Notify/Devices/Store.antt =====
-- muxrd/src/notify/devices.rs: a device is registered once by its name.
use muxr_core.Base.{
  ◌≡◌, refl, subst, ◌≤◌, Bool, true, false, not, Option, none, some, List, [], ◌∷◌, length, All,
  arith, if◌then◌else◌,
}
use muxr_core.Routing.Names.{Bytes}
use muxr_core.Notify.Devices.{
  PushDevice, File, missing, unreadable, holds, load, same_text, put, keep, store, upsert,
  remove_where, remove_by_name, remove_by_handle,
}

-- The device that is registered under a name.
unfoldable pub device_of : Bytes → List PushDevice → Option PushDevice
device_of name [] = none
device_of name (d ∷ ds) = if same_text d.device_name name then some d else device_of name ds

-- No two devices have one name.
abbrev pub Unique : List PushDevice → Type 0
Unique [] = Unit
Unique (d ∷ ds) = (device_of d.device_name ds ≡ none) × Unique ds

abbrev pub UniqueFile : File → Type 0
UniqueFile missing = Unit
UniqueFile unreadable = Unit
UniqueFile (holds ds) = Unique ds

device_of-put :
    (name : Bytes) (d : PushDevice) (ds : List PushDevice)
    → device_of name (put d ds)
      ≡ (if same_text d.device_name name then some d else device_of name ds)
unfolding device_of put
device_of-put name d [] = refl
device_of-put name d (e ∷ ds) = ground (arith, device_of-put name d ds)

put-Unique : (d : PushDevice) (ds : List PushDevice) → Unique ds → Unique (put d ds)
unfolding put device_of
put-Unique d [] u = (refl, tt)
put-Unique d (e ∷ ds) u = ground (arith, put-Unique d ds u.1, device_of-put e.device_name d ds)

device_of-keep :
    (p : PushDevice → Bool) (name : Bytes) (ds : List PushDevice)
    → device_of name ds ≡ none
    → device_of name (keep p ds) ≡ none
unfolding device_of keep
device_of-keep p name [] h = refl
device_of-keep p name (d ∷ ds) h = ground (arith, device_of-keep p name ds)

keep-Unique : (p : PushDevice → Bool) (ds : List PushDevice) → Unique ds → Unique (keep p ds)
unfolding keep
keep-Unique p [] u = tt
keep-Unique p (d ∷ ds) u = ground (arith, keep-Unique p ds u.1, device_of-keep p d.device_name ds)

Unique-loaded :
    (file : File) (ds : List PushDevice) → load file ≡ some ds → UniqueFile file → Unique ds
unfolding load
Unique-loaded missing ds h u =
    let p : [] ≡ ds = ground arith in subst (λ (o : List PushDevice). Unique o) p tt
Unique-loaded unreadable ds h u = ground arith
Unique-loaded (holds es) ds h u =
    let p : es ≡ ds = ground arith in subst (λ (o : List PushDevice). Unique o) p u

length-keep : (p : PushDevice → Bool) (ds : List PushDevice) → length (keep p ds) ≤ length ds
unfolding keep
length-keep p [] = omega arith
length-keep p (d ∷ ds) = ground (arith, length-keep p ds)

abbrev pub Satisfies : (PushDevice → Bool) → PushDevice → Type 0
Satisfies p d = p d ≡ true

keep-All : (p : PushDevice → Bool) (ds : List PushDevice) → All (Satisfies p) (keep p ds)
unfolding keep
keep-All p [] = tt
keep-All p (d ∷ ds) = ground (arith, keep-All p ds)

keep_whole :
    (p : PushDevice → Bool) (ds : List PushDevice) → length (keep p ds) ≡ length ds → keep p ds ≡ ds
unfolding keep
keep_whole p [] h = refl
keep_whole p (d ∷ ds) h = ground (arith, keep_whole p ds, length-keep p ds)

-- When the file can be read and written, registering a device leaves exactly this device under its
-- name and every other name as it was, and the names stay distinct when they were.
pub upsert-device_of :
    (file : File) (ds : List PushDevice) (d : PushDevice)
    → load file ≡ some ds
    → UniqueFile file
    → (upsert true file d ≡ (holds (put d ds), true))
      × Unique (put d ds)
      × ((name : Bytes)
          → device_of name (put d ds)
            ≡ (if same_text d.device_name name then some d else device_of name ds))
unfolding load upsert store
upsert-device_of missing ds d h u =
    (ground arith, put-Unique d ds (Unique-loaded missing ds h u), λ name. device_of-put name d ds)
upsert-device_of unreadable ds d h u = ground arith
upsert-device_of (holds es) ds d h u = (
  ground arith,
  put-Unique d ds (Unique-loaded (holds es) ds h u),
  λ name. device_of-put name d ds,
)

-- A call that fails leaves the file as it was: a file that cannot be read is never written over.
pub failed_unchanged :
    (writes : Bool) (file : File)
    → ((d : PushDevice) → (upsert writes file d).1 ≡ false → (upsert writes file d).0 ≡ file)
      × ((name : Bytes)
          → (remove_by_name writes file name).1 ≡ none
          → (remove_by_name writes file name).0 ≡ file)
      × ((handle : Bytes)
          → (remove_by_handle writes file handle).1 ≡ none
          → (remove_by_handle writes file handle).0 ≡ file)
unfolding upsert remove_by_name remove_by_handle remove_where store
failed_unchanged writes file = (λ d h. ground arith, λ n h. ground arith, λ n h. ground arith)

abbrev pub without : Bytes → PushDevice → Bool
without handle d = not (same_text d.push_handle handle)

removed_form :
    (writes : Bool) (file : File) (ds : List PushDevice) (handle : Bytes) (removed : Bool)
    → load file ≡ some ds
    → (remove_by_handle writes file handle).1 ≡ some removed
    → load (remove_by_handle writes file handle).0 ≡ some (keep (without handle) ds)
unfolding load remove_by_handle remove_where store
removed_form writes missing ds handle removed l h = ground (arith, keep_whole (without handle) ds)
removed_form writes unreadable ds handle removed l h = ground arith
removed_form writes (holds es) ds handle removed l h =
    ground (arith, keep_whole (without handle) ds)

-- When a removal by handle succeeds, the file has the devices that it had less those with the
-- handle, in their order, so that none has the handle, and the names stay distinct when they were.
pub remove_by_handle-keep :
    (writes : Bool) (file : File) (ds : List PushDevice) (handle : Bytes) (removed : Bool)
    → load file ≡ some ds
    → (remove_by_handle writes file handle).1 ≡ some removed
    → UniqueFile file
    → (load (remove_by_handle writes file handle).0 ≡ some (keep (without handle) ds))
      × All (Satisfies (without handle)) (keep (without handle) ds)
      × Unique (keep (without handle) ds)
remove_by_handle-keep writes file ds handle removed l h u = (
  removed_form writes file ds handle removed l h,
  keep-All (without handle) ds,
  keep-Unique (without handle) ds (Unique-loaded file ds l u),
)
