-- ===== src/Notify/Devices.antt =====
-- muxrd/src/notify/devices.rs: the registry of push devices in its file. A call holds the file's
-- lock from the reading to the writing, so it is one step here. Texts are lists of bytes; the
-- encoding of the file is the library's, so that the file holds a list of devices, or cannot be
-- read, or is missing.
pub mod Store
use muxr_core.Base.{
  ℕ, Bool, true, false, not, ◌&&◌, ◌||◌, ◌==◌, Option, none, some, List, [], ◌∷◌, length, all, leb,
  ltb, if◌then◌else◌, ite,
}
use muxr_core.Routing.Names.{Bytes, bytes_discrete, is_name_byte}

abbrev pub min_handle_len : ℕ
min_handle_len = 32

abbrev pub max_handle_len : ℕ
max_handle_len = 128

abbrev pub min_name_len : ℕ
min_name_len = 1

abbrev pub max_name_len : ℕ
max_name_len = 64

pub record PushDevice : Type 0 where
  pub device_name : Bytes
  pub push_handle : Bytes
  pub platform : Bytes
  pub registered_at : ℕ

pub data File : Type 0 where
  missing : File
  unreadable : File
  holds : List PushDevice → File

unfoldable pub load : File → Option (List PushDevice)
load missing = some []
load unreadable = none
load (holds ds) = some ds

abbrev pub same_text : Bytes → Bytes → Bool
same_text s t = ite (bytes_discrete s t) true false

-- Replaces the first device of the name, or adds one behind the others.
unfoldable pub put : PushDevice → List PushDevice → List PushDevice
put d [] = d ∷ []
put d (e ∷ ds) = if same_text e.device_name d.device_name then d ∷ ds else e ∷ put d ds

-- `Vec::retain`.
unfoldable pub keep : (PushDevice → Bool) → List PushDevice → List PushDevice
keep p [] = []
keep p (d ∷ ds) = let rest = keep p ds in if p d then d ∷ rest else rest

-- The file after a call, and its result; `writes` tells whether the file can be written.
unfoldable pub store : Bool → File → List PushDevice → File × Bool
store writes file ds = if writes then (holds ds, true) else (file, false)

unfoldable pub upsert : Bool → File → PushDevice → File × Bool
unfolding load put store
upsert writes file d = elim (load file) [
  | none ↦ (file, false)
  | some ds ↦ store writes file (put d ds)
]

-- The result is none on an error, and else whether a device was removed.
unfoldable pub remove_where : Bool → File → (PushDevice → Bool) → File × Option Bool
unfolding load keep store
remove_where writes file gone = elim (load file) [
  | none ↦ (file, none)
  | some ds ↦
      let kept = keep (λ d. not (gone d)) ds in
      if length kept == length ds
      then (file, some false)
      else (let (file', written) = store writes file kept in
          (file', if written then some true else none))
]

unfoldable pub remove_by_name : Bool → File → Bytes → File × Option Bool
unfolding remove_where
remove_by_name writes file name = remove_where writes file (λ d. same_text d.device_name name)

unfoldable pub remove_by_handle : Bool → File → Bytes → File × Option Bool
unfolding remove_where
remove_by_handle writes file handle = remove_where writes file (λ d. same_text d.push_handle handle)

unfoldable pub list : File → Option (List PushDevice)
unfolding load
list file = load file

unfoldable pub is_hex_byte : ℕ → Bool
is_hex_byte b = (leb 48 b && leb b 57) || (leb 97 b && leb b 102)

unfoldable pub validate_push_handle : Bytes → Bool
validate_push_handle handle =
    if ltb (length handle) min_handle_len || ltb max_handle_len (length handle)
    then false
    else all is_hex_byte handle

unfoldable pub validate_device_name : Bytes → Bool
validate_device_name name =
    if ltb (length name) min_name_len || ltb max_name_len (length name)
    then false
    else all (λ b. is_name_byte b || b == 32 || b == 46) name
