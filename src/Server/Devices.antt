-- ===== src/Server/Devices.antt =====
-- The devices of a server (homeblks_impl.cpp, `get_device_type` and `get_dev_info`; the types of
-- include/homeblks/home_blocks.hpp).
use home_blocks.Prelude.{
  ℕ, ◌≡◌, refl, Bool, true, false, ◌||◌, List, [], ◌∷◌, if◌then◌else◌, Bool-cases, inl, inr,
}

-- `dev_type`
pub data DevType : Type 0 where
  auto_detect hdd nvme unsupported : DevType

-- `iomgr::drive_type`; `other_drive` stands for the rest.
pub data DriveType : Type 0 where
  block_hdd file_on_hdd block_nvme file_on_nvme other_drive : DriveType

-- `homestore::HSDevType`
pub data HsDevType : Type 0 where
  fast slow : HsDevType

pub record DeviceInfo : Type 0 where
  pub path : ℕ
  pub type : DevType

-- `homestore::dev_info`
pub record DevInfo : Type 0 where
  pub dev_name : ℕ
  pub dev_type : HsDevType

-- `get_device_type`, of what iomgr takes the device for.
unfoldable pub get_device_type : DriveType → DevType
get_device_type block_hdd = hdd
get_device_type file_on_hdd = hdd
get_device_type file_on_nvme = nvme
get_device_type block_nvme = nvme
get_device_type other_drive = unsupported

-- `final_type`: the type that is given, or else the one that is detected.
unfoldable pub final_type : DevType → DevType → DevType
final_type auto_detect detected = detected
final_type hdd detected = hdd
final_type nvme detected = nvme
final_type unsupported detected = unsupported

abbrev pub is_hdd : DevType → Bool
is_hdd hdd = true
is_hdd auto_detect = false
is_hdd nvme = false
is_hdd unsupported = false

abbrev pub is_supported : DevType → Bool
is_supported unsupported = false
is_supported auto_detect = true
is_supported hdd = true
is_supported nvme = true

-- The devices, and whether there is a slow one (`Data`) and a fast one.
pub record Devices : Type 0 where
  pub dev_info : List DevInfo
  pub has_data_dev : Bool
  pub has_fast_dev : Bool

unfoldable pub add_device : ℕ → HsDevType → Devices → Devices
add_device path slow d = record d {
  dev_info = record { dev_name = path; dev_type = slow } ∷ d.dev_info;
  has_data_dev = true;
}
add_device path fast d = record d {
  dev_info = record { dev_name = path; dev_type = fast } ∷ d.dev_info;
  has_fast_dev = true;
}

-- `type_of` is iomgr's, and `canonical` the file system's.
module _ (type_of : ℕ → DriveType) (canonical : ℕ → ℕ) where
  abbrev pub hs_type : DeviceInfo → HsDevType
  hs_type d = if is_hdd (final_type d.type (get_device_type (type_of d.path))) then slow else fast

  unfoldable pub get_dev_info : List DeviceInfo → Devices
  get_dev_info [] = record { dev_info = []; has_data_dev = false; has_fast_dev = false }
  get_dev_info (d ∷ ds) =
      let rest = get_dev_info ds in
      if is_supported (final_type d.type (get_device_type (type_of d.path)))
      then add_device (canonical d.path) (hs_type d) rest
      else rest

abbrev pub same_type : HsDevType → HsDevType → Bool
same_type fast fast = true
same_type slow slow = true
same_type fast slow = false
same_type slow fast = false

abbrev pub any_of : HsDevType → List DevInfo → Bool
any_of t [] = false
any_of t (d ∷ ds) = same_type t d.dev_type || any_of t ds

add_device-flags :
    (path : ℕ) (t : HsDevType) (d : Devices)
    → d.has_data_dev ≡ any_of slow d.dev_info
    → d.has_fast_dev ≡ any_of fast d.dev_info
    → ((add_device path t d).has_data_dev ≡ any_of slow (add_device path t d).dev_info)
      × ((add_device path t d).has_fast_dev ≡ any_of fast (add_device path t d).dev_info)
unfolding add_device
add_device-flags path slow d h k = (refl, k)
add_device-flags path fast d h k = (h, refl)

-- The two flags say exactly whether a device of the type is in the list.
pub get_dev_info-flags :
    (type_of : ℕ → DriveType) (canonical : ℕ → ℕ) (ds : List DeviceInfo)
    → let found = get_dev_info type_of canonical ds in
      (found.has_data_dev ≡ any_of slow found.dev_info)
      × (found.has_fast_dev ≡ any_of fast found.dev_info)
unfolding get_dev_info
get_dev_info-flags type_of canonical [] = (refl, refl)
get_dev_info-flags type_of canonical (d ∷ ds) =
    let (h, k) = get_dev_info-flags type_of canonical ds in
    elim (Bool-cases (is_supported (final_type d.type (get_device_type (type_of d.path))))) [
      | inl e ↦ rw e (
          add_device-flags (canonical d.path) (hs_type type_of canonical d)
            (get_dev_info type_of canonical ds) h k)
      | inr e ↦ rw e (h, k)
    ]
