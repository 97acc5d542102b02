-- ===== src/Container/Devices.antt =====
-- The checks on the devices of a container or a profile, containerValidDevices of
-- apollo/container.go. The file system and the table of storage pools are parameters.
pub mod Sound
use apollo_controller.Prelude.{
  ℕ, zero, suc, ◌+◌, ◌-◌, ◌*◌, ◌/◌, ◌%◌, ◌^◌, ◌≤◌, ◌<◌, ◌≡◌, ◌≢◌, ◌↔◌, ◌⊎◌, inl, inr, refl, sym, ap,
  ap₂, subst, ◌∙◌, Bool, true, false, not, ◌&&◌, ◌||◌, Option, none, some, List, [], ◌∷◌, ◌++◌, map,
  append_assoc, append-nil, arith, ltb, leb, ◌==◌, if◌then◌else◌, bool_eq, Bool-cases, Option-cases,
  ==_iff, length, take, drop, length-append, take-length-append, drop-length-append, All,
  All-append, Result, ok, err, ◌>>=◌, ◌>>◌, guard, or_fail, >>=-eq-ok, ok-injective,
}
use apollo_controller.Prelude.Text.{Bytes, codes, bytes_eq, string_in_slice, has_prefix}
use apollo_controller.Container.{
  Error, bad_device_type, bad_device_key, bad_nic, bad_disk, same_path, no_pool, bad_unix, bad_usb,
  Checked, Map, get, has, Devices, get_root_disk_device,
}
use apollo_controller.Container.DeviceKeys.{unix_types, valid_device_config_key}

-- `shared.IsDir`, `shared.PathExists`, the device type of deviceGetAttributes, and whether the
-- database has a storage pool.
pub record Host : Type 0 where
  pub is_dir : Bytes → Bool
  pub path_exists : Bytes → Bool
  pub device_type : Bytes → Option Bytes
  pub has_pool : Bytes → Bool

unfoldable pub valid_device_keys : Bytes → Map → Checked
valid_device_keys t [] = ok tt
valid_device_keys t ((k, v) ∷ m) = do
  guard (valid_device_config_key t k) bad_device_key
  valid_device_keys t m

abbrev pub device_types : List Bytes
device_types =
    codes "none"
    ∷ codes "nic"
    ∷ codes "disk"
    ∷ codes "unix-char"
    ∷ codes "unix-block"
    ∷ codes "usb"
    ∷ codes "gpu"
    ∷ []

abbrev pub nic_types : List Bytes
nic_types = codes "bridged" ∷ codes "physical" ∷ codes "p2p" ∷ codes "macvlan" ∷ []

abbrev pub parent_types : List Bytes
parent_types = codes "bridged" ∷ codes "physical" ∷ codes "macvlan" ∷ []

abbrev pub is_unset : Map → Bytes → Bool
is_unset m key = bytes_eq (get m key) []

unfoldable pub valid_nic : Map → Checked
valid_nic m = do
  guard (not (is_unset m (codes "nictype"))) bad_nic
  guard (string_in_slice (get m (codes "nictype")) nic_types) bad_nic
  guard
      (not (string_in_slice (get m (codes "nictype")) parent_types && is_unset m (codes "parent")))
      bad_nic

-- The path is that of the root. `filepath.IsAbs` is a leading slash.
abbrev pub is_root : Map → Bool
is_root m = bytes_eq (get m (codes "path")) (codes "/")

unfoldable pub valid_disk : Host → Map → Checked
valid_disk host m = do
  guard (not (is_unset m (codes "path"))) bad_disk
  guard (not (is_unset m (codes "source") && not (is_root m))) bad_disk
  guard (not (is_root m && not (is_unset m (codes "source")))) bad_disk
  guard (not (not (is_unset m (codes "size")) && not (is_root m))) bad_disk
  guard
      (not (
        (is_root m || not (host.is_dir (get m (codes "source"))))
        && not (is_unset m (codes "recursive"))))
      bad_disk
  if is_unset m (codes "pool") then ok tt else do
    guard (not (has_prefix (get m (codes "source")) (codes "/"))) bad_disk
    guard (host.has_pool (get m (codes "pool"))) no_pool

abbrev pub source_path : Map → Bytes
source_path m = if has m (codes "source") then get m (codes "source") else get m (codes "path")

abbrev pub is_other : Bytes → Bytes → Bytes → Bytes → Bool
is_other t wanted d letter = bytes_eq t wanted && not (bytes_eq d letter)

abbrev pub of_type : Bytes → Option Bytes → Checked
of_type t none = err bad_unix
of_type t (some d) = do
  guard (not (is_other t (codes "unix-char") d (codes "c"))) bad_unix
  guard (not (is_other t (codes "unix-block") d (codes "b"))) bad_unix

unfoldable pub valid_unix : Host → Map → Checked
valid_unix host m = do
  guard (not (is_unset m (codes "source") && is_unset m (codes "path"))) bad_unix
  if is_unset m (codes "major") || is_unset m (codes "minor")
      then (guard (host.path_exists (source_path m)) bad_unix
          >> of_type (get m (codes "type")) (host.device_type (source_path m)))
      else ok tt

-- The disk paths seen so far go from one device to the next. A path is noted before the disk is
-- looked at, and only where the devices are not expanded.
unfoldable pub note_path : Bool → Map → List Bytes → Result Error (List Bytes)
note_path expanded m paths =
    if expanded
    then ok paths
    else if string_in_slice (get m (codes "path")) paths
    then err same_path
    else ok (paths ++ (get m (codes "path") ∷ []))

unfoldable pub valid_typed : Host → Bool → Bytes → Map → List Bytes → Result Error (List Bytes)
valid_typed host expanded t m paths =
    if bytes_eq t (codes "nic")
    then (valid_nic m >> ok paths)
    else if bytes_eq t (codes "disk")
    then (note_path expanded m paths >>= λ noted. valid_disk host m >> ok noted)
    else if string_in_slice t unix_types
    then (valid_unix host m >> ok paths)
    else if bytes_eq t (codes "usb")
    then (guard (not (is_unset m (codes "vendorid"))) bad_usb >> ok paths)
    else if bytes_eq t (codes "gpu") || bytes_eq t (codes "none")
    then ok paths
    else err bad_device_type

unfoldable pub valid_device : Host → Bool → Map → List Bytes → Result Error (List Bytes)
valid_device host expanded m paths = do
  guard (not (is_unset m (codes "type"))) bad_device_type
  guard (string_in_slice (get m (codes "type")) device_types) bad_device_type
  valid_device_keys (get m (codes "type")) m
  valid_typed host expanded (get m (codes "type")) m paths

unfoldable pub devices_loop : Host → Bool → Devices → List Bytes → Checked
devices_loop host expanded [] paths = ok tt
devices_loop host expanded ((name, m) ∷ devices) paths = do
  noted ← valid_device host expanded m paths
  devices_loop host expanded devices noted

abbrev pub has_root : Result Error (Bytes × Map) → Checked
has_root (ok found) = ok tt
has_root (err e) = err e

unfoldable pub valid_devices : Host → Option Devices → Bool → Checked
valid_devices host none expanded = ok tt
valid_devices host (some devices) expanded = do
  devices_loop host expanded devices []
  if expanded then has_root (get_root_disk_device devices) else ok tt
