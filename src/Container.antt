-- ===== src/Container.antt =====
-- apollo/container.go: names of containers and snapshots, and the root disk; the children check a
-- configuration and devices. A map
-- is a list of its pairs, in the order in which Go happens to visit them; keys occur once.
pub mod Names
pub mod Raw
pub mod Limits
pub mod DeviceKeys
pub mod Devices
use apollo_controller.Prelude.{
  ℕ, zero, suc, ◌+◌, ◌-◌, ◌*◌, ◌/◌, ◌%◌, ◌^◌, ◌≤◌, ◌<◌, ◌≡◌, ◌≢◌, ◌↔◌, ◌⊎◌, inl, inr, refl, sym, ap,
  ap₂, subst, ◌∙◌, Bool, true, false, not, ◌&&◌, ◌||◌, Option, none, some, List, [], ◌∷◌, ◌++◌, map,
  append_assoc, append-nil, arith, ltb, leb, ◌==◌, if◌then◌else◌, bool_eq, Bool-cases, Option-cases,
  ==_iff, length, take, drop, length-append, take-length-append, drop-length-append, All,
  All-append, Result, ok, err, ◌>>=◌, ◌>>◌, guard, or_fail, >>=-eq-ok, ok-injective,
}
use apollo_controller.Prelude.Text.{
  Bytes, codes, bytes_eq, string_in_slice, has_prefix, has_suffix, split_two, contains_byte,
}
use apollo_controller.Prelude.Number.{parse_int}

pub data Error : Type 0 where
  reserved_delimiter bad_hostname bad_raw_line forbidden_raw_key volatile_in_profile
        image_in_profile bad_config_key :
      Error
  unsupported_arch seccomp_exclusive whitelist_exclusive no_allocation : Error
  two_roots no_root : Error
  bad_device_type bad_device_key bad_nic bad_disk same_path no_pool bad_unix bad_usb : Error

abbrev pub Checked : Type 0
Checked = Result Error (Unit {0})

abbrev pub Map : Type 0
Map = List (Bytes × Bytes)

-- `m[key]`, the empty text where the key is missing, and whether it is there.
unfoldable pub get : Map → Bytes → Bytes
get [] key = []
get ((k, v) ∷ m) key = if bytes_eq k key then v else get m key

unfoldable pub has : Map → Bytes → Bool
has [] key = false
has ((k, v) ∷ m) key = bytes_eq k key || has m key

pub get-missing : (m : Map) (key : Bytes) → has m key ≡ false → get m key ≡ []
unfolding has get
get-missing [] key h = refl
get-missing ((k, v) ∷ m) key h = ground (arith, get-missing m key)

-- The delimiter is `/`.
abbrev pub snapshot_delimiter : ℕ
snapshot_delimiter = b'/'

abbrev pub parent_and_snapshot : Bytes → List Bytes → Bytes × Bytes × Bool
parent_and_snapshot name (parent ∷ snapshot ∷ []) = (parent, snapshot, true)
parent_and_snapshot name _ = (name, [], false)

unfoldable pub get_parent_and_snapshot_name : Bytes → Bytes × Bytes × Bool
get_parent_and_snapshot_name name = parent_and_snapshot name (split_two snapshot_delimiter name)

-- A byte of `[-a-zA-Z0-9]`.
unfoldable pub is_host_byte : ℕ → Bool
is_host_byte c =
    c == b'-'
    || ((leb b'a' c && leb c b'z') || ((leb b'A' c && leb c b'Z') || (leb b'0' c && leb c b'9')))

unfoldable pub all_host_bytes : Bytes → Bool
all_host_bytes [] = true
all_host_bytes (c ∷ s) = is_host_byte c && all_host_bytes s

abbrev pub is_some {ℓ} : {A : Type ℓ} → Option A → Bool
is_some none = false
is_some (some a) = true

-- `ValidHostname` of shared/util.go. `string(name[0])` is one digit exactly where `Atoi` takes it.
unfoldable pub valid_hostname : Bytes → Bool
valid_hostname [] = false
valid_hostname (c ∷ s) =
    if ltb 63 (length (c ∷ s))
    then false
    else if has_prefix (c ∷ s) (codes "-")
    then false
    else if is_some (parse_int (c ∷ []))
    then false
    else if has_suffix (c ∷ s) (codes "-")
    then false
    else all_host_bytes (c ∷ s)

unfoldable pub valid_name : Bytes → Checked
valid_name name = do
  guard (not (contains_byte snapshot_delimiter name)) reserved_delimiter
  guard (valid_hostname name) bad_hostname
  ok tt

-- The devices of a container, by name.
abbrev pub Devices : Type 0
Devices = List (Bytes × Map)

unfoldable pub is_root_disk_device : Map → Bool
is_root_disk_device device =
    if bytes_eq (get device (codes "type")) (codes "disk")
      && (bytes_eq (get device (codes "path")) (codes "/")
          && bytes_eq (get device (codes "source")) [])
    then true
    else false

-- The loop, with the root device found so far; an empty name is none.
unfoldable pub root_loop : Devices → Bytes × Map → Result Error (Bytes × Map)
root_loop [] found = if bytes_eq found.0 [] then err no_root else ok found
root_loop ((n, d) ∷ devices) found =
    let other = root_loop devices found in
    let next = root_loop devices (n, d) in
    if is_root_disk_device d then if bytes_eq found.0 [] then next else err two_roots else other

unfoldable pub get_root_disk_device : Devices → Result Error (Bytes × Map)
get_root_disk_device devices = root_loop devices ([], [])
