-- ===== src/Container/Devices/Sound.antt =====
-- What devices that pass the checks are like: the paths of their disks, and their root disk.
use apollo_controller.Prelude.{
  All-imp, ◌≡◌, inl, inr, refl, subst, Bool, true, false, not, ◌&&◌, ◌||◌, some, List, [], ◌∷◌,
  ◌++◌, arith, if◌then◌else◌, Bool-cases, All, Result, ok, err, >>=-eq-ok,
}
use apollo_controller.Prelude.Text.{Bytes, codes, bytes_eq, bytes_eq→eq, string_in_slice}
use apollo_controller.Container.{
  Error, no_root, two_roots, Map, get, Devices, is_root_disk_device, root_loop,
  get_root_disk_device,
}
use apollo_controller.Container.Devices.{
  Host, valid_disk, note_path, valid_typed, valid_device, devices_loop, valid_devices, is_unset,
  is_root,
}

-- The root disks among devices.
abbrev pub roots : Devices → Devices
roots [] = []
roots ((n, d) ∷ devices) = if is_root_disk_device d then (n, d) ∷ roots devices else roots devices

-- The first name is the empty text, which no device has.
abbrev pub IsNamed : Bytes × Map → Type 0
IsNamed device = bytes_eq device.0 [] ≡ false

-- What the loop ends with: the root disk it brought, where the devices have none.
abbrev pub only : Bytes × Map → Devices → Result Error (Bytes × Map)
only found [] = if bytes_eq found.0 [] then err no_root else ok found
only found (r ∷ []) = if bytes_eq found.0 [] then ok r else err two_roots
only found (r ∷ r' ∷ rest) = err two_roots

first_root :
    (device found : Bytes × Map) (rest : Devices)
    → IsNamed device
    → (if bytes_eq found.0 [] then only device rest else err two_roots) ≡ only found (device ∷ rest)
first_root device found [] h = rw h refl
first_root device found (r ∷ []) h = rw h (ground arith)
first_root device found (r ∷ r' ∷ rest) h = ground arith

root_loop-only :
    (devices : Devices) (found : Bytes × Map)
    → All IsNamed devices
    → root_loop devices found ≡ only found (roots devices)
unfolding root_loop
root_loop-only [] found named = refl
root_loop-only ((n, d) ∷ devices) found named = elim (Bool-cases (is_root_disk_device d)) [
  | inl e ↦
      rw (e, root_loop-only devices (n, d) named.1)
        (first_root (n, d) found (roots devices) named.0)
  | inr e ↦ rw (e, root_loop-only devices found named.1) refl
]

abbrev pub the_only : Devices → Result Error (Bytes × Map)
the_only [] = err no_root
the_only (r ∷ []) = ok r
the_only (r ∷ r' ∷ rest) = err two_roots

-- Whatever the order of devices, none with an empty name, the root disk is the one that has the type disk, the path of
-- the root and no source, where there is exactly one; none and more than one are told apart.
pub get_root_disk_device_exact :
    (devices : Devices)
    → All IsNamed devices
    → get_root_disk_device devices ≡ the_only (roots devices)
unfolding get_root_disk_device bytes_eq
get_root_disk_device_exact devices named =
    rw (root_loop-only devices ([], []) named) (same (roots devices))
  where
    same : (r : Devices) → only ([], []) r ≡ the_only r
    same [] = refl
    same (r ∷ []) = refl
    same (r ∷ r' ∷ rest) = refl

abbrev pub disk_paths : Devices → List Bytes
disk_paths [] = []
disk_paths ((n, m) ∷ devices) =
    if bytes_eq (get m (codes "type")) (codes "disk")
    then get m (codes "path") ∷ disk_paths devices
    else disk_paths devices

-- No path stands in a list of paths or among those before it.
abbrev pub AreNew : List Bytes → List Bytes → Type 0
AreNew seen [] = Unit
AreNew seen (path ∷ paths) =
    (string_in_slice path seen ≡ false) × AreNew (seen ++ (path ∷ [])) paths

valid_typed_disk :
    (host : Host) (m : Map) (seen noted : List Bytes)
    → valid_typed host false (codes "disk") m seen ≡ ok noted
    → (string_in_slice (get m (codes "path")) seen ≡ false)
      × (noted ≡ seen ++ (get m (codes "path") ∷ []))
      × (valid_disk host m ≡ ok tt)
unfolding valid_typed note_path bytes_eq
valid_typed_disk host m seen noted h = (ground arith, ground arith, ground arith)

valid_typed_other :
    (host : Host) (t : Bytes) (m : Map) (seen noted : List Bytes)
    → bytes_eq t (codes "disk") ≡ false
    → valid_typed host false t m seen ≡ ok noted
    → noted ≡ seen
unfolding valid_typed
valid_typed_other host t m seen noted e h = ground arith

valid_device-valid_typed :
    (host : Host) (m : Map) (seen noted : List Bytes)
    → valid_device host false m seen ≡ ok noted
    → valid_typed host false (get m (codes "type")) m seen ≡ ok noted
unfolding valid_device
valid_device-valid_typed host m seen noted h = ground arith

-- What the checks give of a disk.
abbrev pub IsFine : Host → Bytes × Map → Type 0
IsFine host device =
    bytes_eq (get device.1 (codes "type")) (codes "disk") ≡ true → valid_disk host device.1 ≡ ok tt

devices_loop-AreNew :
    (host : Host) (devices : Devices) (seen : List Bytes)
    → devices_loop host false devices seen ≡ ok tt
    → AreNew seen (disk_paths devices) × All (IsFine host) devices
unfolding devices_loop
devices_loop-AreNew host [] seen h = (tt, tt)
devices_loop-AreNew host ((n, m) ∷ devices) seen h =
    let (noted, v, rest) = >>=-eq-ok (valid_device host false m seen) _ h in
    step noted (valid_device-valid_typed host m seen noted v)
      (devices_loop-AreNew host devices noted rest) (bytes_eq (get m (codes "type")) (codes "disk"))
      refl
  where
    step :
        (noted : List Bytes)
        → valid_typed host false (get m (codes "type")) m seen ≡ ok noted
        → AreNew noted (disk_paths devices) × All (IsFine host) devices
        → (b : Bool) → bytes_eq (get m (codes "type")) (codes "disk") ≡ b
        → AreNew seen (disk_paths ((n, m) ∷ devices)) × All (IsFine host) ((n, m) ∷ devices)
    step noted v rest true e =
        let t = bytes_eq→eq (get m (codes "type")) (codes "disk") e in
        let d =
          valid_typed_disk host m seen noted
            (subst (λ t. valid_typed host false t m seen ≡ ok noted) t v) in
        rw e ((d.0, subst (λ l. AreNew l (disk_paths devices)) d.1 rest.0), (λ x. d.2, rest.1))
    step noted v rest false e = rw e (
      subst (λ l. AreNew l (disk_paths devices))
          (valid_typed_other host (get m (codes "type")) m seen noted e v) rest.0,
      (λ x. ground arith, rest.1),
    )

abbrev pub IsWellFormed : Host → Bytes × Map → Type 0
IsWellFormed host (n, m) =
    bytes_eq (get m (codes "type")) (codes "disk") ≡ true
    → (is_unset m (codes "path") ≡ false)
      × (is_root m ≡ is_unset m (codes "source"))
      × ((is_root m || is_unset m (codes "size")) ≡ true)
      × ((is_unset m (codes "recursive")
            || (not (is_root m) && host.is_dir (get m (codes "source"))))
          ≡ true)

well_formed : (host : Host) (device : Bytes × Map) → IsFine host device → IsWellFormed host device
unfolding valid_disk
well_formed host (n, m) f e =
    let v = f e in (ground arith, ground arith, ground arith, ground arith)

-- Devices of a container or a profile, not expanded, that pass the checks mount each path once: no
-- path of a disk is that of an earlier one. And every disk among them is well formed: it has a
-- path; it has a source exactly where its path is not the root's; only the root has a size, and
-- only a directory that is mounted elsewhere the recursive option.
pub valid_devices_sound :
    (host : Host) (devices : Devices)
    → valid_devices host (some devices) false ≡ ok tt
    → AreNew [] (disk_paths devices) × All (IsWellFormed host) devices
unfolding valid_devices
valid_devices_sound host devices h =
    let s = devices_loop-AreNew host devices [] (ground arith) in
    (s.0, All-imp (IsFine host) (IsWellFormed host) (well_formed host) devices s.1)
