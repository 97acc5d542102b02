-- ===== src/Tests/ConfigRuns.antt =====
-- shared/container.go, shared/util.go and apollo/container.go on concrete values.
use apollo_controller.Prelude.{◌≡◌, refl, true, false, none, [], ◌∷◌, All, ok}
use apollo_controller.Prelude.Text.{
  codes, bytes_eq, string_in_slice, to_lower, has_prefix, split, split_two,
}
use apollo_controller.Container.{Map, get, Devices}
use apollo_controller.Container.Raw.{
  raw_key, mercury_valid_config, allowed_ip_keys, key_of, network_fields, network_key_prefix,
  raw_line, raw_lines, trim_left, trim_right,
}
use apollo_controller.Container.Limits.{Daemon}
use apollo_controller.Container.Devices.{
  Host, valid_devices, devices_loop, note_path, valid_device, valid_device_keys, valid_disk,
  valid_nic, valid_typed,
}
use apollo_controller.Container.DeviceKeys.{valid_device_config_key}
use apollo_controller.Container.Devices.Sound.{
  AreNew, disk_paths, IsWellFormed, valid_devices_sound,
}

-- Such a line on an older container library is accepted, in its older form.
older_network_key :
    mercury_valid_config false (codes "mercury.network.0.ipv4 = 10.0.0.2/24") ≡ ok tt
unfolding mercury_valid_config raw_lines split raw_line has_prefix trim_left bytes_eq split_two
    raw_key key_of to_lower trim_right network_key_prefix network_fields string_in_slice
    allowed_ip_keys
older_network_key = refl

abbrev daemon : Daemon
daemon = record { architectures = 2 ∷ 1 ∷ []; has_idmap_set = false; has_mercury_2_1 = true }

abbrev config : Map
config =
    (codes "security.privileged", codes "true")
    ∷ (codes "limits.memory", codes "50%")
    ∷ (codes "security.syscalls.blacklist_compat", codes "yes")
    ∷ (codes "raw.mercury", codes "mercury.aa_profile = x")
    ∷ []

abbrev host : Host
host = record {
  is_dir = λ path. true;
  path_exists = λ path. false;
  device_type = λ path. none;
  has_pool = λ name. bytes_eq name (codes "default");
}

abbrev root_disk : Map
root_disk =
    (codes "type", codes "disk")
    ∷ (codes "path", codes "/")
    ∷ (codes "pool", codes "default")
    ∷ (codes "size", codes "10GB")
    ∷ []

abbrev data_disk : Map
data_disk =
    (codes "type", codes "disk")
    ∷ (codes "path", codes "/srv")
    ∷ (codes "source", codes "/data")
    ∷ (codes "recursive", codes "true")
    ∷ []

abbrev nic : Map
nic =
    (codes "type", codes "nic")
    ∷ (codes "nictype", codes "bridged")
    ∷ (codes "parent", codes "br0")
    ∷ []

abbrev devices : Devices
devices = (codes "data", data_disk) ∷ (codes "eth0", nic) ∷ (codes "root", root_disk) ∷ []

valid_devices_sound_example : AreNew [] (disk_paths devices) × All (IsWellFormed host) devices
unfolding valid_devices devices_loop valid_device bytes_eq get string_in_slice valid_device_keys
    valid_device_config_key valid_typed note_path valid_disk valid_nic has_prefix
valid_devices_sound_example = valid_devices_sound host devices refl
