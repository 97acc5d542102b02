-- ===== src/Container/DeviceKeys.antt =====
-- The keys that a device of each type may have, containerValidDeviceConfigKey of
-- apollo/container.go.
use apollo_controller.Prelude.{Bool, true, false, List, [], ◌∷◌, if◌then◌else◌}
use apollo_controller.Prelude.Text.{Bytes, codes, bytes_eq, string_in_slice}

abbrev pub unix_keys : List Bytes
unix_keys =
    codes "gid"
    ∷ codes "major"
    ∷ codes "minor"
    ∷ codes "mode"
    ∷ codes "source"
    ∷ codes "path"
    ∷ codes "uid"
    ∷ []

abbrev pub nic_keys : List Bytes
nic_keys =
    codes "limits.max"
    ∷ codes "limits.ingress"
    ∷ codes "limits.egress"
    ∷ codes "host_name"
    ∷ codes "hwaddr"
    ∷ codes "mtu"
    ∷ codes "name"
    ∷ codes "nictype"
    ∷ codes "parent"
    ∷ codes "vlan"
    ∷ codes "ipv4.address"
    ∷ codes "ipv6.address"
    ∷ codes "security.mac_filtering"
    ∷ []

abbrev pub disk_keys : List Bytes
disk_keys =
    codes "limits.max"
    ∷ codes "limits.read"
    ∷ codes "limits.write"
    ∷ codes "optional"
    ∷ codes "path"
    ∷ codes "readonly"
    ∷ codes "size"
    ∷ codes "source"
    ∷ codes "recursive"
    ∷ codes "pool"
    ∷ []

abbrev pub usb_keys : List Bytes
usb_keys =
    codes "vendorid"
    ∷ codes "productid"
    ∷ codes "mode"
    ∷ codes "gid"
    ∷ codes "uid"
    ∷ codes "required"
    ∷ []

abbrev pub gpu_keys : List Bytes
gpu_keys =
    codes "vendorid"
    ∷ codes "productid"
    ∷ codes "id"
    ∷ codes "pci"
    ∷ codes "mode"
    ∷ codes "gid"
    ∷ codes "uid"
    ∷ []

abbrev pub unix_types : List Bytes
unix_types = codes "unix-char" ∷ codes "unix-block" ∷ []

-- The switch on the type, with the keys of its cases.
unfoldable pub valid_device_config_key : Bytes → Bytes → Bool
valid_device_config_key t k =
    if bytes_eq k (codes "type")
    then true
    else if string_in_slice t unix_types
    then string_in_slice k unix_keys
    else if bytes_eq t (codes "nic")
    then string_in_slice k nic_keys
    else if bytes_eq t (codes "disk")
    then string_in_slice k disk_keys
    else if bytes_eq t (codes "usb")
    then string_in_slice k usb_keys
    else if bytes_eq t (codes "gpu")
    then string_in_slice k gpu_keys
    else false
