-- ===== src/Tests/NetworkRuns.antt =====
-- A network with an IPv6 address and a tunnel.
use apollo_controller.Prelude.{◌≤◌, ◌≡◌, refl, true, false, some, [], ◌∷◌, length, ok, err}
use apollo_controller.Prelude.Text.{Bytes, codes, has_prefix, split, bytes_eq, string_in_slice}
use apollo_controller.Prelude.Number.{parse_int}
use apollo_controller.Prelude.Int.{pos}
use apollo_controller.Container.{Map, get, has}
use apollo_controller.Networks.Keys.{
  Net, bad_mtu, network_valid_port, network_config_keys, network_valid_address_cidr_v6,
}
use apollo_controller.Networks.Validate.{
  network_validate_config, network_get_tunnels, find_checker, mode_checks, mtu_checks, mtu_range,
  real_key, tunnels_loop, validate_entry, validate_loop,
}
use apollo_controller.Networks.Mtu.{
  mtu_fits, network_validate_config-mtu, network_validate_config-tunnel,
}
use apollo_controller.Config.{is_int64, is_one_of}

abbrev v6_net : Net
v6_net = record {
  parse_ip = λ s. true;
  parse_cidr = λ s. some (record { is_v4 = false; is_network = false });
}

abbrev bridge_with : Bytes → Map
bridge_with mtu =
    (codes "bridge.mtu", mtu)
    ∷ (codes "ipv6.address", codes "fd42::1/64")
    ∷ (codes "tunnel.t1.protocol", codes "gre")
    ∷ []

too_large : network_validate_config v6_net (codes "br0") (bridge_with (codes "1500")) ≡ err bad_mtu
unfolding network_validate_config bytes_eq get validate_loop validate_entry has_prefix real_key
    find_checker network_config_keys is_int64 parse_int mode_checks mtu_checks mtu_range
    network_get_tunnels tunnels_loop string_in_slice
too_large = refl

port_65536 : network_valid_port (codes "65536") ≡ ok tt
unfolding network_valid_port parse_int
port_65536 = refl

network_validate_config-mtu_example : mtu_fits (bridge_with (codes "1400")) (pos 1400) ≡ true
unfolding network_validate_config bytes_eq get validate_loop validate_entry has_prefix real_key
    find_checker network_config_keys is_int64 parse_int mode_checks mtu_checks mtu_range
    network_get_tunnels tunnels_loop string_in_slice is_one_of network_valid_address_cidr_v6 split
network_validate_config-mtu_example =
    network_validate_config-mtu v6_net (codes "br0") (bridge_with (codes "1400")) b'1' (codes "400")
      (pos 1400) refl refl refl

network_validate_config-tunnel_example : length (codes "br0-t1") ≤ 15
unfolding network_validate_config bytes_eq get validate_loop validate_entry has_prefix real_key
    find_checker network_config_keys is_int64 parse_int mode_checks mtu_checks mtu_range
    network_get_tunnels tunnels_loop string_in_slice is_one_of network_valid_address_cidr_v6 split
    has
network_validate_config-tunnel_example =
    network_validate_config-tunnel v6_net (codes "br0") (bridge_with (codes "1400"))
      (codes "tunnel.t1.protocol") (codes "tunnel") (codes "t1") (codes "protocol") refl refl refl
      refl
