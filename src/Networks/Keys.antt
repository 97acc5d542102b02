-- ===== src/Networks/Keys.antt =====
-- The keys of a network, networkConfigKeys of apollo/networks_config.go, with the checks of values of
-- apollo/networks_utils.go.
use apollo_controller.Prelude.{
  ℕ, Bool, true, not, ◌&&◌, ◌||◌, Option, List, [], ◌∷◌, ltb, leb, ◌==◌, if◌then◌else◌, length,
  Result, ok, err, ◌>>=◌, ◌>>◌, guard, or_fail,
}
use apollo_controller.Prelude.Int.{pos, ltb_ℤ}
use apollo_controller.Prelude.Text.{Bytes, codes, bytes_eq, split, trim_space}
use apollo_controller.Prelude.Number.{parse_int}
use apollo_controller.Config
use apollo_controller.Config.{is_int64, is_bool, is_one_of, is_any}

pub data Error : Type 0 where
  bad_name bad_port bad_address bad_value bad_key long_name wrong_mode bad_mtu not_integer : Error

abbrev pub Checked : Type 0
Checked = Result Error (Unit {0})

abbrev pub Checker : Type 0
Checker = Bytes → Checked

abbrev pub lift : Config.Checked → Checked
lift (ok a) = ok tt
lift (err e) = err bad_value

-- What `net.ParseCIDR` tells: whether the address is of version 4, and whether it is that of the
-- network.
pub record Cidr : Type 0 where
  pub is_v4 : Bool
  pub is_network : Bool

-- `net.ParseIP` as whether it succeeds, and `net.ParseCIDR`.
pub record Net : Type 0 where
  pub parse_ip : Bytes → Bool
  pub parse_cidr : Bytes → Option Cidr

abbrev pub is_name_byte : ℕ → Bool
is_name_byte c =
    (leb b'a' c && leb c b'z')
    || ((leb b'A' c && leb c b'Z') || ((leb b'0' c && leb c b'9') || c == b'-'))

abbrev pub all_name_bytes : Bytes → Bool
all_name_bytes [] = true
all_name_bytes (c ∷ s) = is_name_byte c && all_name_bytes s

unfoldable pub network_valid_name : Checker
network_valid_name value =
    guard (not (ltb (length value) 2)) bad_name
    >> guard (not (ltb 15 (length value))) bad_name
    >> guard (all_name_bytes value) bad_name

unfoldable pub network_valid_port : Checker
network_valid_port [] = ok tt
network_valid_port (c ∷ s) = or_fail (parse_int (c ∷ s)) not_integer >>= λ value_int.
    guard (not (ltb_ℤ value_int (pos 1) || ltb_ℤ (pos 65536) value_int)) bad_port

module _ (net : Net) where
  unfoldable pub network_valid_address_cidr_v6 : Checker
  network_valid_address_cidr_v6 [] = ok tt
  network_valid_address_cidr_v6 (c ∷ s) = or_fail (net.parse_cidr (c ∷ s)) bad_address >>= λ ip.
      guard (not ip.is_v4) bad_address >> guard (not ip.is_network) bad_address

  unfoldable pub network_valid_address_cidr_v4 : Checker
  network_valid_address_cidr_v4 [] = ok tt
  network_valid_address_cidr_v4 (c ∷ s) = or_fail (net.parse_cidr (c ∷ s)) bad_address >>= λ ip.
      guard ip.is_v4 bad_address >> guard (not ip.is_network) bad_address

  unfoldable pub network_valid_address_v4 : Checker
  network_valid_address_v4 [] = ok tt
  network_valid_address_v4 (c ∷ s) = guard (net.parse_ip (c ∷ s)) bad_address

  unfoldable pub network_valid_network_v4 : Checker
  network_valid_network_v4 [] = ok tt
  network_valid_network_v4 (c ∷ s) = or_fail (net.parse_cidr (c ∷ s)) bad_address >>= λ ip.
      guard ip.is_v4 bad_address >> guard ip.is_network bad_address

abbrev pub all_valid : List Bytes → Checked
all_valid [] = ok tt
all_valid (entry ∷ entries) = network_valid_name (trim_space entry) >> all_valid entries

abbrev pub external_interfaces : Checker
external_interfaces [] = ok tt
external_interfaces (c ∷ s) = all_valid (split b',' (c ∷ s))

abbrev pub one_of : List Bytes → Checker
one_of valid value = lift (is_one_of value valid)

-- Checkers of shared/container.go.
abbrev pub int64 : Checker
int64 value = lift (is_int64 value)

abbrev pub boolean : Checker
boolean value = lift (is_bool value)

abbrev pub anything : Checker
anything value = lift (is_any value)

abbrev pub unless_one_of : List Bytes → Checker → Checker
unless_one_of valid checker value = elim (is_one_of value valid) [
  | ok a ↦ ok tt
  | err e ↦ checker value
]

abbrev pub unless_auto : Checker → Checker
unless_auto checker value = if bytes_eq value (codes "auto") then ok tt else checker value

unfoldable pub network_config_keys : Net → List (Bytes × Checker)
network_config_keys net =
    (codes "bridge.driver", one_of (codes "native" ∷ codes "openvswitch" ∷ []))
    ∷ (codes "bridge.external_interfaces", external_interfaces)
    ∷ (codes "bridge.mtu", int64)
    ∷ (codes "bridge.mode", one_of (codes "standard" ∷ codes "fan" ∷ []))
    ∷ (codes "fan.overlay_subnet", network_valid_network_v4 net)
    ∷ (codes "fan.underlay_subnet", unless_auto (network_valid_network_v4 net))
    ∷ (codes "fan.type", one_of (codes "vxlan" ∷ codes "ipip" ∷ []))
    ∷ (codes "tunnel.TARGET.protocol", one_of (codes "gre" ∷ codes "vxlan" ∷ []))
    ∷ (codes "tunnel.TARGET.local", network_valid_address_v4 net)
    ∷ (codes "tunnel.TARGET.remote", network_valid_address_v4 net)
    ∷ (codes "tunnel.TARGET.port", network_valid_port)
    ∷ (codes "tunnel.TARGET.group", network_valid_address_v4 net)
    ∷ (codes "tunnel.TARGET.id", int64)
    ∷ (codes "tunnel.TARGET.interface", network_valid_name)
    ∷ (
      codes "ipv4.address",
      unless_one_of (codes "none" ∷ codes "auto" ∷ []) (network_valid_address_cidr_v4 net),
    )
    ∷ (codes "ipv4.firewall", boolean)
    ∷ (codes "ipv4.nat", boolean)
    ∷ (codes "ipv4.dhcp", boolean)
    ∷ (codes "ipv4.dhcp.expiry", anything)
    ∷ (codes "ipv4.dhcp.ranges", anything)
    ∷ (codes "ipv4.routes", anything)
    ∷ (codes "ipv4.routing", boolean)
    ∷ (
      codes "ipv6.address",
      unless_one_of (codes "none" ∷ codes "auto" ∷ []) (network_valid_address_cidr_v6 net),
    )
    ∷ (codes "ipv6.firewall", boolean)
    ∷ (codes "ipv6.nat", boolean)
    ∷ (codes "ipv6.dhcp", boolean)
    ∷ (codes "ipv6.dhcp.expiry", anything)
    ∷ (codes "ipv6.dhcp.stateful", boolean)
    ∷ (codes "ipv6.dhcp.ranges", anything)
    ∷ (codes "ipv6.routes", anything)
    ∷ (codes "ipv6.routing", boolean)
    ∷ (codes "dns.domain", anything)
    ∷ (codes "dns.mode", one_of (codes "dynamic" ∷ codes "managed" ∷ codes "none" ∷ []))
    ∷ (codes "raw.dnsmasq", anything)
    ∷ []
