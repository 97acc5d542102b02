-- ===== src/Networks/Validate.antt =====
-- networkValidateConfig of apollo/networks_config.go.
use apollo_controller.Prelude.{
  ◌+◌, Bool, true, false, not, ◌&&◌, ◌||◌, Option, none, some, List, [], ◌∷◌, ◌++◌, ltb,
  if◌then◌else◌, length, Result, ok, err, ◌>>=◌, ◌>>◌, guard, or_fail,
}
use apollo_controller.Prelude.Int.{ℤ, pos, ltb_ℤ}
use apollo_controller.Prelude.Text.{Bytes, codes, bytes_eq, string_in_slice, has_prefix, split}
use apollo_controller.Prelude.Number.{parse_int}
use apollo_controller.Container.{Map, get}
use apollo_controller.Networks.Keys.{
  Error, Checked, Checker, Net, network_config_keys, bad_key, long_name, wrong_mode, bad_mtu,
  not_integer,
}

unfoldable pub find_checker : List (Bytes × Checker) → Bytes → Option Checker
find_checker [] key = none
find_checker ((k, f) ∷ keys) key = if bytes_eq k key then some f else find_checker keys key

-- The key of the table: the name of a tunnel is in its keys.
abbrev pub tunnel_key : Bytes → List Bytes → Result Error Bytes
tunnel_key name (first ∷ target ∷ field ∷ []) =
    guard (not (ltb 14 (length name + length target))) long_name
    >> ok (codes "tunnel.TARGET." ++ field)
tunnel_key name _ = err bad_key

unfoldable pub real_key : Bytes → Bytes → Result Error Bytes
real_key name key =
    if has_prefix key (codes "tunnel.") then tunnel_key name (split b'.' key) else ok key

abbrev pub second_of : List Bytes → Bytes
second_of (first ∷ second ∷ pieces) = second
second_of _ = []

unfoldable pub tunnels_loop : Map → List Bytes → List Bytes
tunnels_loop [] tunnels = tunnels
tunnels_loop ((k, v) ∷ config) tunnels = tunnels_loop config (
    if not (has_prefix k (codes "tunnel.")) || string_in_slice (second_of (split b'.' k)) tunnels
    then tunnels
    else tunnels ++ (second_of (split b'.' k) ∷ []))

unfoldable pub network_get_tunnels : Map → List Bytes
network_get_tunnels config = tunnels_loop config []

abbrev pub is_empty : {A : Type 0} → List A → Bool
is_empty [] = true
is_empty (x ∷ xs) = false

abbrev pub is_fan : Map → Bool
is_fan config = bytes_eq (get config (codes "bridge.mode")) (codes "fan")

-- Whether a network has an address under a key.
abbrev pub is_addressed : Map → Bytes → Bool
is_addressed config key =
    not (is_empty (get config key)) && not (bytes_eq (get config key) (codes "none"))

unfoldable pub mode_checks : Map → Bytes → Bytes → Checked
mode_checks config key v =
    guard (not (is_fan config && (has_prefix key (codes "ipv4.") && not (is_empty v)))) wrong_mode
    >> guard (not (is_fan config && (has_prefix key (codes "ipv6.") && not (is_empty v))))
        wrong_mode
    >> guard (not (not (is_fan config) && (has_prefix key (codes "fan.") && not (is_empty v))))
        wrong_mode

unfoldable pub mtu_range : Map → ℤ → Checked
mtu_range config mtu =
    guard (not (is_addressed config (codes "ipv6.address") && ltb_ℤ mtu (pos 1280))) bad_mtu
    >> guard (not (is_addressed config (codes "ipv4.address") && ltb_ℤ mtu (pos 68))) bad_mtu
    >> guard
        (not (
          is_fan config
          && (if bytes_eq (get config (codes "fan.type")) (codes "ipip")
              then ltb_ℤ (pos 1480) mtu
              else ltb_ℤ (pos 1450) mtu)))
        bad_mtu
    >> guard (not (not (is_empty (network_get_tunnels config)) && ltb_ℤ (pos 1400) mtu)) bad_mtu

unfoldable pub mtu_checks : Map → Bytes → Bytes → Checked
mtu_checks config key v =
    if bytes_eq key (codes "bridge.mtu") && not (is_empty v)
    then (or_fail (parse_int v) not_integer >>= λ mtu. mtu_range config mtu)
    else ok tt

abbrev pub check_value : Option Checker → Bytes → Checked
check_value none v = err bad_key
check_value (some validator) v = validator v

unfoldable pub validate_entry : Net → Bytes → Map → Bytes → Bytes → Checked
validate_entry net name config k v =
    if has_prefix k (codes "user.")
    then ok tt
    else real_key name k >>= λ key.
        check_value (find_checker (network_config_keys net) key) v
        >> mode_checks config key v
        >> mtu_checks config key v

unfoldable pub validate_loop : Net → Bytes → Map → Map → Checked
validate_loop net name config [] = ok tt
validate_loop net name config ((k, v) ∷ rest) =
    validate_entry net name config k v >> validate_loop net name config rest

unfoldable pub network_validate_config : Net → Bytes → Map → Checked
network_validate_config net name config =
    guard (not (is_fan config && ltb 11 (length name))) long_name
    >> validate_loop net name config config
