-- ===== src/Container/Limits.antt =====
-- The checks on the configuration of a container or a profile, containerValidConfigKey and
-- containerValidConfig of apollo/container.go.
use apollo_controller.Prelude.{
  ℕ, ◌≡◌, Bool, false, not, ◌&&◌, ◌||◌, Option, none, some, List, [], ◌∷◌, arith, ◌==◌,
  if◌then◌else◌, All, Result, ok, err, ◌>>◌, guard,
}
use apollo_controller.Prelude.Text.{Bytes, codes, bytes_eq, has_prefix}
use apollo_controller.Config.{config_key_checker, is_true}
use apollo_controller.Config
use apollo_controller.Container.{
  Error, volatile_in_profile, image_in_profile, bad_config_key, unsupported_arch, seccomp_exclusive,
  whitelist_exclusive, no_allocation, Checked, Map, get, has,
}
use apollo_controller.Container.Raw.{mercury_valid_config}

-- What the daemon knows: its architectures, whether it has an allocation of ids, and whether
-- the container library's version is at least 2.1.0.
pub record Daemon : Type 0 where
  pub architectures : List ℕ
  pub has_idmap_set : Bool
  pub has_mercury_2_1 : Bool

-- The 64-bit x86, little-endian ARMv8 and big-endian POWER of shared/osarch.
abbrev pub is_compat : ℕ → Bool
is_compat arch = arch == 2 || (arch == 4 || arch == 6)

unfoldable pub has_compat : List ℕ → Bool
has_compat [] = false
has_compat (arch ∷ rest) = is_compat arch || has_compat rest

abbrev pub as_checked : Config.Checked → Error → Checked
as_checked (ok a) e = ok tt
as_checked (err x) e = err e

abbrev pub checker_or : Result Config.Error Config.Checker → Bytes → Config.Checked
checker_or (ok f) value = f value
checker_or (err e) value = err e

unfoldable pub valid_config_key : Daemon → Bytes → Bytes → Checked
valid_config_key d key value = do
  as_checked (checker_or (config_key_checker key) value) bad_config_key
  if bytes_eq key (codes "raw.mercury")
      then mercury_valid_config d.has_mercury_2_1 value
      else guard
          (not (bytes_eq key (codes "security.syscalls.blacklist_compat"))
            || has_compat d.architectures)
          unsupported_arch

unfoldable pub valid_keys : Daemon → Bool → Map → Checked
valid_keys d profile [] = ok tt
valid_keys d profile ((k, v) ∷ config) = do
  guard (not (profile && has_prefix k (codes "volatile."))) volatile_in_profile
  guard (not (profile && has_prefix k (codes "image."))) image_in_profile
  valid_config_key d k v
  valid_keys d profile config

abbrev pub flag : Map → Bytes → Bool
flag config key = is_true (get config key)

-- The last test asks for an empty value or one that is not true; an empty value is not true.
unfoldable pub valid_config_map : Daemon → Map → Bool → Bool → Checked
valid_config_map d config profile expanded = do
  valid_keys d profile config
  let raw_seccomp = has config (codes "raw.seccomp")
  let whitelist = has config (codes "security.syscalls.whitelist")
  let blacklist = has config (codes "security.syscalls.blacklist")
  let blacklist_default = flag config (codes "security.syscalls.blacklist_default")
  let blacklist_compat = flag config (codes "security.syscalls.blacklist_compat")
  guard (not (raw_seccomp && (whitelist || (blacklist || (blacklist_default || blacklist_compat)))))
      seccomp_exclusive
  guard (not (whitelist && (blacklist || (blacklist_default || blacklist_compat))))
      whitelist_exclusive
  guard
      (not (
        expanded
        && ((bytes_eq (get config (codes "security.privileged")) []
              || not (flag config (codes "security.privileged")))
            && not d.has_idmap_set)))
      no_allocation
  ok tt

-- No map is a valid configuration.
unfoldable pub valid_config : Daemon → Option Map → Bool → Bool → Checked
valid_config d none profile expanded = ok tt
valid_config d (some config) profile expanded = valid_config_map d config profile expanded

abbrev pub IsAccepted : Daemon → Bool → Bytes × Bytes → Type 0
IsAccepted d profile e =
    (valid_config_key d e.0 e.1 ≡ ok tt)
    × ((profile && (has_prefix e.0 (codes "volatile.") || has_prefix e.0 (codes "image."))) ≡ false)

valid_keys-All :
    (d : Daemon) (profile : Bool) (config : Map)
    → valid_keys d profile config ≡ ok tt
    → All (IsAccepted d profile) config
unfolding valid_keys
valid_keys-All d profile [] h = tt
valid_keys-All d profile ((k, v) ∷ config) h =
    ((ground arith, ground arith), valid_keys-All d profile config (ground arith))

-- A configuration that is accepted has only keys and values that are valid each for itself; in a
-- profile none of them is volatile or of the image. No raw seccomp policy stands beside a
-- whitelist or a blacklist, and no whitelist beside a blacklist. Where the daemon has no
-- allocation of ids, a container's expanded configuration is privileged.
pub valid_config_sound :
    (d : Daemon) (config : Map) (profile expanded : Bool)
    → valid_config d (some config) profile expanded ≡ ok tt
    → All (IsAccepted d profile) config
      × (has config (codes "raw.seccomp")
            && (has config (codes "security.syscalls.whitelist")
                || has config (codes "security.syscalls.blacklist"))
          ≡ false)
      × (has config (codes "security.syscalls.whitelist")
            && has config (codes "security.syscalls.blacklist")
          ≡ false)
      × (expanded
            && (not d.has_idmap_set && not (is_true (get config (codes "security.privileged"))))
          ≡ false)
unfolding valid_config valid_config_map
valid_config_sound d config profile expanded h =
    (valid_keys-All d profile config (ground arith), ground arith, ground arith, ground arith)
