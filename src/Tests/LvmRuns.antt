-- ===== src/Tests/LvmRuns.antt =====
-- Names and versions of LVM, and limits of devices.
use apollo_controller.Prelude.{◌≡◌, refl, false, not, ◌&&◌, some, [], ok}
use apollo_controller.Prelude.Int.{pos, negsuc, ltb_ℤ, wrap64, ◌+ℤ◌, ◌-ℤ◌}
use apollo_controller.Prelude.Text.{
  codes, split, bytes_eq, contains_byte, has_prefix, has_suffix, split_two, trim_suffix,
}
use apollo_controller.Container.{valid_name, all_host_bytes, is_host_byte, valid_hostname}
use apollo_controller.Config.{is_allowance, is_priority}
use apollo_controller.Lvm.{
  container_name_to_lv_name, version_split, lvm_version_is_at_least, replace,
}
use apollo_controller.Lvm.Names.{full_name, container_name_to_lv_name-injective}
use apollo_controller.Lvm.Versions.{Version, newer, misjudged, lvm_version_is_at_least_lem}
use apollo_controller.DeviceLimits.{
  CpuLimits, device_parse_cpu, device_parse_disk_limit, allowed, parse_value, scale,
}
use apollo_controller.DeviceLimits.Accepted.{device_parse_cpu-accepted}
use apollo_controller.Prelude.Number.{parse_int}

lv_name : container_name_to_lv_name (codes "a-b/s-1") ≡ codes "a--b-s--1"
unfolding container_name_to_lv_name replace
lv_name = refl

-- Two snapshots of one container whose own names hold a slash.
lv_name_twice :
    container_name_to_lv_name (codes "c/-/x") ≡ container_name_to_lv_name (codes "c//-x")
unfolding container_name_to_lv_name replace
lv_name_twice = refl

container_name_to_lv_name-injective_example :
    full_name (codes "a-b") (some (codes "s-1")) ≡ full_name (codes "a-b") (some (codes "s-1"))
unfolding valid_name contains_byte valid_hostname has_prefix bytes_eq parse_int has_suffix
    all_host_bytes is_host_byte
container_name_to_lv_name-injective_example =
    container_name_to_lv_name-injective (codes "a-b") (codes "a-b") (some (codes "s-1"))
      (some (codes "s-1")) refl refl refl refl refl

abbrev version_3 : Version
version_3 = record { major = 3; minor = 0; micro = 0 }

abbrev version_2 : Version
version_2 = record { major = 2; minor = 5; micro = 0 }

lvm_version_is_at_least_lem_example :
    lvm_version_is_at_least (codes "3.0.0(2)/x") (codes "2.5.0")
    ≡ ok (newer version_3 version_2 && not (misjudged version_3 version_2))
unfolding version_split split parse_int
lvm_version_is_at_least_lem_example =
    lvm_version_is_at_least_lem (codes "3.0.0(2)/x") (codes "2.5.0") version_3 version_2 refl refl

older_than_2_5 : lvm_version_is_at_least (codes "3.0.0(2)/x") (codes "2.5.0") ≡ ok false
unfolding lvm_version_is_at_least version_split split parse_int
older_than_2_5 = refl

device_parse_cpu-accepted_example :
    (l : CpuLimits) × (device_parse_cpu (codes "25ms/100ms") (codes "5") ≡ ok l)
    × (ltb_ℤ l.shares (pos 0) ≡ false)
unfolding is_allowance has_suffix bytes_eq split_two parse_int trim_suffix is_priority
device_parse_cpu-accepted_example =
    device_parse_cpu-accepted (codes "25ms/100ms") (codes "5") refl refl

half_a_cpu :
    device_parse_cpu (codes "50%") (codes "5")
    ≡ ok (record { shares = pos 519; quota = negsuc 0; period = pos 100000 })
unfolding device_parse_cpu parse_int allowed has_suffix bytes_eq trim_suffix ◌+ℤ◌ wrap64 ◌-ℤ◌ scale
half_a_cpu = refl

write_limit_lost : device_parse_disk_limit [] (codes "10iops") ≡ ok (pos 0, pos 0, pos 0, pos 0)
unfolding device_parse_disk_limit parse_value
write_limit_lost = refl
