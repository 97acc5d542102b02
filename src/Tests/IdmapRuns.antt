-- ===== src/Tests/IdmapRuns.antt =====
-- shared/idmapset_linux.go on concrete maps.
use apollo_controller.Prelude.{
  ℕ, ◌≡◌, ◌↔◌, ◌⊎◌, refl, true, false, none, some, List, [], ◌∷◌, ◌++◌, arith, All, ok,
}
use apollo_controller.Prelude.Int.{ℤ, pos, negsuc, ◌+ℤ◌, ◌-ℤ◌, wrap64}
use apollo_controller.Prelude.Text.{bytes_eq, codes, split, fields}
use apollo_controller.Prelude.Number.{parse_uint}
use apollo_controller.Idmap.{intersects, hostids_intersect, set_intersects, contains}
use apollo_controller.Idmap.Block.{
  Block, to_entry, entries, IsSmall, uids, into, look, or_look, of_kind,
}
use apollo_controller.Idmap.Shift.{
  inward, do_shift_into_ns, set_shift_into_ns, set_shift_from_ns, do_shift_into_ns-look,
  set_shift_from_ns-set_shift_into_ns, shift,
}
use apollo_controller.Idmap.AddSafe.{add_safe, add_safe_loop, pieces}
use apollo_controller.Idmap.AddSafe.Override.{add_safe-look}
use apollo_controller.Idmap.Parse.{parse, empty_entry, append}
use apollo_controller.Idmap.Parse.Sound.{Accepted, parse_iff}
use apollo_controller.Idmap.Parse.Append.{Apart, append_sound}
use apollo_controller.Idmap.Ranges.{
  in_some_range, sort, insert, less, ranges_loop, extend_range, new_range, usable, valid_ranges,
  set_usable,
}
use apollo_controller.Idmap.Ranges.Cover.{mapped}
use apollo_controller.Idmap.Ranges.Usable.{IsFilled, in_ranges, valid_ranges_exact, flag}
use apollo_controller.Idmap.Ranges.SetUsable.{set_usable_sound}
use apollo_controller.Idmap.Host.{
  mapping, Files, default_idmap_set, current_entries, current_idmap_set, from_kernel, get_from_proc,
  is_full, proc_fields, proc_loop, uncommented, first_suitable, range_eq,
}

abbrev system : Block
system = record { uid = true; gid = true; host = 100000; ns = 0; size = 65536 }

abbrev user : Block
user = record { uid = true; gid = false; host = 1000; ns = 1000; size = 2 }

system-IsSmall : IsSmall system
system-IsSmall = omega arith

user-IsSmall : IsSmall user
user-IsSmall = omega arith

do_shift_into_ns-look_example :
    ◌≡◌ {A = ℤ × ℤ}
      (do_shift_into_ns (entries (system ∷ [])) (pos 7) (pos 70000) inward)
      (pos 100007, negsuc 0)
do_shift_into_ns-look_example =
    do_shift_into_ns-look inward (system ∷ []) 7 70000 (system-IsSmall, tt) (omega arith)
      (omega arith)

set_shift_from_ns-set_shift_into_ns_example :
    ◌≡◌ {A = ℤ × ℤ}
      (set_shift_from_ns (entries (system ∷ [])) (pos 100007) (pos 100009))
      (pos 7, pos 9)
unfolding set_shift_into_ns shift ◌+ℤ◌ ◌-ℤ◌ wrap64
set_shift_from_ns-set_shift_into_ns_example =
    set_shift_from_ns-set_shift_into_ns (system ∷ []) 7 9 100007 100009 (system-IsSmall, tt)
      (tt, tt) (tt, tt) (omega arith) (omega arith) refl

add_safe-look_example :
    (after : List Block) × (entries (
        record system { size = 1000 }
        ∷ user
        ∷ record system { host = 101002; ns = 1002; size = 64534 }
        ∷ [])
      ≡ entries after)
    × ((id : ℕ)
        → look (of_kind uids) into after id
          ≡ or_look (into user id) (look (of_kind uids) into (system ∷ []) id))
unfolding add_safe add_safe_loop intersects hostids_intersect pieces ◌+ℤ◌ ◌-ℤ◌ wrap64
add_safe-look_example =
    add_safe-look uids user (system ∷ []) refl user-IsSmall (omega arith)
      (record { small = system-IsSmall; some_ids = omega arith; seen = λ o. omega arith }, tt) refl

parse_iff_example :
    (parse empty_entry (codes "u:1000:1000:2") ≡ ok (to_entry user))
    ↔ Accepted (split b':' (codes "u:1000:1000:2")) user
parse_iff_example = parse_iff (codes "u:1000:1000:2") user

append_sound_example :
    (b : Block) × ((to_entry user ∷ to_entry (record user { ns = 5; host = 2000 }) ∷ [])
      ≡ entries (user ∷ []) ++ (to_entry b ∷ []))
    × IsSmall b
    × ((b.size ≡ 0) ⊎ All (Apart b) (user ∷ []))
unfolding append parse set_intersects ◌+ℤ◌ ◌-ℤ◌ wrap64 parse_uint split bytes_eq
append_sound_example =
    append_sound (user ∷ []) (codes "u:5:2000:2") (user-IsSmall, tt) (omega arith, tt) refl

abbrev kernel : List Block
kernel =
    record { uid = true; gid = false; host = 0; ns = 0; size = 100000 }
    ∷ record { uid = true; gid = false; host = 500000; ns = 100000; size = 100000 }
    ∷ []

kernel-IsFilled : All IsFilled kernel
kernel-IsFilled = ((omega arith, omega arith), ((omega arith, omega arith), tt))

valid_ranges_exact_example :
    in_ranges (λ u g. u) (valid_ranges (entries kernel)) (pos 165000) ≡ true
valid_ranges_exact_example = valid_ranges_exact (λ u g. u) kernel 165000 kernel-IsFilled

abbrev guest : Block
guest = record { uid = true; gid = false; host = 99000; ns = 0; size = 2000 }

set_usable_sound_example : mapped (flag uids) kernel 100500 ≡ true
unfolding set_usable usable valid_ranges sort insert less ranges_loop extend_range new_range
    in_some_range contains ◌+ℤ◌ ◌-ℤ◌ wrap64
set_usable_sound_example =
    set_usable_sound uids (guest ∷ []) [] guest kernel 100500 (omega arith, omega arith)
      kernel-IsFilled refl refl (omega arith) (omega arith)

-- A host with no shadow file for uids, and one with both files.
abbrev bare : Files
bare = record {
  newuidmap = true;
  newgidmap = true;
  subuid = none;
  subgid = none;
  uid_map = some (codes "0 0 4294967295" ∷ []);
  gid_map = some (codes "0 0 4294967295" ∷ []);
}

abbrev shadowed : Files
shadowed = record bare {
  subuid = some (codes "# comment" ∷ codes "root:100:50" ∷ codes "Root:500000:65536" ∷ []);
  subgid = some (codes "root:600000:70000" ∷ []);
}

-- The daemon runs in a container that has 300000 ids of its host.
abbrev nested : Files
nested = record bare {
  uid_map = some (codes "0 500000 300000" ∷ []);
  gid_map = some (codes "0 500000 300000" ∷ []);
}

-- The ids from 100000 to 299999, for uids and for gids.
nested_default :
    default_idmap_set nested
    ≡ ok (mapping true false (0, 100000, 200000) ∷ mapping false true (0, 100000, 200000) ∷ [])
unfolding default_idmap_set from_kernel current_idmap_set current_entries get_from_proc proc_loop
    uncommented split proc_fields fields parse_uint is_full valid_ranges ranges_loop sort insert
    less extend_range new_range range_eq ◌-ℤ◌ wrap64 ◌+ℤ◌ first_suitable
nested_default = refl
