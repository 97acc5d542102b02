-- ===== src/Tests/AllocationRuns.antt =====
-- findIdmap of apollo/container_mercury.go on concrete maps.
use apollo_controller.Prelude.{◌≡◌, refl, true, false, Option, none, some, List, [], ◌∷◌, arith, ok}
use apollo_controller.Prelude.Int.{pos}
use apollo_controller.Prelude.Text.{Bytes, codes, bytes_eq, split, string_in_slice, to_lower}
use apollo_controller.Allocation.{
  with_raw, Other, idmap_size, other_entries, Wanted, find_idmap, parse_raw_idmap, other_entry,
  raw_loop,
}
use apollo_controller.Allocation.Gap.{Range}
use apollo_controller.Allocation.Disjoint.{plain_map, head_entry}
use apollo_controller.Allocation.Below.{find_idmap-below}
use apollo_controller.Config.{is_true}
use apollo_controller.Prelude.Number.{parse_int}

-- Ids 1000000 to 2000000, as /etc/subuid often has them.
abbrev daemon_range : Range
daemon_range = record { host = 1000000; size = 1000000 }

abbrev new_container : Wanted
new_container = record {
  name = codes "c2";
  isolated = codes "true";
  base = [];
  size = [];
  raw = [];
}

abbrev taken : Range
taken = record { host = 1065536; size = 65536 }

abbrev beside : List (Bytes × Option Other)
beside =
    (
      codes "c1",
      some (record {
        privileged = false;
        isolated = codes "true";
        base = codes "1065536";
        size = [];
      }),
    )
    ∷ (codes "c2", none)
    ∷ []

abbrev low_range : Range
low_range = record { host = 200000; size = 65536 }

abbrev placed_low : List (Bytes × Option Other)
placed_low =
    (
      codes "c1",
      some (record {
        privileged = false;
        isolated = codes "true";
        base = codes "200000";
        size = [];
      }),
    )
    ∷ []

find_idmap-below_example :
    find_idmap
      (head_entry (true, false) daemon_range ∷ head_entry (false, true) daemon_range ∷ [])
      new_container
      (some placed_low)
    ≡ ok (with_raw (plain_map 265536 65536) [], pos 265536)
unfolding is_true string_in_slice bytes_eq to_lower parse_raw_idmap raw_loop split idmap_size
    other_entries other_entry parse_int
find_idmap-below_example =
    find_idmap-below (true, false) daemon_range low_range
      (head_entry (false, true) daemon_range ∷ []) 65536 (omega arith) (omega arith) (omega arith)
      (omega arith) new_container placed_low [] refl refl refl refl refl
