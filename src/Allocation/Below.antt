-- ===== src/Allocation/Below.antt =====
-- An isolated container whose ids were placed by hand below those of the daemon's map.
use apollo_controller.Prelude.{
  ℕ, ◌+◌, ◌^◌, ◌≤◌, ◌<◌, ◌≡◌, refl, Bool, true, Option, some, List, [], ◌∷◌, arith, ltb, ok,
}
use apollo_controller.Prelude.Int.{pos, +ℤ_pos}
use apollo_controller.Prelude.Text.{Bytes}
use apollo_controller.Config.{is_true}
use apollo_controller.Idmap.{IdmapSet}
use apollo_controller.Allocation.{
  insert, sort, next_gap, first_gap, settled, idmap_size, parse_raw_idmap, with_raw, mk_idmap,
  Other, other_entries, free_offset, Wanted, find_idmap,
}
use apollo_controller.Allocation.Gap.{Range, to_entry}
use apollo_controller.Allocation.FreeIds.{ends, end_of-to_entry}
use apollo_controller.Allocation.Disjoint.{head_entry, plain_map, offset_for-free_offset}

module _ (kind : Bool × Bool) (first below : Range) (m : IdmapSet) (size : ℕ)
    (small : ends first < 2 ^ 32) (small_size : size < 2 ^ 32)
    (under : ends below + size ≤ first.host) (room : ends below + size < ends first) where
  free_offset-below :
      (name : Bytes) (containers : List (Bytes × Option Other))
      → other_entries (head_entry kind first ∷ m) name containers ≡ ok (to_entry below ∷ [])
      → free_offset (head_entry kind first ∷ m) name (pos size) containers ≡ ok (pos (ends below))
  unfolding free_offset sort insert first_gap next_gap settled
  free_offset-below name containers e =
      rw
        (
          e,
          +ℤ_pos first.host 65536 (omega arith),
          +ℤ_pos (first.host + 65536) size (omega arith),
          meets,
          end_of-to_entry below (omega arith),
          +ℤ_pos (ends below) size (omega arith),
          end_of-to_entry first (omega arith),
        )
        (ground arith)
    where
      meets : ltb below.host (first.host + 65536 + size) ≡ true
      meets = ground arith

  -- Where the one other isolated container was given ids by hand that end so far below the daemon's
  -- first entry that the ids of the next one fit between, the next one gets the ids right behind
  -- those, which all lie below that entry: the search goes on from the end of the first range it meets,
  -- however low that is. The numbers have 32 bits, and the daemon's entry has room.
  pub find_idmap-below :
      (wanted : Wanted) (containers : List (Bytes × Option Other)) (raw : IdmapSet)
      → is_true wanted.isolated ≡ true
      → wanted.base ≡ []
      → parse_raw_idmap wanted.raw ≡ ok raw
      → idmap_size (head_entry kind first ∷ m) wanted.isolated wanted.size ≡ ok (pos size)
      → other_entries (head_entry kind first ∷ m) wanted.name containers ≡ ok (to_entry below ∷ [])
      → find_idmap (head_entry kind first ∷ m) wanted (some containers)
        ≡ ok (with_raw (plain_map (ends below) size) raw, pos (ends below))
  unfolding find_idmap mk_idmap
  find_idmap-below wanted containers raw isolated base r sized loaded =
      rw
        (
          r,
          isolated,
          sized,
          offset_for-free_offset (head_entry kind first ∷ m) wanted (pos size) containers base,
          free_offset-below wanted.name containers loaded,
        )
        refl
