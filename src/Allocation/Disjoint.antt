-- ===== src/Allocation/Disjoint.antt =====
-- Where findIdmap puts the ids of an isolated container.
use apollo_controller.Prelude.{
  ℕ, ◌+◌, ◌^◌, ◌≤◌, ◌<◌, ◌≡◌, refl, Bool, true, Option, some, List, [], ◌∷◌, All, true, false,
}
use apollo_controller.Prelude.Int.{ℤ, pos}
use apollo_controller.Prelude.Text.{Bytes, bytes_eq}
use apollo_controller.Idmap.{IdmapEntry, IdmapSet}
use apollo_controller.Allocation.{Other, free_offset, offset_for, Wanted}
use apollo_controller.Allocation.Gap.{Range, to_entry, IsWithin, IsApart}
use apollo_controller.Allocation.FreeIds.{ends}

-- The daemon's first entry, the sizes and the ranges that the other isolated containers have: 32-bit
-- numbers, and those ranges apart from one another, behind the first 65536 ids of the entry and
-- before its end.
pub record IsOrderly (first : Range) (others : List Range) (size : ℕ) : Type 0 where
  pub within : All (IsWithin (first.host + 65536) (ends first)) others
  pub apart : IsApart others
  pub first_small : ends first < 2 ^ 32
  pub room : first.host + 65536 ≤ ends first
  pub size_small : size < 2 ^ 32

-- The first entry of the daemon's map, of a kind.
abbrev pub head_entry : Bool × Bool → Range → IdmapEntry
head_entry (u, g) r = record (to_entry r) { isuid = u; isgid = g }

pub offset_for-free_offset :
    (daemon : IdmapSet) (wanted : Wanted) (size : ℤ) (containers : List (Bytes × Option Other))
    → wanted.base ≡ []
    → offset_for daemon wanted size (some containers)
      ≡ free_offset daemon wanted.name size containers
unfolding offset_for bytes_eq
offset_for-free_offset daemon wanted size containers h = simp h refl

-- Ids from 0 on go to host ids from `n` on, uids and gids alike.
abbrev pub plain_map : ℕ → ℕ → IdmapSet
plain_map n size =
    record { isuid = true; isgid = false; hostid = pos n; nsid = pos 0; maprange = pos size }
    ∷ record { isuid = false; isgid = true; hostid = pos n; nsid = pos 0; maprange = pos size }
    ∷ []
