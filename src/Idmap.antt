-- ===== src/Idmap.antt =====
-- shared/idmapset_linux.go: the entries of a uid and gid map, and the operations on one entry.
pub mod Block
pub mod Overlap
pub mod Parse
pub mod Shift
pub mod AddSafe
pub mod Ranges
pub mod Host
use apollo_controller.Prelude.{
  Bool, true, false, ◌&&◌, ◌||◌, List, [], ◌∷◌, ◌++◌, Result, ok, err, if◌then◌else◌,
}
use apollo_controller.Prelude.Int.{ℤ, pos, negsuc, ◌+ℤ◌, ◌-ℤ◌, ltb_ℤ, leb_ℤ, eq_ℤ}

pub record IdRange : Type 0 where
  pub isuid : Bool
  pub isgid : Bool
  pub startid : ℤ
  pub endid : ℤ

unfoldable pub contains : IdRange → ℤ → Bool
contains i id = leb_ℤ i.startid id && leb_ℤ id i.endid

pub record IdmapEntry : Type 0 where
  pub isuid : Bool
  pub isgid : Bool
  pub hostid : ℤ
  pub nsid : ℤ
  pub maprange : ℤ

-- `IdmapSet` is its field `Idmap`.
abbrev pub IdmapSet : Type 0
IdmapSet = List IdmapEntry

pub data Error : Type 0 where
  same_host_id conflicting_mapping bad_idmap bad_type bad_number wraparound not_applicable : Error
  unusable_map no_entries bad_file no_file : Error

unfoldable pub is_between : ℤ → ℤ → ℤ → Bool
is_between x low high = leb_ℤ low x && ltb_ℤ x high

unfoldable pub hostids_intersect : IdmapEntry → IdmapEntry → Bool
unfolding is_between
hostids_intersect e i =
    if e.isuid && i.isuid || e.isgid && i.isgid
    then is_between e.hostid i.hostid (i.hostid +ℤ i.maprange)
      || is_between i.hostid e.hostid (e.hostid +ℤ e.maprange)
      || is_between (e.hostid +ℤ e.maprange) i.hostid (i.hostid +ℤ i.maprange)
      || is_between (i.hostid +ℤ i.maprange) e.hostid (e.hostid +ℤ e.maprange)
    else false

-- The four tests that `Intersects` makes on the host side, and once more on the namespace side.
unfoldable pub meets : ℤ → ℤ → ℤ → ℤ → Bool
unfolding is_between
meets a r b s =
    is_between a b (b +ℤ s -ℤ pos 1)
    || is_between b a (a +ℤ r -ℤ pos 1)
    || is_between (a +ℤ r -ℤ pos 1) b (b +ℤ s -ℤ pos 1)
    || is_between (b +ℤ s -ℤ pos 1) a (a +ℤ r -ℤ pos 1)

unfoldable pub intersects : IdmapEntry → IdmapEntry → Bool
unfolding meets
intersects e i =
    if e.isuid && i.isuid || e.isgid && i.isgid
    then meets e.hostid e.maprange i.hostid i.maprange || meets e.nsid e.maprange i.nsid i.maprange
    else false

-- The loops of `IdmapSet.Intersects` and `IdmapSet.HostidsIntersect`.
unfoldable pub set_intersects : IdmapSet → IdmapEntry → Bool
unfolding intersects
set_intersects [] i = false
set_intersects (e ∷ m) i = intersects i e || set_intersects m i

unfoldable pub set_hostids_intersect : IdmapSet → IdmapEntry → Bool
unfolding hostids_intersect
set_hostids_intersect [] i = false
set_hostids_intersect (e ∷ m) i = hostids_intersect i e || set_hostids_intersect m i

unfoldable pub shift_into_ns : IdmapEntry → ℤ → Result Error ℤ
shift_into_ns e id =
    if ltb_ℤ id e.nsid || leb_ℤ (e.nsid +ℤ e.maprange) id
    then err not_applicable
    else ok (id -ℤ e.nsid +ℤ e.hostid)

unfoldable pub shift_from_ns : IdmapEntry → ℤ → Result Error ℤ
shift_from_ns e id =
    if ltb_ℤ id e.hostid || leb_ℤ (e.hostid +ℤ e.maprange) id
    then err not_applicable
    else ok (id -ℤ e.hostid +ℤ e.nsid)
