-- ===== src/Idmap/Ranges.antt =====
-- `ValidRanges` and `Usable` of shared/idmapset_linux.go.
pub mod Cover
pub mod Usable
pub mod SetUsable
use apollo_controller.Prelude.{
  ◌≡◌, refl, Bool, true, false, not, ◌||◌, ◌&&◌, List, [], ◌∷◌, ◌++◌, Option, none, some, ok, err,
  Result, guard, ◌>>=◌, ◌>>◌, if◌then◌else◌, bool_eq,
}
use apollo_controller.Prelude.Int.{ℤ, pos, ltb_ℤ, eq_ℤ, ◌+ℤ◌, ◌-ℤ◌}
use apollo_controller.Idmap.{IdRange, contains, IdmapEntry, IdmapSet, Error, unusable_map}

-- The order of `sort.Sort`.
unfoldable pub less : IdmapEntry → IdmapEntry → Bool
less a b =
    if not (bool_eq a.isuid b.isuid)
    then a.isuid
    else if not (bool_eq a.isgid b.isgid)
    then a.isgid
    else ltb_ℤ a.nsid b.nsid

unfoldable pub insert : IdmapEntry → IdmapSet → IdmapSet
insert e [] = e ∷ []
insert e (x ∷ m) = if less x e then x ∷ insert e m else e ∷ x ∷ m

unfoldable pub sort : IdmapSet → IdmapSet
sort [] = []
sort (e ∷ m) = insert e (sort m)

abbrev pub behind : IdRange → Option (List IdRange) → Option (List IdRange)
behind r none = none
behind r (some ts) = some (r ∷ ts)

-- The range that an entry continues, if there is one, grows by the entry.
unfoldable pub extend_range : List IdRange → IdmapEntry → Option (List IdRange)
extend_range [] e = none
extend_range (r ∷ rs) e =
    if bool_eq e.isuid r.isuid && bool_eq e.isgid r.isgid && eq_ℤ (r.endid +ℤ pos 1) e.nsid
    then some (record r { endid = r.endid +ℤ e.maprange } ∷ rs)
    else behind r (extend_range rs e)

unfoldable pub new_range : IdmapEntry → IdRange
new_range e = record {
  isuid = e.isuid;
  isgid = e.isgid;
  startid = e.nsid;
  endid = e.nsid +ℤ e.maprange -ℤ pos 1;
}

-- An entry that continues no range begins one.
abbrev pub or_new : Option (List IdRange) → List IdRange → IdmapEntry → List IdRange
or_new none ranges e = ranges ++ (new_range e ∷ [])
or_new (some ts) ranges e = ts

unfoldable pub ranges_loop : IdmapSet → List IdRange → List IdRange
ranges_loop [] ranges = ranges
ranges_loop (e ∷ m) ranges = ranges_loop m (or_new (extend_range ranges e) ranges e)

unfoldable pub valid_ranges : IdmapSet → List IdRange
valid_ranges m = ranges_loop (sort m) []

-- The two loops of `Usable`: some kernel range of the kind holds the first and the last host id.
unfoldable pub in_some_range : (IdRange → Bool) → List IdRange → IdmapEntry → Bool
in_some_range kind [] e = false
in_some_range kind (r ∷ rs) e =
    (kind r && (contains r e.hostid && contains r (e.hostid +ℤ e.maprange -ℤ pos 1)))
    || in_some_range kind rs e

-- The kernel's map is what `CurrentIdmapSet` returns.
unfoldable pub usable : Result Error IdmapSet → IdmapEntry → Result Error (Unit {0})
usable kernel e = do
  m ← kernel
  guard (not e.isuid || in_some_range (λ r. r.isuid) (valid_ranges m) e) unusable_map
  guard (not e.isgid || in_some_range (λ r. r.isgid) (valid_ranges m) e) unusable_map
  ok tt

unfoldable pub set_usable : Result Error IdmapSet → IdmapSet → Result Error (Unit {0})
set_usable kernel [] = ok tt
set_usable kernel (e ∷ m) = do usable kernel e; set_usable kernel m
