-- ===== src/Idmap/Parse.antt =====
-- `IdmapEntry.parse` and `IdmapSet.Append` of shared/idmapset_linux.go.
pub mod Sound
pub mod Append
use apollo_controller.Prelude.{
  ℕ, zero, suc, ◌+◌, ◌-◌, ◌*◌, ◌/◌, ◌%◌, ◌^◌, ◌≤◌, ◌<◌, ◌≡◌, ◌≢◌, ◌↔◌, ◌⊎◌, inl, inr, refl, sym, ap,
  ap₂, subst, ◌∙◌, Bool, true, false, not, ◌&&◌, ◌||◌, Option, none, some, List, [], ◌∷◌, ◌++◌, map,
  append_assoc, append-nil, arith, ltb, leb, ◌==◌, if◌then◌else◌, bool_eq, Bool-cases, Option-cases,
  ==_iff, length, take, drop, length-append, All, All-append, Result, ok, err, ◌>>=◌, ◌>>◌, guard,
  or_fail, >>=-eq-ok,
}
use apollo_controller.Prelude.Int.{ℤ, pos, pos_part, ltb_ℤ, ◌+ℤ◌, +ℤ_pos}
use apollo_controller.Prelude.Text.{Bytes, codes, bytes_eq, split}
use apollo_controller.Prelude.Number.{parse_uint, parse_uint-lt}
use apollo_controller.Idmap.{
  IdmapEntry, IdmapSet, Error, bad_idmap, bad_type, bad_number, wraparound, conflicting_mapping,
  set_intersects,
}
use apollo_controller.Idmap.Block.{Block, to_entry, entries, SameKind, IsSmall}
use apollo_controller.Idmap.Overlap.{Noticed, intersects_iff}

-- The `switch` on the first field; the flags that it does not name stay.
unfoldable pub set_kind : IdmapEntry → Bytes → Result Error IdmapEntry
set_kind e kind =
    if bytes_eq kind (codes "u")
    then ok (record e { isuid = true })
    else if bytes_eq kind (codes "g")
    then ok (record e { isgid = true })
    else if bytes_eq kind (codes "b")
    then ok (record e { isuid = true; isgid = true })
    else err bad_type

unfoldable pub wraps : IdmapEntry → Bool
wraps e = ltb_ℤ (e.hostid +ℤ e.maprange) e.hostid || ltb_ℤ (e.nsid +ℤ e.maprange) e.nsid

unfoldable pub parse_fields : IdmapEntry → List Bytes → Result Error IdmapEntry
unfolding set_kind wraps
parse_fields e (kind ∷ ns ∷ host ∷ range ∷ []) = do
  e' ← set_kind e kind
  nsid ← or_fail (parse_uint ns 32) bad_number
  hostid ← or_fail (parse_uint host 32) bad_number
  maprange ← or_fail (parse_uint range 32) bad_number
  let parsed = record e' { nsid = pos nsid; hostid = pos hostid; maprange = pos maprange }
  guard (not (wraps parsed)) wraparound
  ok parsed
parse_fields e _ = err bad_idmap

unfoldable pub parse : IdmapEntry → Bytes → Result Error IdmapEntry
unfolding parse_fields
parse e s = parse_fields e (split b':' s)

abbrev pub empty_entry : IdmapEntry
empty_entry = record {
  isuid = false;
  isgid = false;
  hostid = pos 0;
  nsid = pos 0;
  maprange = pos 0;
}

-- `Extend` appends: its growing of the backing array is not visible in the result.
unfoldable pub append : IdmapSet → Bytes → Result Error IdmapSet
unfolding parse
append m s = do
  e ← parse empty_entry s
  guard (not (set_intersects m e)) conflicting_mapping
  ok (m ++ (e ∷ []))

-- The flags that a first field stands for.
abbrev pub kind_flags : Bytes → Option (Bool × Bool)
kind_flags kind =
    if bytes_eq kind (codes "u")
    then some (true, false)
    else if bytes_eq kind (codes "g")
    then some (false, true)
    else if bytes_eq kind (codes "b")
    then some (true, true)
    else none
