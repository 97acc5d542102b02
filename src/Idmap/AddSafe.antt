-- ===== src/Idmap/AddSafe.antt =====
-- `AddSafe` of shared/idmapset_linux.go.
pub mod Pieces
pub mod Splice
pub mod Override
use apollo_controller.Prelude.{
  ℕ, ◌+◌, ◌-◌, ◌≤◌, ◌<◌, ◌^◌, ◌≡◌, refl, Bool, true, false, not, ◌||◌, ◌&&◌, arith, List, [], ◌∷◌,
  ◌++◌, map, Option, none, some, ltb, leb, if◌then◌else◌, All, ok, err, Result, Bool-cases, inl,
  inr, ◌∙◌, ap, ap₂, sym, append_assoc, append-nil, ◌>>=◌,
}
use apollo_controller.Prelude.Int.{
  ℤ, pos, negsuc, ltb_ℤ, sub_ℕ, +ℤ_sub_ℕ, sub_ℕ_+ℤ, sub_ℕ_-ℤ, -ℤ_pos_pos, ◌+ℤ◌, ◌-ℤ◌, +ℤ_pos,
  -ℤ_pos, +ℤ_small, -ℤ_small,
}
use apollo_controller.Idmap.{
  IdmapEntry, IdmapSet, Error, same_host_id, intersects, hostids_intersect,
}
use apollo_controller.Idmap.Block.{
  Block, to_entry, entries, IsSmall, SameKind, Overlap, into, look, or_look, look-append,
}
use apollo_controller.Idmap.Overlap.{Noticed, intersects_iff, hostids_intersect_iff}

unfoldable pub lower : IdmapEntry → IdmapEntry → IdmapEntry
lower e i = record e { maprange = i.nsid -ℤ e.nsid }

unfoldable pub upper : IdmapEntry → IdmapEntry → IdmapEntry
unfolding lower
upper e i = record e {
  hostid = e.hostid +ℤ (lower e i).maprange +ℤ i.maprange;
  nsid = i.nsid +ℤ i.maprange;
  maprange = e.maprange -ℤ i.maprange -ℤ (lower e i).maprange;
}

abbrev pub if_any : IdmapEntry → IdmapSet
if_any e = if ltb_ℤ (pos 0) e.maprange then e ∷ [] else []

-- What the loop appends for an entry `e` that meets `i`.
unfoldable pub pieces : IdmapEntry → IdmapEntry → IdmapSet
unfolding lower upper
pieces e i = if_any (lower e i) ++ (i ∷ if_any (upper e i))

unfoldable pub add_safe_loop :
    IdmapEntry → IdmapSet → IdmapSet → Bool → Result Error (IdmapSet × Bool)
add_safe_loop i [] result added = ok (result, added)
add_safe_loop i (e ∷ m) result added =
    let kept = add_safe_loop i m (result ++ (e ∷ [])) added in
    let broken = add_safe_loop i m (result ++ pieces e i) true in
    if not (intersects e i)
    then kept
    else if hostids_intersect e i
    then err same_host_id
    else broken

abbrev pub close : IdmapEntry → IdmapSet × Bool → IdmapSet
close i (result, added) = if not added then result ++ (i ∷ []) else result

unfoldable pub add_safe : IdmapSet → IdmapEntry → Result Error IdmapSet
unfolding add_safe_loop
add_safe m i = do r ← add_safe_loop i m [] false; ok (close i r)
