-- ===== src/Allocation.antt =====
-- The id map of a container, of apollo/container_mercury.go: idmapSize, parseRawIdmap and findIdmap.
-- The daemon's map is an argument; it is not nil. The list of containers is what the database
-- holds, each with its name and with what loading it gives.
pub mod Gap
pub mod FreeIds
pub mod Disjoint
pub mod Below
use apollo_controller.Prelude.{
  ℕ, zero, suc, ◌+◌, ◌-◌, ◌*◌, ◌/◌, ◌%◌, ◌^◌, ◌≤◌, ◌<◌, ◌≡◌, ◌≢◌, ◌↔◌, ◌⊎◌, inl, inr, refl, sym, ap,
  ap₂, subst, ◌∙◌, Bool, true, false, not, ◌&&◌, ◌||◌, Option, none, some, List, [], ◌∷◌, ◌++◌, map,
  append_assoc, append-nil, arith, ltb, leb, ◌==◌, if◌then◌else◌, bool_eq, Bool-cases, Option-cases,
  ==_iff, length, take, drop, length-append, take-length-append, drop-length-append, All,
  All-append, Result, ok, err, ◌>>=◌, ◌>>◌, guard, or_fail, >>=-eq-ok, ok-injective,
}
use apollo_controller.Prelude.Int.{ℤ, pos, ltb_ℤ, ◌+ℤ◌, ◌-ℤ◌}
use apollo_controller.Prelude.Text.{Bytes, codes, bytes_eq, split}
use apollo_controller.Prelude.Number.{parse_int}
use apollo_controller.Idmap.{IdmapEntry, IdmapSet}
use apollo_controller.Idmap.AddSafe.{add_safe}
use apollo_controller.Config.{is_true}

-- `out_of_range` is a panic: the daemon's map has no entry.
pub data Error : Type 0 where
  bad_initial_idmap bad_number bad_range bad_line different_sizes bad_type same_host_id : Error
  no_list not_loaded out_of_range not_enough : Error

abbrev pub initial_size : IdmapSet → Result Error ℤ
initial_size (uids ∷ gids ∷ []) = ok uids.maprange
initial_size _ = err bad_initial_idmap

unfoldable pub idmap_size : IdmapSet → Bytes → Bytes → Result Error ℤ
idmap_size daemon isolated_str size =
    if bytes_eq size [] || bytes_eq size (codes "auto")
    then if is_true isolated_str then ok (pos 65536) else initial_size daemon
    else or_fail (parse_int size) bad_number

-- A range `first-last`, or a single id, as its first id and its size.
unfoldable pub get_range : List Bytes → Result Error (ℤ × ℤ)
get_range (first ∷ []) = do base ← or_fail (parse_int first) bad_number; ok (base, pos 1)
get_range (first ∷ last ∷ []) = do
  base ← or_fail (parse_int first) bad_number
  size ← or_fail (parse_int last) bad_number
  ok (base, size -ℤ base +ℤ pos 1)
get_range _ = err bad_range

unfoldable pub typed_entry : Bytes → IdmapEntry → Result Error IdmapEntry
typed_entry kind entry =
    if bytes_eq kind (codes "both")
    then ok (record entry { isuid = true; isgid = true })
    else if bytes_eq kind (codes "uid")
    then ok (record entry { isuid = true })
    else if bytes_eq kind (codes "gid")
    then ok (record entry { isgid = true })
    else err bad_type

abbrev pub entry_of : ℤ → ℤ → ℤ → IdmapEntry
entry_of host ns range = record {
  isuid = false;
  isgid = false;
  hostid = host;
  nsid = ns;
  maprange = range;
}

unfoldable pub raw_fields : List Bytes → Result Error IdmapEntry
raw_fields (kind ∷ outside ∷ inside ∷ []) = do
  out ← get_range (split b'-' outside)
  into ← get_range (split b'-' inside)
  guard (not (ltb_ℤ into.1 out.1 || ltb_ℤ out.1 into.1)) different_sizes
  typed_entry kind (entry_of out.0 into.0 into.1)
raw_fields _ = err bad_line

abbrev pub added {ℓ} : {E : Type ℓ} → Result E IdmapSet → Result Error IdmapSet
added (ok m) = ok m
added (err e) = err same_host_id

unfoldable pub raw_loop : List Bytes → IdmapSet → Result Error IdmapSet
raw_loop [] ret = ok ret
raw_loop ([] ∷ lines) ret = raw_loop lines ret
raw_loop ((c ∷ s) ∷ lines) ret = do
  entry ← raw_fields (split 32 (c ∷ s))
  next ← added (add_safe ret entry)
  raw_loop lines next

unfoldable pub parse_raw_idmap : Bytes → Result Error IdmapSet
parse_raw_idmap value = raw_loop (split 10 value) []

-- The loops over the raw entries do not look at the error of `AddSafe`, which then changes nothing.
abbrev pub or_kept {ℓ} : {E : Type ℓ} → Result E IdmapSet → IdmapSet → IdmapSet
or_kept (ok m) set = m
or_kept (err e) set = set

unfoldable pub with_raw : IdmapSet → IdmapSet → IdmapSet
with_raw set [] = set
with_raw set (ent ∷ raw) = with_raw (or_kept (add_safe set ent) set) raw

unfoldable pub mk_idmap : IdmapSet → ℤ → ℤ → IdmapSet
mk_idmap raw offset size =
    with_raw
      (record { isuid = true; isgid = false; hostid = offset; nsid = pos 0; maprange = size }
        ∷ record { isuid = false; isgid = true; hostid = offset; nsid = pos 0; maprange = size }
        ∷ [])
      raw

-- What the loop over the containers reads of one: `IsPrivileged` and three keys of its
-- configuration.
pub record Other : Type 0 where
  pub privileged : Bool
  pub isolated : Bytes
  pub base : Bytes
  pub size : Bytes

abbrev pub base_of : Bytes → Result Error ℤ
base_of [] = ok (pos 0)
base_of (c ∷ s) = or_fail (parse_int (c ∷ s)) bad_number

unfoldable pub other_entry : IdmapSet → Other → Result Error IdmapSet
other_entry daemon other =
    if other.privileged
    then ok []
    else if not (is_true other.isolated)
    then ok []
    else (base_of other.base >>= λ base. idmap_size daemon other.isolated other.size >>= λ size.
        ok (entry_of base (pos 0) size ∷ []))

unfoldable pub other_entries :
    IdmapSet → Bytes → List (Bytes × Option Other) → Result Error IdmapSet
other_entries daemon name [] = ok []
other_entries daemon name ((n, loaded) ∷ containers) =
    let rest = other_entries daemon name containers in
    if bytes_eq n name
    then rest
    else (or_fail loaded not_loaded >>= λ other.
        other_entry daemon other >>= λ entry. rest >>= λ entries. ok (entry ++ entries))

-- `sort.Sort` by host id.
unfoldable pub insert : IdmapEntry → IdmapSet → IdmapSet
insert e [] = e ∷ []
insert e (x ∷ m) = if ltb_ℤ x.hostid e.hostid then x ∷ insert e m else e ∷ x ∷ m

unfoldable pub sort : IdmapSet → IdmapSet
sort [] = []
sort (e ∷ m) = insert e (sort m)

-- The loop ends at a gap, or past the last entry.
pub data Search : Type 0 where
  found past : ℤ → Search

abbrev pub end_of : IdmapEntry → ℤ
end_of e = e.hostid +ℤ e.maprange

unfoldable pub next_gap : ℤ → ℤ → IdmapEntry → IdmapSet → Search
next_gap offset size prev [] = past offset
next_gap offset size prev (e ∷ m) =
    let behind_prev = next_gap (end_of prev) size e m in
    let behind = next_gap (end_of e) size e m in
    if ltb_ℤ offset (end_of prev)
    then behind_prev
    else if ltb_ℤ (end_of prev +ℤ size) e.hostid
    then found (end_of prev)
    else behind

unfoldable pub first_gap : ℤ → ℤ → IdmapSet → Search
first_gap offset size [] = past offset
first_gap offset size (e ∷ m) =
    if ltb_ℤ e.hostid (offset +ℤ size) then next_gap (end_of e) size e m else found offset

unfoldable pub settled : IdmapEntry → ℤ → Search → Result Error ℤ
settled first size (found offset) = ok offset
settled first size (past offset) =
    if ltb_ℤ (offset +ℤ size) (end_of first) then ok offset else err not_enough

unfoldable pub free_offset : IdmapSet → Bytes → ℤ → List (Bytes × Option Other) → Result Error ℤ
free_offset [] name size containers = err out_of_range
free_offset (first ∷ m) name size containers = do
  others ← other_entries (first ∷ m) name containers
  settled first size (first_gap (first.hostid +ℤ pos 65536) size (sort others))

-- The configuration of the container that the map is for.
pub record Wanted : Type 0 where
  pub name : Bytes
  pub isolated : Bytes
  pub base : Bytes
  pub size : Bytes
  pub raw : Bytes

unfoldable pub offset_for :
    IdmapSet → Wanted → ℤ → Option (List (Bytes × Option Other)) → Result Error ℤ
offset_for daemon wanted size containers =
    if not (bytes_eq wanted.base [])
    then or_fail (parse_int wanted.base) bad_number
    else (or_fail containers no_list >>= λ cs. free_offset daemon wanted.name size cs)

unfoldable pub find_idmap :
    IdmapSet → Wanted → Option (List (Bytes × Option Other)) → Result Error (IdmapSet × ℤ)
find_idmap daemon wanted containers = parse_raw_idmap wanted.raw >>= λ raw.
    if not (is_true wanted.isolated)
    then ok (with_raw daemon raw, pos 0)
    else (idmap_size daemon wanted.isolated wanted.size >>= λ size.
        offset_for daemon wanted size containers >>= λ offset.
        ok (mk_idmap raw offset size, offset))
