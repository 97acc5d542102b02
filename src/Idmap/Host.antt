-- ===== src/Idmap/Host.antt =====
-- The maps that the host offers: `getFromShadow`, `getFromProc`, `DefaultIdmapSet` and
-- `CurrentIdmapSet` of shared/idmapset_linux.go. A file is its lines, `none` where it is missing.
pub mod Bounds
pub mod Proc
pub mod Default
use apollo_controller.Prelude.{
  ℕ, zero, suc, ◌+◌, ◌-◌, ◌*◌, ◌/◌, ◌%◌, ◌^◌, ◌≤◌, ◌<◌, ◌≡◌, ◌≢◌, ◌↔◌, ◌⊎◌, inl, inr, refl, sym, ap,
  ap₂, subst, ◌∙◌, Bool, true, false, not, ◌&&◌, ◌||◌, Option, none, some, List, [], ◌∷◌, ◌++◌, map,
  append_assoc, append-nil, arith, ltb, leb, ◌==◌, if◌then◌else◌, bool_eq, Bool-cases, Option-cases,
  ==_iff, length, take, drop, length-append, All, All-append, Result, ok, err, ◌>>=◌, ◌>>◌, guard,
  or_fail, >>=-eq-ok,
}
use apollo_controller.Prelude.Int.{ℤ, pos, ltb_ℤ, eq_ℤ, ◌+ℤ◌, ◌-ℤ◌}
use apollo_controller.Prelude.Text.{Bytes, codes, split, fields, bytes_eq, to_lower}
use apollo_controller.Prelude.Number.{parse_uint}
use apollo_controller.Idmap.{IdRange, IdmapEntry, IdmapSet, Error, bad_file, no_file, no_entries}
use apollo_controller.Idmap.Ranges.{valid_ranges}

-- The text before the first `#`.
abbrev first_piece : List Bytes → Bytes
first_piece [] = []
first_piece (s ∷ pieces) = s

unfoldable pub uncommented : Bytes → Bytes
uncommented line = first_piece (split b'#' line)

-- What one line of a file adds to the entries read so far.
abbrev pub both_or : Option ℕ → Option ℕ → List (ℕ × ℕ) → List (ℕ × ℕ)
both_or (some start) (some size) entries = entries ++ ((start, size) ∷ [])
both_or _ _ entries = entries

unfoldable pub shadow_fields : Bytes → List Bytes → List (ℕ × ℕ) → Result Error (List (ℕ × ℕ))
shadow_fields username (name ∷ start ∷ size ∷ more) entries =
    if bytes_eq (to_lower name) (to_lower username)
    then ok (both_or (parse_uint start 32) (parse_uint size 32) entries)
    else ok entries
shadow_fields username _ entries = err bad_file

unfoldable pub shadow_loop : Bytes → List Bytes → List (ℕ × ℕ) → Result Error (List (ℕ × ℕ))
shadow_loop username [] entries = ok entries
shadow_loop username (line ∷ lines) entries =
    let skipped = shadow_loop username lines entries in
    if length (uncommented line) == 0
    then skipped
    else (shadow_fields username (split b':' (uncommented line)) entries >>= λ read.
        shadow_loop username lines read)

abbrev pub nonempty {ℓ} : {A : Type ℓ} → List A → Result Error (List A)
nonempty [] = err no_entries
nonempty (x ∷ xs) = ok (x ∷ xs)

unfoldable pub get_from_shadow : Option (List Bytes) → Bytes → Result Error (List (ℕ × ℕ))
get_from_shadow file username = do
  lines ← or_fail file no_file
  entries ← shadow_loop username lines []
  nonempty entries

-- A line of /proc/self/uid_map: the first id in the namespace, the first on the host, how many.
abbrev pub all_or : Option ℕ → Option ℕ → Option ℕ → List (ℕ × ℕ × ℕ) → List (ℕ × ℕ × ℕ)
all_or (some start) (some host) (some size) entries = entries ++ ((start, host, size) ∷ [])
all_or _ _ _ entries = entries

unfoldable pub proc_fields : List Bytes → List (ℕ × ℕ × ℕ) → Result Error (List (ℕ × ℕ × ℕ))
proc_fields (start ∷ host ∷ size ∷ more) entries =
    ok (all_or (parse_uint start 32) (parse_uint host 32) (parse_uint size 32) entries)
proc_fields _ entries = err bad_file

unfoldable pub proc_loop : List Bytes → List (ℕ × ℕ × ℕ) → Result Error (List (ℕ × ℕ × ℕ))
proc_loop [] entries = ok entries
proc_loop (line ∷ lines) entries =
    let skipped = proc_loop lines entries in
    if length (uncommented line) == 0
    then skipped
    else (proc_fields (fields (uncommented line)) entries >>= λ read. proc_loop lines read)

unfoldable pub get_from_proc : List Bytes → Result Error (List (ℕ × ℕ × ℕ))
get_from_proc lines = do entries ← proc_loop lines []; nonempty entries

pub record Files : Type 0 where
  pub newuidmap : Bool
  pub newgidmap : Bool
  pub subuid : Option (List Bytes)
  pub subgid : Option (List Bytes)
  pub uid_map : Option (List Bytes)
  pub gid_map : Option (List Bytes)

abbrev pub exists {ℓ} : {A : Type ℓ} → Option A → Bool
exists none = false
exists (some a) = true

abbrev pub mapping : Bool → Bool → ℕ × ℕ × ℕ → IdmapEntry
mapping u g (start, host, size) = record {
  isuid = u;
  isgid = g;
  hostid = pos host;
  nsid = pos start;
  maprange = pos size;
}

unfoldable pub current_entries : Bool → Bool → Option (List Bytes) → Result Error IdmapSet
current_entries u g none = ok (mapping u g (0, 0, 0) ∷ [])
current_entries u g (some lines) = do entries ← get_from_proc lines; ok (map (mapping u g) entries)

unfoldable pub current_idmap_set : Files → Result Error IdmapSet
current_idmap_set files = do
  uids ← current_entries true false files.uid_map
  gids ← current_entries false true files.gid_map
  ok (uids ++ gids)

-- The first entry that is big enough to be useful, if there is one.
unfoldable pub first_useful : Bool → Bool → List (ℕ × ℕ) → IdmapSet
first_useful u g [] = []
first_useful u g ((start, size) ∷ entries) =
    if ltb size 65536 then first_useful u g entries else mapping u g (0, start, size) ∷ []

abbrev pub hardcoded : IdmapEntry
hardcoded = mapping true true (0, 1000000, 1000000000)

abbrev pub full_range : Bool → Bool → IdRange
full_range u g = record { isuid = u; isgid = g; startid = pos 0; endid = pos 4294967294 }

unfoldable pub range_eq : IdRange → IdRange → Bool
range_eq a b =
    bool_eq a.isuid b.isuid
    && bool_eq a.isgid b.isgid
    && eq_ℤ a.startid b.startid
    && eq_ℤ a.endid b.endid

-- `reflect.DeepEqual(kernelRanges, fullKernelRanges)`.
unfoldable pub is_full : List IdRange → Bool
is_full (a ∷ b ∷ []) = range_eq a (full_range true false) && range_eq b (full_range false true)
is_full _ = false

-- The first 100000 ids are left to the system.
abbrev pub raised : ℤ → ℤ
raised startid = if ltb_ℤ startid (pos 100000) then pos 100000 else startid

abbrev pub block_of : Bool → Bool → IdRange → IdmapEntry
block_of u g r = record {
  isuid = u;
  isgid = g;
  hostid = raised r.startid;
  nsid = pos 0;
  maprange = r.endid -ℤ raised r.startid +ℤ pos 1;
}

-- The first range of a kind with room for 65537 ids above the first 100000. The source writes the
-- raised start back into the range; no range is read again after that.
unfoldable pub first_suitable : (IdRange → Bool) → Bool → Bool → List IdRange → IdmapSet
first_suitable kind u g [] = []
first_suitable kind u g (r ∷ rs) =
    let rest = first_suitable kind u g rs in
    if not (kind r)
    then rest
    else if ltb_ℤ r.endid (pos 100000)
    then rest
    else if ltb_ℤ (r.endid -ℤ raised r.startid) (pos 65536)
    then rest
    else block_of u g r ∷ []

unfoldable pub from_kernel : Result Error IdmapSet → IdmapSet
from_kernel (err e) = hardcoded ∷ []
from_kernel (ok kernel) =
    let ranges = valid_ranges kernel in
    if is_full ranges
    then hardcoded ∷ []
    else first_suitable (λ r. r.isuid) true false ranges
      ++ first_suitable (λ r. r.isgid) false true ranges

unfoldable pub from_shadow : Files → Result Error IdmapSet
from_shadow files = do
  uids ← get_from_shadow files.subuid (codes "root")
  gids ← get_from_shadow files.subgid (codes "root")
  ok (first_useful true false uids ++ first_useful false true gids)

abbrev pub has_shadow : Files → Bool
has_shadow files = files.newuidmap && files.newgidmap && exists files.subuid && exists files.subgid

unfoldable pub default_idmap_set : Files → Result Error IdmapSet
default_idmap_set files =
    if has_shadow files then from_shadow files else ok (from_kernel (current_idmap_set files))
