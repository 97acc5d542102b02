-- ===== src/Ceph/Path.antt =====
-- parseParent and parseClone of apollo/storage_ceph_utils.go.
pub mod RoundTrip
use apollo_controller.Prelude.{
  ℕ, zero, suc, ◌+◌, ◌-◌, ◌*◌, ◌/◌, ◌%◌, ◌^◌, ◌≤◌, ◌<◌, ◌≡◌, ◌≢◌, ◌↔◌, ◌⊎◌, inl, inr, refl, sym, ap,
  ap₂, subst, ◌∙◌, Bool, true, false, not, ◌&&◌, ◌||◌, Option, none, some, List, [], ◌∷◌, ◌++◌, map,
  append_assoc, append-nil, arith, ltb, leb, ◌==◌, if◌then◌else◌, bool_eq, Bool-cases, Option-cases,
  ==_iff, length, take, drop, length-append, take-length-append, drop-length-append, All,
  All-append, All-imp, Result, ok, err, ◌>>=◌, ◌>>◌, guard, or_fail, >>=-eq-ok, ok-injective,
}
use mathlib.Core.Option
use apollo_controller.Prelude.Text.{Bytes, codes, has_prefix}

abbrev pub zombie_prefix : Bytes
zombie_prefix = codes "zombie_"

-- `strings.Index`.
unfoldable pub index : Bytes → Bytes → Option ℕ
index [] sep = if has_prefix [] sep then some 0 else none
index (c ∷ s) sep =
    let rest = index s sep in if has_prefix (c ∷ s) sep then some 0 else Option.map suc rest

-- A slice beyond the text is a panic.
pub data ParseError : Type 0 where
  unexpected out_of_range : ParseError

abbrev pub cut_at : Bytes → Option ℕ → Result ParseError (Bytes × Bytes)
cut_at s none = err unexpected
cut_at s (some idx) = ok (take idx s, drop (suc idx) s)

-- What stands before and behind the first separator of one byte.
unfoldable pub cut : Bytes → ℕ → Result ParseError (Bytes × Bytes)
cut s sep = cut_at s (index s (sep ∷ []))

-- The index in `idx` after the test of the prefix, -1 being `none`, and the rest of the text.
abbrev pub past_zombie : Bytes → Option ℕ → Option ℕ × Bytes
past_zombie slider none = (none, slider)
past_zombie slider (some idx) =
    if idx == 0
    then (some (length zombie_prefix), drop (length zombie_prefix) slider)
    else (some idx, slider)

abbrev pub added : Option ℕ → ℕ
added none = 0
added (some idx) = if idx == length zombie_prefix then idx else 0

-- `volumeType[:idxType]`.
abbrev pub slice : Bytes → ℕ → Result ParseError Bytes
slice s idx = if leb idx (length s) then ok (take idx s) else err out_of_range

-- What both have in common: the type, and what stands behind it.
abbrev pub parse_past : Bytes → Option ℕ × Bytes → Result ParseError (Bytes × Bytes)
parse_past volume_type (idx, slider) = or_fail (index slider (codes "_")) unexpected >>= λ idx_type.
    slice volume_type (idx_type + added idx) >>= λ parsed.
    cut slider b'_' >>= λ named. ok (parsed, named.1)

unfoldable pub parse_type : Bytes → Result ParseError (Bytes × Bytes)
parse_type volume_type =
    parse_past volume_type (past_zombie volume_type (index volume_type zombie_prefix))

-- The pool, the type and the name.
unfoldable pub parse_clone : Bytes → Result ParseError (Bytes × Bytes × Bytes)
parse_clone clone =
    cut clone b'/' >>= λ pooled. parse_type pooled.1 >>= λ typed. ok (pooled.0, typed.0, typed.1)

-- The pool, the type, the name and the snapshot.
unfoldable pub parse_parent : Bytes → Result ParseError (Bytes × Bytes × Bytes × Bytes)
parse_parent parent = cut parent b'/' >>= λ pooled. parse_type pooled.1 >>= λ typed.
    cut typed.1 b'@' >>= λ named. ok (pooled.0, typed.0, named.0, named.1)
