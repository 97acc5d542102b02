-- ===== src/Lvm.antt =====
-- Names and versions of LVM, apollo/storage_lvm_utils.go: containerNameToLVName and
-- lvmVersionIsAtLeast.
pub mod Names
pub mod Versions
use apollo_controller.Prelude.{
  ℕ, zero, suc, ◌+◌, ◌-◌, ◌*◌, ◌/◌, ◌%◌, ◌^◌, ◌≤◌, ◌<◌, ◌≡◌, ◌≢◌, ◌↔◌, ◌⊎◌, inl, inr, refl, sym, ap,
  ap₂, subst, ◌∙◌, Bool, true, false, not, ◌&&◌, ◌||◌, Option, none, some, List, [], ◌∷◌, ◌++◌, map,
  append_assoc, append-nil, arith, ltb, leb, ◌==◌, if◌then◌else◌, bool_eq, Bool-cases, Option-cases,
  ==_iff, length, take, drop, length-append, take-length-append, drop-length-append, All,
  All-append, All-imp, Result, ok, err, ◌>>=◌, ◌>>◌, guard, or_fail, >>=-eq-ok, ok-injective,
}
use apollo_controller.Prelude.Int.{ℤ, ltb_ℤ}
use apollo_controller.Prelude.Text.{Bytes, codes, split}
use apollo_controller.Prelude.Number.{parse_int}
use apollo_controller.Container.{snapshot_delimiter}

-- `strings.Replace` of each occurrence of one byte.
unfoldable pub replace : Bytes → ℕ → Bytes → Bytes
replace [] old new = []
replace (c ∷ s) old new = if c == old then new ++ replace s old new else c ∷ replace s old new

unfoldable pub container_name_to_lv_name : Bytes → Bytes
container_name_to_lv_name container_name =
    replace (replace container_name b'-' (codes "--")) snapshot_delimiter (codes "-")

-- A version with fewer than three parts is an index out of range.
pub data Error : Type 0 where
  panic not_a_number : Error

abbrev pub head_of : List Bytes → Bytes
head_of [] = []
head_of (s ∷ pieces) = s

abbrev pub version_parts : List Bytes → Result Error (ℤ × ℤ × ℤ)
version_parts (majs ∷ mins ∷ incs ∷ _) = do
  maj ← or_fail (parse_int majs) not_a_number
  min ← or_fail (parse_int mins) not_a_number
  inc ← or_fail (parse_int (head_of (split b'(' incs))) not_a_number
  ok (maj, min, inc)
version_parts _ = err panic

unfoldable pub version_split : Bytes → Result Error (ℤ × ℤ × ℤ)
version_split version_string = version_parts (split b'.' version_string)

unfoldable pub lvm_version_is_at_least : Bytes → Bytes → Result Error Bool
lvm_version_is_at_least s_type_version version_string =
    version_split (head_of (split b'/' s_type_version)) >>= λ lvm.
    version_split version_string >>= λ least.
    if ltb_ℤ lvm.0 least.0 || (ltb_ℤ lvm.1 least.1 || ltb_ℤ lvm.2 least.2)
    then ok false
    else ok true
