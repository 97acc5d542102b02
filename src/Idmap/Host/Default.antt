-- ===== src/Idmap/Host/Default.antt =====
-- What `DefaultIdmapSet` of shared/idmapset_linux.go may choose.
use apollo_controller.Prelude.{
  ℕ, ◌≤◌, ◌≡◌, inl, inr, refl, subst, Bool, true, false, List, [], ◌∷◌, arith, Bool-cases, length,
  All, All-append, Result, ok, err, >>=-eq-ok, ok-injective,
}
use apollo_controller.Prelude.Int.{pos, ltb_ℤ, ◌-ℤ◌, +ℤ_small, -ℤ_small}
use apollo_controller.Idmap.{IdRange, IdmapEntry, IdmapSet, Error}
use apollo_controller.Idmap.Host.{
  Files, first_useful, raised, block_of, first_suitable, from_kernel, from_shadow,
  default_idmap_set, has_shadow, current_idmap_set, get_from_shadow, is_full,
}
use apollo_controller.Prelude.Text.{codes}
use apollo_controller.Idmap.Ranges.{valid_ranges, ranges_loop, sort}
use apollo_controller.Idmap.Host.Bounds.{
  IsBoundedEntry, IsBoundedRange, ranges_loop-IsBounded, sort-All,
}
use apollo_controller.Idmap.Host.Proc.{current_idmap_set-IsBoundedEntry}

-- An entry that starts at id 0 of the container and has room for the 65536 ids of a system.
abbrev pub IsRoomy : IdmapEntry → Type 0
IsRoomy e = (e.nsid ≡ pos 0) × (ltb_ℤ e.maprange (pos 65536) ≡ false)

first_useful-IsRoomy :
    (u g : Bool) (entries : List (ℕ × ℕ)) → All IsRoomy (first_useful u g entries)
unfolding first_useful
first_useful-IsRoomy u g [] = tt
first_useful-IsRoomy u g ((start, size) ∷ entries) =
    ground (arith, first_useful-IsRoomy u g entries)

first_useful-length : (u g : Bool) (entries : List (ℕ × ℕ)) → length (first_useful u g entries) ≤ 1
unfolding first_useful
first_useful-length u g [] = omega arith
first_useful-length u g ((start, size) ∷ entries) = ground (arith, first_useful-length u g entries)

-- Outside the ids that the system's own accounts use.
abbrev pub IsFree : IdmapEntry → Type 0
IsFree e = ltb_ℤ e.hostid (pos 100000) ≡ false

abbrev IsChoice : IdmapEntry → Type 0
IsChoice e = IsRoomy e × IsFree e

block_of-IsChoice :
    (u g : Bool) (r : IdRange)
    → IsBoundedRange r
    → ltb_ℤ (r.endid -ℤ raised r.startid) (pos 65536) ≡ false
    → IsChoice (block_of u g r)
block_of-IsChoice u g r b h = (
  (
    refl,
    ground (
      arith,
      -ℤ_small r.endid (raised r.startid),
      +ℤ_small (r.endid -ℤ raised r.startid) (pos 1),
    ),
  ),
  ground arith,
)

first_suitable-IsChoice :
    (kind : IdRange → Bool) (u g : Bool) (rs : List IdRange)
    → All IsBoundedRange rs
    → All IsChoice (first_suitable kind u g rs)
unfolding first_suitable
first_suitable-IsChoice kind u g [] b = tt
first_suitable-IsChoice kind u g (r ∷ rs) b =
    let rest = first_suitable-IsChoice kind u g rs b.1 in
    elim (Bool-cases (ltb_ℤ (r.endid -ℤ raised r.startid) (pos 65536))) [
      | inl small ↦ ground arith
      | inr roomy ↦ ground (arith, block_of-IsChoice u g r b.0 roomy)
    ]

from_kernel-IsChoice :
    (kernel : Result Error IdmapSet)
    → ((m : IdmapSet) → kernel ≡ ok m → All IsBoundedEntry m)
    → All IsChoice (from_kernel kernel)
unfolding from_kernel valid_ranges
from_kernel-IsChoice (err e) b = (((refl, refl), refl), tt)
from_kernel-IsChoice (ok m) b = elim (Bool-cases (is_full (ranges_loop (sort m) []))) [
  | inl full ↦ rw full (((refl, refl), refl), tt)
  | inr part ↦
      let bounded = ranges_loop-IsBounded (sort m) [] (sort-All IsBoundedEntry m (b m refl)) tt in
      rw part (
        All-append IsChoice _ _ (first_suitable-IsChoice (λ r. r.isuid) true false _ bounded)
          (first_suitable-IsChoice (λ r. r.isgid) false true _ bounded))
]

chosen : (files : Files) → All IsChoice (from_kernel (current_idmap_set files))
chosen files =
    from_kernel-IsChoice (current_idmap_set files) (current_idmap_set-IsBoundedEntry files)

All-first : (m : IdmapSet) → All IsChoice m → All IsRoomy m
All-first [] h = tt
All-first (e ∷ m) h = (h.0.0, All-first m h.1)

-- Every entry of a default map begins at id 0 of the container and has room for 65536 ids, on
-- hosts with shadow files and without.
pub default_idmap_set-IsRoomy :
    (files : Files) {m : IdmapSet} → default_idmap_set files ≡ ok m → All IsRoomy m
unfolding default_idmap_set from_shadow
default_idmap_set-IsRoomy files {m} h = elim (Bool-cases (has_shadow files)) [
  | inl shadow ↦
      let (uids, eu, rest) =
        >>=-eq-ok (get_from_shadow files.subuid (codes "root")) _ (rw shadow at h) in
      let (gids, eg, last) = >>=-eq-ok (get_from_shadow files.subgid (codes "root")) _ rest in
      subst (All IsRoomy) (ok-injective last) (
        All-append IsRoomy _ _ (first_useful-IsRoomy true false uids)
          (first_useful-IsRoomy false true gids))
  | inr kernel ↦ subst (All IsRoomy) (ok-injective (rw kernel at h)) (All-first _ (chosen files))
]
