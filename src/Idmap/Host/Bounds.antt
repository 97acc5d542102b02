-- ===== src/Idmap/Host/Bounds.antt =====
-- `ValidRanges` of shared/idmapset_linux.go does not wrap around on 32-bit entries.
use apollo_controller.Prelude.{
  ◌^◌, ◌≤◌, ◌<◌, ◌≡◌, inl, inr, Bool, true, ◌&&◌, List, [], ◌∷◌, arith, bool_eq, Bool-cases, All,
}
use apollo_controller.Prelude.Int.{ℤ, pos_part, neg_part, eq_ℤ, pos, ◌+ℤ◌, +ℤ_small, -ℤ_small}
use apollo_controller.Idmap.{IdRange, IdmapEntry, IdmapSet}
use apollo_controller.Idmap.Ranges.Cover.{or_new-behind}
use apollo_controller.Idmap.Ranges.{
  ranges_loop, or_new, extend_range, new_range, sort, insert, less,
}

-- Numbers far from the ends of int64, at least -1.
abbrev pub IsBounded : ℤ → Type 0
IsBounded a = (pos_part a < 2 ^ 34) × (neg_part a ≤ 1)

abbrev pub IsBoundedEntry : IdmapEntry → Type 0
IsBoundedEntry e =
    (pos_part e.nsid < 2 ^ 32)
    × (neg_part e.nsid ≡ 0)
    × (pos_part e.maprange < 2 ^ 32)
    × (neg_part e.maprange ≡ 0)

abbrev pub IsBoundedRange : IdRange → Type 0
IsBoundedRange r = IsBounded r.startid × IsBounded r.endid

new_range-IsBounded : (e : IdmapEntry) → IsBoundedEntry e → IsBoundedRange (new_range e)
unfolding new_range
new_range-IsBounded e b =
    ground (arith, +ℤ_small e.nsid e.maprange, -ℤ_small (e.nsid +ℤ e.maprange) (pos 1))

extended-IsBounded :
    (r : IdRange) (e : IdmapEntry)
    → IsBoundedRange r
    → IsBoundedEntry e
    → eq_ℤ (r.endid +ℤ pos 1) e.nsid ≡ true
    → IsBounded (r.endid +ℤ e.maprange)
extended-IsBounded r e b be h =
    ground (arith, +ℤ_small r.endid (pos 1), +ℤ_small r.endid e.maprange)

abbrev joins : IdRange → IdmapEntry → Bool
joins r e = bool_eq e.isuid r.isuid && bool_eq e.isgid r.isgid && eq_ℤ (r.endid +ℤ pos 1) e.nsid

joined : (r : IdRange) (e : IdmapEntry) → joins r e ≡ true → eq_ℤ (r.endid +ℤ pos 1) e.nsid ≡ true
joined r e h = ground arith

or_new-IsBounded :
    (rs : List IdRange) (e : IdmapEntry)
    → All IsBoundedRange rs
    → IsBoundedEntry e
    → All IsBoundedRange (or_new (extend_range rs e) rs e)
unfolding extend_range
or_new-IsBounded [] e b be = (new_range-IsBounded e be, tt)
or_new-IsBounded (r ∷ rs) e b be = elim (Bool-cases (joins r e)) [
  | inl t ↦ rw t ((b.0.0, extended-IsBounded r e b.0 be (joined r e t)), b.1)
  | inr t ↦ rw t (rw (or_new-behind (extend_range rs e) r rs e) (b.0, or_new-IsBounded rs e b.1 be))
]

insert-All :
    (P : IdmapEntry → Type 0) (e : IdmapEntry) (m : IdmapSet) → P e → All P m → All P (insert e m)
unfolding insert
insert-All P e [] h hs = (h, tt)
insert-All P e (x ∷ m) h hs = elim (Bool-cases (less x e)) [
  | inl t ↦ rw t (hs.0, insert-All P e m h hs.1)
  | inr t ↦ rw t (h, hs)
]

pub sort-All : (P : IdmapEntry → Type 0) (m : IdmapSet) → All P m → All P (sort m)
unfolding sort
sort-All P [] hs = tt
sort-All P (e ∷ m) hs = insert-All P e (sort m) hs.0 (sort-All P m hs.1)

pub ranges_loop-IsBounded :
    (m : IdmapSet) (rs : List IdRange)
    → All IsBoundedEntry m
    → All IsBoundedRange rs
    → All IsBoundedRange (ranges_loop m rs)
unfolding ranges_loop
ranges_loop-IsBounded [] rs bm b = b
ranges_loop-IsBounded (e ∷ m) rs bm b =
    ranges_loop-IsBounded m _ bm.1 (or_new-IsBounded rs e b bm.0)
