-- ===== src/Allocation/Gap.antt =====
-- The search of findIdmap, on host ranges of 32-bit numbers.
use apollo_controller.Prelude.{
  ℕ, ◌+◌, ◌≤◌, ◌<◌, ◌≡◌, ◌⊎◌, inl, inr, refl, ap, ◌∙◌, false, List, [], ◌∷◌, map, arith, ltb,
  if◌then◌else◌, Bool-cases, All, All-imp,
}
use apollo_controller.Prelude.Int.{pos}
use apollo_controller.Idmap.{IdmapEntry}
use apollo_controller.Allocation.{entry_of, insert, sort}

pub record Range : Type 0 where
  pub host : ℕ
  pub size : ℕ

abbrev pub to_entry : Range → IdmapEntry
to_entry r = entry_of (pos r.host) (pos 0) (pos r.size)

-- A range of at least one id, within a part of the ids.
pub record IsWithin (low high : ℕ) (r : Range) : Type 0 where
  pub starts : low ≤ r.host
  pub ends : r.host + r.size ≤ high
  pub filled : 0 < r.size

abbrev pub Apart : Range → Range → Type 0
Apart a b = (a.host + a.size ≤ b.host) ⊎ (b.host + b.size ≤ a.host)

abbrev pub IsApart : List Range → Type 0
IsApart [] = Unit
IsApart (r ∷ rs) = All (Apart r) rs × IsApart rs

unfoldable pub insert_range : Range → List Range → List Range
insert_range e [] = e ∷ []
insert_range e (x ∷ rs) = if ltb x.host e.host then x ∷ insert_range e rs else e ∷ x ∷ rs

unfoldable pub sort_ranges : List Range → List Range
sort_ranges [] = []
sort_ranges (e ∷ rs) = insert_range e (sort_ranges rs)

insert-to_entry :
    (e : Range) (rs : List Range)
    → insert (to_entry e) (map to_entry rs) ≡ map to_entry (insert_range e rs)
unfolding insert insert_range
insert-to_entry e [] = refl
insert-to_entry e (x ∷ rs) = elim (Bool-cases (ltb x.host e.host)) [
  | inl h ↦ rw (h, insert-to_entry e rs) refl
  | inr h ↦ rw h refl
]

pub sort-to_entry : (rs : List Range) → sort (map to_entry rs) ≡ map to_entry (sort_ranges rs)
unfolding sort sort_ranges
sort-to_entry [] = refl
sort-to_entry (e ∷ rs) =
    ap (insert (to_entry e)) (sort-to_entry rs) ∙ insert-to_entry e (sort_ranges rs)

module _ (P : Range → Type 0) where
  All-insert_range : (e : Range) (rs : List Range) → P e → All P rs → All P (insert_range e rs)
  unfolding insert_range
  All-insert_range e [] p a = (p, tt)
  All-insert_range e (x ∷ rs) p a = elim (Bool-cases (ltb x.host e.host)) [
    | inl h ↦ rw h (a.0, All-insert_range e rs p a.1)
    | inr h ↦ rw h (p, a)
  ]

  pub All-sort_ranges : (rs : List Range) → All P rs → All P (sort_ranges rs)
  unfolding sort_ranges
  All-sort_ranges [] a = tt
  All-sort_ranges (e ∷ rs) a = All-insert_range e (sort_ranges rs) a.0 (All-sort_ranges rs a.1)

  All-insert_range_back : (e : Range) (rs : List Range) → All P (insert_range e rs) → P e × All P rs
  unfolding insert_range
  All-insert_range_back e [] a = a
  All-insert_range_back e (x ∷ rs) a = elim (Bool-cases (ltb x.host e.host)) [
    | inl h ↦ (let b = rw h at a in let c = All-insert_range_back e rs b.1 in (c.0, (b.0, c.1)))
    | inr h ↦ rw h at a
  ]

  pub All-sort_ranges_back : (rs : List Range) → All P (sort_ranges rs) → All P rs
  unfolding sort_ranges
  All-sort_ranges_back [] a = tt
  All-sort_ranges_back (e ∷ rs) a =
      let b = All-insert_range_back e (sort_ranges rs) a in (b.0, All-sort_ranges_back rs b.1)

-- Each range ends before the next begins.
abbrev pub IsOrdered : List Range → Type 0
IsOrdered [] = Unit
IsOrdered (r ∷ rs) = All (λ x. r.host + r.size ≤ x.host) rs × IsOrdered rs

-- Ranges apart, sorted by where they begin, come one behind the other.
insert_range-IsOrdered :
    (low high : ℕ) (e : Range) (rs : List Range)
    → All (IsWithin low high) rs
    → IsWithin low high e
    → All (Apart e) rs
    → IsOrdered rs
    → IsOrdered (insert_range e rs)
unfolding insert_range
insert_range-IsOrdered low high e [] w f a o = (tt, tt)
insert_range-IsOrdered low high e (x ∷ rs) w f a o = elim (Bool-cases (ltb x.host e.host)) [
  | inl h ↦ rw h (
    All-insert_range (λ y. x.host + x.size ≤ y.host) e rs
        (ground (arith, a.0, w.0.filled, f.filled)) o.0,
    insert_range-IsOrdered low high e rs w.1 f a.1 o.1,
  )
  | inr h ↦ rw h (
    (
      first h (a.0),
      All-imp _ _ (λ y (le : x.host + x.size ≤ y.host). omega (arith, first h a.0)) rs o.0,
    ),
    o,
  )
]
  where
    first : ltb x.host e.host ≡ false → Apart e x → e.host + e.size ≤ x.host
    first h b = ground (arith, w.0.filled, f.filled)

pub sort_ranges-IsOrdered :
    (low high : ℕ) (rs : List Range)
    → All (IsWithin low high) rs
    → IsApart rs
    → IsOrdered (sort_ranges rs)
unfolding sort_ranges
sort_ranges-IsOrdered low high [] w a = tt
sort_ranges-IsOrdered low high (e ∷ rs) w a =
    insert_range-IsOrdered low high e (sort_ranges rs) (All-sort_ranges (IsWithin low high) rs w.1)
      w.0 (All-sort_ranges (Apart e) rs a.0) (sort_ranges-IsOrdered low high rs w.1 a.1)
