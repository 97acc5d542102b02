-- ===== src/Idmap/Ranges/Usable.antt =====
-- `ValidRanges` holds the ids of the entries, and `Usable` needs every host id of the entry
-- (shared/idmapset_linux.go).
use apollo_controller.Prelude.{
  ℕ, ◌+◌, ◌-◌, ◌≤◌, ◌<◌, ◌≡◌, inl, inr, refl, sym, ap, ◌∙◌, Bool, true, false, ◌&&◌, ◌||◌, List, [],
  ◌∷◌, map, arith, if◌then◌else◌, Bool-cases, All, ok,
}
use apollo_controller.Prelude.Int.{ℤ, pos, ◌+ℤ◌, ◌-ℤ◌, +ℤ_pos, -ℤ_pos}
use apollo_controller.Idmap.{IdRange, contains}
use apollo_controller.Idmap.Block.{Block, to_entry, entries, IsSmall, Kind, uids, gids, of_kind}
use apollo_controller.Idmap.Ranges.{
  less, insert, sort, ranges_loop, valid_ranges, in_some_range, usable,
}
use apollo_controller.Idmap.Ranges.Cover.{
  Span, to_range, Ordered, add_span, covered, holds, has_ns, mapped, or_new-add_span,
  add_span-covered, add_span-Ordered, or_left_comm,
}

-- A block that can stand in a map of the kernel.
abbrev pub IsFilled : Block → Type 0
IsFilled b = IsSmall b × (0 < b.size)

spans_loop : List Block → List Span → List Span
spans_loop [] rs = rs
spans_loop (b ∷ bs) rs = spans_loop bs (add_span rs b)

ranges_loop-spans_loop :
    (bs : List Block) (rs : List Span)
    → All Ordered rs
    → All IsFilled bs
    → ranges_loop (entries bs) (map to_range rs) ≡ map to_range (spans_loop bs rs)
unfolding ranges_loop spans_loop
ranges_loop-spans_loop [] rs o f = refl
ranges_loop-spans_loop (b ∷ bs) rs o f =
    ap (ranges_loop (entries bs)) (or_new-add_span rs b o f.0.0 f.0.1)
    ∙ ranges_loop-spans_loop bs (add_span rs b) (add_span-Ordered rs b o f.0.0 f.0.1) f.1

spans_loop-covered :
    (p : Bool → Bool → Bool) (bs : List Block) (rs : List Span) (id : ℕ)
    → All Ordered rs
    → All IsFilled bs
    → covered p (spans_loop bs rs) id ≡ (mapped p bs id || covered p rs id)
unfolding spans_loop
spans_loop-covered p [] rs id o f = refl
spans_loop-covered p (b ∷ bs) rs id o f =
    spans_loop-covered p bs (add_span rs b) id (add_span-Ordered rs b o f.0.0 f.0.1) f.1
    ∙ ap (◌||◌ (mapped p bs id)) (add_span-covered p rs b id o f.0.1)
    ∙ regroup (p b.uid b.gid && has_ns b id) (mapped p bs id) (covered p rs id)
  where
    regroup : (x y z : Bool) → (y || (x || z)) ≡ ((x || y) || z)
    regroup true true z = refl
    regroup true false z = refl
    regroup false y z = refl

-- Sorting moves blocks and changes none.
insert_block : Block → List Block → List Block
insert_block b [] = b ∷ []
insert_block b (x ∷ bs) =
    if less (to_entry x) (to_entry b) then x ∷ insert_block b bs else b ∷ x ∷ bs

sort_blocks : List Block → List Block
sort_blocks [] = []
sort_blocks (b ∷ bs) = insert_block b (sort_blocks bs)

insert-entries :
    (b : Block) (bs : List Block) → insert (to_entry b) (entries bs) ≡ entries (insert_block b bs)
unfolding insert_block insert
insert-entries b [] = refl
insert-entries b (x ∷ bs) = elim (Bool-cases (less (to_entry x) (to_entry b))) [
  | inl e ↦ rw e (ap (◌∷◌ (to_entry x)) (insert-entries b bs))
  | inr e ↦ rw e refl
]

sort-entries : (bs : List Block) → sort (entries bs) ≡ entries (sort_blocks bs)
unfolding sort sort_blocks
sort-entries [] = refl
sort-entries (b ∷ bs) = rw (sort-entries bs) (insert-entries b (sort_blocks bs))

insert_block-mapped :
    (p : Bool → Bool → Bool) (b : Block) (bs : List Block) (id : ℕ)
    → mapped p (insert_block b bs) id ≡ mapped p (b ∷ bs) id
unfolding insert_block
insert_block-mapped p b [] id = refl
insert_block-mapped p b (x ∷ bs) id = elim (Bool-cases (less (to_entry x) (to_entry b))) [
  | inl e ↦ rw e (
      ap (◌||◌ (p x.uid x.gid && has_ns x id)) (insert_block-mapped p b bs id)
      ∙ or_left_comm (p x.uid x.gid && has_ns x id) (p b.uid b.gid && has_ns b id) (mapped p bs id))
  | inr e ↦ rw e refl
]

sort_blocks-mapped :
    (p : Bool → Bool → Bool) (bs : List Block) (id : ℕ)
    → mapped p (sort_blocks bs) id ≡ mapped p bs id
unfolding sort_blocks
sort_blocks-mapped p [] id = refl
sort_blocks-mapped p (b ∷ bs) id =
    insert_block-mapped p b (sort_blocks bs) id
    ∙ ap (◌||◌ (p b.uid b.gid && has_ns b id)) (sort_blocks-mapped p bs id)

insert_block-All :
    (P : Block → Type 0) (b : Block) (bs : List Block) → P b → All P bs → All P (insert_block b bs)
unfolding insert_block
insert_block-All P b [] h hs = (h, tt)
insert_block-All P b (x ∷ bs) h hs = elim (Bool-cases (less (to_entry x) (to_entry b))) [
  | inl e ↦ rw e (hs.0, insert_block-All P b bs h hs.1)
  | inr e ↦ rw e (h, hs)
]

sort_blocks-All : (P : Block → Type 0) (bs : List Block) → All P bs → All P (sort_blocks bs)
unfolding sort_blocks
sort_blocks-All P [] hs = tt
sort_blocks-All P (b ∷ bs) hs =
    insert_block-All P b (sort_blocks bs) hs.0 (sort_blocks-All P bs hs.1)

-- The boolean that some range of a kind holds an id.
abbrev pub in_ranges : (Bool → Bool → Bool) → List IdRange → ℤ → Bool
in_ranges p [] id = false
in_ranges p (r ∷ rs) id = (p r.isuid r.isgid && contains r id) || in_ranges p rs id

in_ranges-covered :
    (p : Bool → Bool → Bool) (rs : List Span) (id : ℕ)
    → in_ranges p (map to_range rs) (pos id) ≡ covered p rs id
unfolding contains
in_ranges-covered p [] id = refl
in_ranges-covered p (r ∷ rs) id =
    ap (◌||◌ (p r.uid r.gid && holds r id)) (in_ranges-covered p rs id)

valid_ranges-spans :
    (bs : List Block)
    → All IsFilled bs
    → valid_ranges (entries bs) ≡ map to_range (spans_loop (sort_blocks bs) [])
unfolding valid_ranges
valid_ranges-spans bs f =
    rw (sort-entries bs)
      (ranges_loop-spans_loop (sort_blocks bs) [] tt (sort_blocks-All IsFilled bs f))

-- Sorting the entries and joining those that continue one another loses no id and adds none: the
-- ranges of a kind hold exactly the namespace ids of the entries of that kind. The entries hold
-- 32-bit numbers and at least one id each.
pub valid_ranges_exact :
    (p : Bool → Bool → Bool) (bs : List Block) (id : ℕ)
    → All IsFilled bs
    → in_ranges p (valid_ranges (entries bs)) (pos id) ≡ mapped p bs id
valid_ranges_exact p bs id f = rw (valid_ranges-spans bs f) (
    in_ranges-covered p (spans_loop (sort_blocks bs) []) id
    ∙ spans_loop-covered p (sort_blocks bs) [] id tt (sort_blocks-All IsFilled bs f)
    ∙ or_false (mapped p (sort_blocks bs) id)
    ∙ sort_blocks-mapped p bs id)
  where
    or_false : (x : Bool) → (x || false) ≡ x
    or_false true = refl
    or_false false = refl

abbrev pub flag : Kind → Bool → Bool → Bool
flag uids u g = u
flag gids u g = g

abbrev of_range : Kind → IdRange → Bool
of_range uids r = r.isuid
of_range gids r = r.isgid

last_host : (b : Block) → IsFilled b → pos b.host +ℤ pos b.size -ℤ pos 1 ≡ pos (b.host + b.size - 1)
last_host b f =
    rw (+ℤ_pos b.host b.size (omega arith)) (-ℤ_pos (b.host + b.size) 1 (omega arith) (omega arith))

in_some_range-covered :
    (k : Kind) (b : Block) (rs : List Span) (id : ℕ)
    → IsFilled b
    → b.host ≤ id
    → id < b.host + b.size
    → in_some_range (of_range k) (map to_range rs) (to_entry b) ≡ true
    → covered (flag k) rs id ≡ true
unfolding in_some_range contains
in_some_range-covered k b [] id f lo hi h = ground arith
in_some_range-covered uids b (r ∷ rs) id f lo hi h =
    let h' = rw (last_host b f) at h in ground (arith, in_some_range-covered uids b rs id f lo hi)
in_some_range-covered gids b (r ∷ rs) id f lo hi h =
    let h' = rw (last_host b f) at h in ground (arith, in_some_range-covered gids b rs id f lo hi)

-- Where `Usable` accepts an entry, every host id of the entry is one that the kernel's map of the
-- current namespace holds, for uids if the entry maps uids and for gids if it maps gids. The
-- entries hold 32-bit numbers and at least one id each.
pub usable_sound :
    (k : Kind) (b : Block) (kernel : List Block) (id : ℕ)
    → IsFilled b
    → All IsFilled kernel
    → usable (ok (entries kernel)) (to_entry b) ≡ ok tt
    → of_kind k b ≡ true
    → b.host ≤ id
    → id < b.host + b.size
    → mapped (flag k) kernel id ≡ true
unfolding usable
usable_sound k b kernel id f fs h sel lo hi =
    sym (valid_ranges_exact (flag k) kernel id fs)
    ∙ ap (λ rs. in_ranges (flag k) rs (pos id)) (valid_ranges-spans kernel fs)
    ∙ in_ranges-covered (flag k) spans id
    ∙ in_some_range-covered k b spans id f lo hi
        (rw (valid_ranges-spans kernel fs) at (accepted k sel h))
  where
    spans : List Span
    spans = spans_loop (sort_blocks kernel) []

    accepted :
        (k' : Kind)
        → of_kind k' b ≡ true
        → usable (ok (entries kernel)) (to_entry b) ≡ ok tt
        → in_some_range (of_range k') (valid_ranges (entries kernel)) (to_entry b) ≡ true
    accepted uids s e = ground arith
    accepted gids s e = ground arith
