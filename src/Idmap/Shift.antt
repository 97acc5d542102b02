-- ===== src/Idmap/Shift.antt =====
-- `doShiftIntoNs`, `ShiftIntoNs` and `ShiftFromNs` of shared/idmapset_linux.go.
use apollo_controller.Prelude.{
  ℕ, ◌+◌, ◌-◌, ◌<◌, ◌^◌, ◌≡◌, refl, Bool, true, false, ◌&&◌, arith, List, [], ◌∷◌, Option, none,
  some, ltb, leb, if◌then◌else◌, All, ok, err, Result, Bool-cases, inl, inr, ◌∙◌, ap₂, sym, ap,
}
use apollo_controller.Prelude.Int.{ℤ, pos, negsuc, eq_ℤ, +ℤ_pos, -ℤ_pos}
use apollo_controller.Idmap.{
  IdmapEntry, IdmapSet, Error, not_applicable, shift_into_ns, shift_from_ns,
}
use apollo_controller.Idmap.Block.{
  Block, to_entry, entries, IsSmall, Overlap, into, outof, look, or_look, Disjoint,
}

pub data How : Type 0 where
  inward outward : How

-- The `switch how` of the loop.
unfoldable pub shift : How → IdmapEntry → ℤ → Result Error ℤ
unfolding shift_into_ns shift_from_ns
shift inward e id = shift_into_ns e id
shift outward e id = shift_from_ns e id

-- `if err == nil { u = tmpu }`.
abbrev pub taken : Result Error ℤ → ℤ → ℤ
taken (ok tmp) u = tmp
taken (err e) u = u

abbrev pub unset : ℤ
unset = negsuc 0

unfoldable pub shift_loop : How → ℤ → ℤ → IdmapSet → ℤ → ℤ → ℤ × ℤ
shift_loop how uid gid [] u g = (u, g)
shift_loop how uid gid (e ∷ m) u g =
    shift_loop how uid gid m (if e.isuid && eq_ℤ u unset then taken (shift how e uid) u else u)
      (if e.isgid && eq_ℤ g unset then taken (shift how e gid) g else g)

unfoldable pub do_shift_into_ns : IdmapSet → ℤ → ℤ → How → ℤ × ℤ
unfolding shift_loop
do_shift_into_ns m uid gid how = shift_loop how uid gid m unset unset

unfoldable pub set_shift_into_ns : IdmapSet → ℤ → ℤ → ℤ × ℤ
unfolding do_shift_into_ns
set_shift_into_ns m uid gid = do_shift_into_ns m uid gid inward

unfoldable pub set_shift_from_ns : IdmapSet → ℤ → ℤ → ℤ × ℤ
unfolding do_shift_into_ns
set_shift_from_ns m uid gid = do_shift_into_ns m uid gid outward

abbrev pub route : How → Block → ℕ → Option ℕ
route inward = into
route outward = outof

abbrev pub as_id : Option ℕ → ℤ
as_id none = unset
as_id (some x) = pos x

abbrev as_result : Option ℕ → Result Error ℤ
as_result none = err not_applicable
as_result (some x) = ok (pos x)

shift_step :
    (how : How) (b : Block) (id : ℕ)
    → IsSmall b
    → id < 2 ^ 62
    → shift how (to_entry b) (pos id) ≡ as_result (route how b id)
unfolding shift
shift_step inward b id h k = elim (Bool-cases (leb b.ns id && ltb id (b.ns + b.size))) [
  | inl e ↦
      rw
        (
          +ℤ_pos b.ns b.size (omega arith),
          -ℤ_pos id b.ns (ground arith) (omega arith),
          +ℤ_pos (id - b.ns) b.host (omega arith),
        )
        (ground arith)
  | inr e ↦ rw (+ℤ_pos b.ns b.size (omega arith)) (ground arith)
]
shift_step outward b id h k = elim (Bool-cases (leb b.host id && ltb id (b.host + b.size))) [
  | inl e ↦
      rw
        (
          +ℤ_pos b.host b.size (omega arith),
          -ℤ_pos id b.host (ground arith) (omega arith),
          +ℤ_pos (id - b.host) b.ns (omega arith),
        )
        (ground arith)
  | inr e ↦ rw (+ℤ_pos b.host b.size (omega arith)) (ground arith)
]

-- One entry's part of the loop body, for uids or for gids.
body_step :
    (how : How) (b : Block) (selected : Bool) (id : ℕ) (o : Option ℕ)
    → IsSmall b
    → id < 2 ^ 62
    → (if selected && eq_ℤ (as_id o) unset
        then taken (shift how (to_entry b) (pos id)) (as_id o)
        else as_id o)
      ≡ as_id (or_look o (if selected then route how b id else none))
body_step how b false id none h k = refl
body_step how b false id (some x) h k = refl
body_step how b true id (some x) h k = refl
body_step how b true id none h k = rw (shift_step how b id h k) (found (route how b id))
  where
    found : (r : Option ℕ) → taken (as_result r) unset ≡ as_id r
    found none = refl
    found (some x) = refl

or_look_step :
    (selected : Bool) (o r rest : Option ℕ)
    → or_look (or_look o (if selected then r else none)) rest
      ≡ or_look o (if selected then elim r [ none ↦ rest | some x ↦ some x ] else rest)
or_look_step selected (some x) r rest = refl
or_look_step false none r rest = refl
or_look_step true none none rest = refl
or_look_step true none (some x) rest = refl

shift_loop-look :
    (how : How) (uid gid : ℕ) (bs : List Block) (u g : Option ℕ)
    → uid < 2 ^ 62
    → gid < 2 ^ 62
    → All IsSmall bs
    → shift_loop how (pos uid) (pos gid) (entries bs) (as_id u) (as_id g) ≡ (
      as_id (or_look u (look (λ b. b.uid) (route how) bs uid)),
      as_id (or_look g (look (λ b. b.gid) (route how) bs gid)),
    )
unfolding shift_loop
shift_loop-look how uid gid [] none none hu hg s = refl
shift_loop-look how uid gid [] none (some g) hu hg s = refl
shift_loop-look how uid gid [] (some u) none hu hg s = refl
shift_loop-look how uid gid [] (some u) (some g) hu hg s = refl
shift_loop-look how uid gid (b ∷ bs) u g hu hg s =
    ap₂ (shift_loop how (pos uid) (pos gid) (entries bs)) (body_step how b b.uid uid u s.0 hu)
      (body_step how b b.gid gid g s.0 hg)
    ∙ shift_loop-look how uid gid bs _ _ hu hg s.1
    ∙ ap₂ (λ x y. (as_id x, as_id y))
        (or_look_step b.uid u (route how b uid) (look (λ c. c.uid) (route how) bs uid))
        (or_look_step b.gid g (route how b gid) (look (λ c. c.gid) (route how) bs gid))

-- Each id goes where the first entry of its kind that holds it sends it, and to -1 if no entry
-- holds it. The entries are of 32 bits and the ids below 2 ^ 62.
pub do_shift_into_ns-look :
    (how : How) (bs : List Block) (uid gid : ℕ)
    → All IsSmall bs
    → uid < 2 ^ 62
    → gid < 2 ^ 62
    → do_shift_into_ns (entries bs) (pos uid) (pos gid) how
      ≡ (as_id (look (λ b. b.uid) (route how) bs uid), as_id (look (λ b. b.gid) (route how) bs gid))
unfolding do_shift_into_ns
do_shift_into_ns-look how bs uid gid s hu hg = shift_loop-look how uid gid bs none none hu hg s

module _ (P : Block → Bool) where
  -- An entry that shares no host id with the entries behind it takes none of their ids back.
  outof-none :
      (b : Block) (bs : List Block) (id h : ℕ)
      → P b ≡ true
      → All (λ c. P b ≡ true → P c ≡ true → ¬ Overlap b.host b.size c.host c.size) bs
      → look P into bs id ≡ some h
      → outof b h ≡ none
  outof-none b [] id h pb a e = ground arith
  outof-none b (c ∷ bs) id h pb a e = ground (arith, outof-none b bs id h pb a.1, a.0)

  look-outof-into :
      (bs : List Block) (id h : ℕ)
      → Disjoint P bs
      → look P into bs id ≡ some h
      → look P outof bs h ≡ some id
  look-outof-into [] id h d e = ground arith
  look-outof-into (b ∷ bs) id h d e =
      ground (arith, look-outof-into bs id h d.1, outof-none b bs id h)

found : (o : Option ℕ) (x : ℕ) → as_id o ≡ pos x → o ≡ some x
found none x e = ground arith
found (some y) x e = ground arith

into-lt :
    (P : Block → Bool) (bs : List Block) (id h : ℕ)
    → All IsSmall bs
    → look P into bs id ≡ some h
    → h < 2 ^ 62
into-lt P [] id h s e = ground arith
into-lt P (b ∷ bs) id h s e = ground (arith, into-lt P bs id h s.1)

-- `ShiftFromNs` undoes `ShiftIntoNs` where both ids are mapped, if no two entries for uids share a
-- host id and no two entries for gids do. The entries are of 32 bits and the ids below 2 ^ 62.
pub set_shift_from_ns-set_shift_into_ns :
    (bs : List Block) (uid gid u g : ℕ)
    → All IsSmall bs
    → Disjoint (λ b. b.uid) bs
    → Disjoint (λ b. b.gid) bs
    → uid < 2 ^ 62
    → gid < 2 ^ 62
    → set_shift_into_ns (entries bs) (pos uid) (pos gid) ≡ (pos u, pos g)
    → set_shift_from_ns (entries bs) (pos u) (pos g) ≡ (pos uid, pos gid)
unfolding set_shift_into_ns set_shift_from_ns
set_shift_from_ns-set_shift_into_ns bs uid gid u g s du dg hu hg e =
    do_shift_into_ns-look outward bs u g s (into-lt (λ b. b.uid) bs uid u s at_u)
      (into-lt (λ b. b.gid) bs gid g s at_g)
    ∙ ap₂ (λ x y. (as_id x, as_id y)) (look-outof-into (λ b. b.uid) bs uid u du at_u)
        (look-outof-into (λ b. b.gid) bs gid g dg at_g)
  where
    both :
        ◌≡◌ {A = ℤ × ℤ}
          (as_id (look (λ b. b.uid) into bs uid), as_id (look (λ b. b.gid) into bs gid))
          (pos u, pos g)
    both = sym (do_shift_into_ns-look inward bs uid gid s hu hg) ∙ e

    at_u : look (λ b. b.uid) into bs uid ≡ some u
    at_u = found _ u (ap (λ p. p.0) both)

    at_g : look (λ b. b.gid) into bs gid ≡ some g
    at_g = found _ g (ap (λ p. p.1) both)
