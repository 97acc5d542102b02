-- ===== src/Idmap/AddSafe/Override.antt =====
-- What `AddSafe` of shared/idmapset_linux.go does to the ids of the new entry and to the others.
use apollo_controller.Prelude.{
  ℕ, ◌+◌, ◌≤◌, ◌<◌, ◌≡◌, refl, Bool, true, false, arith, List, [], ◌∷◌, Option, none, some,
  if◌then◌else◌, All, ok, Result, Bool-cases, inl, inr, ◌∙◌, ap, ap₂, sym, >>=-eq-ok, Option-cases,
  ◌⊎◌,
}
use apollo_controller.Idmap.{IdmapSet, Error, intersects, hostids_intersect}
use apollo_controller.Idmap.Block.{
  Block, to_entry, entries, IsSmall, SameKind, Overlap, into, look, or_look, look-append,
}
use apollo_controller.Idmap.Overlap.{Noticed, intersects_iff, hostids_intersect_iff}
use apollo_controller.Idmap.AddSafe.{add_safe_loop, close, add_safe}
use apollo_controller.Idmap.AddSafe.Pieces.{block_pieces, pieces-block_pieces}
use apollo_controller.Idmap.AddSafe.Splice.{
  hit, spliced, Fits, Clear, add_safe_loop-spliced, add_safe_loop-Clear,
}
use apollo_controller.Idmap.Block.{Kind, uids, gids, of_kind}

or_look_if :
    (selected : Bool) (o rest : Option ℕ)
    → or_look (if selected then o else none) rest
      ≡ (if selected then elim o [ none ↦ rest | some x ↦ some x ] else rest)
or_look_if false o rest = refl
or_look_if true none rest = refl
or_look_if true (some x) rest = refl

module _ (p : Bool → Bool → Bool) where
  abbrev select : Block → Bool
  select b = p b.uid b.gid

  look-block_pieces :
      (i b : Block) (id : ℕ)
      → select i ≡ true
      → Overlap b.ns b.size i.ns i.size
      → look select into (block_pieces b i) id
        ≡ or_look (into i id) (if select b then into b id else none)
  look-block_pieces i b id pi o = ground arith

  module _ (kind : (b c : Block) → select b ≡ true → select c ≡ true → SameKind b c) (i : Block)
      (si : select i ≡ true) (hi : IsSmall i) (pi : 0 < i.size) where
    miss-none :
        (b : Block) (id x : ℕ)
        → Fits i b
        → hit b i ≡ false
        → into i id ≡ some x
        → (if select b then into b id else none) ≡ none
    miss-none b id x f m e =
        ground (arith, (intersects_iff b i f.small hi f.some_ids pi).1, kind b i, f.seen)

    look-spliced_new :
        (bs : List Block) (id x : ℕ)
        → All (Fits i) bs
        → All (Clear i) bs
        → into i id ≡ some x
        → look select into (spliced i bs false) id ≡ some x
    look-spliced_new [] id x f c e = ground arith
    look-spliced_new (b ∷ bs) id x f c e = elim (Bool-cases (hit b i)) [
      | inr miss ↦
          rw miss (ground (arith, miss-none b id x f.0 miss e, look-spliced_new bs id x f.1 c.1 e))
      | inl met ↦ rw met (
          look-append select into (block_pieces b i) (spliced i bs true) id
          ∙ ap (λ o. or_look o (look select into (spliced i bs true) id))
              (look-block_pieces i b id si (c.0 met))
          ∙ ap
              (λ o.
                or_look (or_look o (if select b then into b id else none))
                  (look select into (spliced i bs true) id))
              e)
    ]

    look-spliced_old :
        (bs : List Block) (id : ℕ) (added : Bool)
        → All (Clear i) bs
        → into i id ≡ none
        → look select into (spliced i bs added) id ≡ look select into bs id
    look-spliced_old [] id true f e = refl
    look-spliced_old [] id false f e = ground arith
    look-spliced_old (b ∷ bs) id added f e = elim (Bool-cases (hit b i)) [
      | inr miss ↦ rw miss (ground (arith, look-spliced_old bs id added f.1 e))
      | inl met ↦ rw met (
          look-append select into (block_pieces b i) (spliced i bs true) id
          ∙ ap₂ or_look
              (look-block_pieces i b id si (f.0 met)
                ∙ ap (λ o. or_look o (if select b then into b id else none)) e)
              (look-spliced_old bs id true f.1 e)
          ∙ or_look_if (select b) (into b id) (look select into bs id))
    ]

same_kind : (k : Kind) (b c : Block) → of_kind k b ≡ true → of_kind k c ≡ true → SameKind b c
same_kind uids b c hb hc = inl (hb, hc)
same_kind gids b c hb hc = inr (hb, hc)

-- Where `AddSafe` succeeds, an id of a kind that the new entry maps goes where the new entry sends
-- it, and any other id of that kind goes where it went before. The entries hold 32-bit numbers and
-- at least one id each, and no entry overlaps the new one in a single id that is the last of the
-- other.
pub add_safe-look :
    (k : Kind) (i : Block) (bs : List Block) {m : IdmapSet}
    → of_kind k i ≡ true
    → IsSmall i
    → 0 < i.size
    → All (Fits i) bs
    → add_safe (entries bs) (to_entry i) ≡ ok m
    → (after : List Block) × (m ≡ entries after)
      × ((id : ℕ)
          → look (of_kind k) into after id ≡ or_look (into i id) (look (of_kind k) into bs id))
unfolding add_safe
add_safe-look k i bs {m} si hi pi f h = (spliced i bs false, made, λ id. goes k si id)
  where
    inverted :
        (r : IdmapSet × Bool) × (add_safe_loop (to_entry i) (entries bs) [] false ≡ ok r)
        × ◌≡◌ {A = Result Error IdmapSet} (ok (close (to_entry i) r)) (ok m)
    inverted = >>=-eq-ok (add_safe_loop (to_entry i) (entries bs) [] false) _ h

    made : m ≡ entries (spliced i bs false)
    made =
        let e : close (to_entry i) inverted.0 ≡ m = cc (inverted.2) in
        sym e ∙ add_safe_loop-spliced i bs [] false hi pi f inverted.1

    clear : All (Clear i) bs
    clear = add_safe_loop-Clear i bs [] false hi pi f inverted.1

    overridden :
        (p : Bool → Bool → Bool)
        → ((b c : Block) → p b.uid b.gid ≡ true → p c.uid c.gid ≡ true → SameKind b c)
        → p i.uid i.gid ≡ true
        → (id : ℕ)
        → look (λ b. p b.uid b.gid) into (spliced i bs false) id
          ≡ or_look (into i id) (look (λ b. p b.uid b.gid) into bs id)
    overridden p kind sel id = elim (Option-cases (into i id)) [
      | inl e ↦ rw e (look-spliced_old p kind i sel hi pi bs id false clear e)
      | inr (x, e) ↦ rw e (look-spliced_new p kind i sel hi pi bs id x f clear e)
    ]

    goes :
        (k' : Kind)
        → of_kind k' i ≡ true
        → (id : ℕ)
        → look (of_kind k') into (spliced i bs false) id
          ≡ or_look (into i id) (look (of_kind k') into bs id)
    goes uids sel id = overridden (λ u g. u) (same_kind uids) sel id
    goes gids sel id = overridden (λ u g. g) (same_kind gids) sel id

-- A new entry for uids alone that falls on a single entry for uids and gids takes the gids of its
-- range away: after `AddSafe` they are mapped nowhere, though the old entry mapped them. The two
-- entries hold 32-bit numbers and at least one id each, overlap in the namespace other than in a
-- single last id, and share no host id.
pub add_safe_drops_gids :
    (i b : Block) (id : ℕ)
    → IsSmall i
    → IsSmall b
    → i.uid ≡ true
    → i.gid ≡ false
    → b.uid ≡ true
    → b.gid ≡ true
    → Noticed b.ns b.size i.ns i.size
    → (b.host + b.size < i.host) ⊎ (i.host + i.size < b.host)
    → i.ns ≤ id
    → id < i.ns + i.size
    → (after : List Block) × (add_safe (to_entry b ∷ []) (to_entry i) ≡ ok (entries after))
      × (look (of_kind gids) into after id ≡ none)
unfolding add_safe add_safe_loop
add_safe_drops_gids i b id hi hb iu ig bu bg n apart lo hi' =
    (block_pieces b i, rw (met, clear, pieces-block_pieces b i hb hi n.0), ground arith)
  where
    met : intersects (to_entry b) (to_entry i) ≡ true
    met = (intersects_iff b i hb hi (omega arith) (omega arith)).1 (inl (bu, iu), inr n)

    clear : hostids_intersect (to_entry b) (to_entry i) ≡ false
    clear = elim (Bool-cases (hostids_intersect (to_entry b) (to_entry i))) [
      | inl e ↦ ground (arith, (hostids_intersect_iff b i hb hi (omega arith) (omega arith)).0 e)
      | inr e ↦ e
    ]
