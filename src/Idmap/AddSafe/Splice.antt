-- ===== src/Idmap/AddSafe/Splice.antt =====
-- The set that `AddSafe` of shared/idmapset_linux.go builds, entry by entry.
use apollo_controller.Prelude.{
  ◌<◌, ◌≡◌, refl, Bool, true, false, not, arith, List, [], ◌∷◌, ◌++◌, if◌then◌else◌, All, ok, err,
  Bool-cases, inl, inr, ◌∙◌, ap, sym, append_assoc, append-nil,
}
use apollo_controller.Idmap.{IdmapSet, same_host_id, intersects, hostids_intersect}
use apollo_controller.Idmap.Block.{Block, to_entry, entries, IsSmall, Overlap}
use apollo_controller.Idmap.Overlap.{Noticed, intersects_iff, hostids_intersect_iff}
use apollo_controller.Idmap.AddSafe.{pieces, add_safe_loop, close}
use apollo_controller.Idmap.AddSafe.Pieces.{block_pieces, pieces-block_pieces}

-- The result for an entry that meets `i` as often as one does, and for one that meets none.
abbrev pub hit : Block → Block → Bool
hit b i = intersects (to_entry b) (to_entry i)

abbrev pub spliced : Block → List Block → Bool → List Block
spliced i [] added = if not added then i ∷ [] else []
spliced i (b ∷ bs) added =
    if not (hit b i) then b ∷ spliced i bs added else block_pieces b i ++ spliced i bs true

pub record Fits (i b : Block) : Type 0 where
  pub small : IsSmall b
  pub some_ids : 0 < b.size
  pub seen : Overlap b.ns b.size i.ns i.size → Noticed b.ns b.size i.ns i.size

map-append-entries : (xs ys : List Block) → entries (xs ++ ys) ≡ entries xs ++ entries ys
map-append-entries [] ys = refl
map-append-entries (x ∷ xs) ys = ap (◌∷◌ (to_entry x)) (map-append-entries xs ys)

-- An entry that is hit, and shares no host id with the new one, overlaps it in the namespace.
hit-Overlap :
    (i b : Block)
    → IsSmall i
    → 0 < i.size
    → Fits i b
    → hit b i ≡ true
    → hostids_intersect (to_entry b) (to_entry i) ≡ false
    → Overlap b.ns b.size i.ns i.size
hit-Overlap i b hi pi f h n = ground (
  arith,
  (intersects_iff b i f.small hi f.some_ids pi).0 h,
  (hostids_intersect_iff b i f.small hi f.some_ids pi).1,
)

pub add_safe_loop-spliced :
    (i : Block) (bs : List Block) (result : IdmapSet) (added : Bool) {r : IdmapSet × Bool}
    → IsSmall i
    → 0 < i.size
    → All (Fits i) bs
    → add_safe_loop (to_entry i) (entries bs) result added ≡ ok r
    → close (to_entry i) r ≡ result ++ entries (spliced i bs added)
unfolding add_safe_loop
add_safe_loop-spliced i [] result true hi pi f h = ground (arith, append-nil result)
add_safe_loop-spliced i [] result false hi pi f h = ground arith
add_safe_loop-spliced i (b ∷ bs) result added {r} hi pi f h = elim (Bool-cases (hit b i)) [
  | inr miss ↦
      let go : add_safe_loop (to_entry i) (entries bs) (result ++ (to_entry b ∷ [])) added ≡ ok r =
        rw miss at h in
      rw miss (
        add_safe_loop-spliced i bs (result ++ (to_entry b ∷ [])) added hi pi f.1 go
        ∙ append_assoc result (to_entry b ∷ []) (entries (spliced i bs added)))
  | inl met ↦ elim (Bool-cases (hostids_intersect (to_entry b) (to_entry i))) [
    | inl clash ↦ ground arith
    | inr apart ↦
        let go : add_safe_loop (to_entry i) (entries bs)
              (result ++ pieces (to_entry b) (to_entry i)) true
            ≡ ok r =
          rw (met, apart) at h in
        rw met (
          add_safe_loop-spliced i bs (result ++ pieces (to_entry b) (to_entry i)) true hi pi f.1 go
          ∙ append_assoc result (pieces (to_entry b) (to_entry i)) (entries (spliced i bs true))
          ∙ ap (λ ps. result ++ (ps ++ entries (spliced i bs true)))
              (pieces-block_pieces b i f.0.small hi (hit-Overlap i b hi pi f.0 met apart))
          ∙ ap (◌++◌ result) (sym (map-append-entries (block_pieces b i) (spliced i bs true))))
  ]
]

abbrev pub Clear : Block → Block → Type 0
Clear i b = hit b i ≡ true → Overlap b.ns b.size i.ns i.size

pub add_safe_loop-Clear :
    (i : Block) (bs : List Block) (result : IdmapSet) (added : Bool) {r : IdmapSet × Bool}
    → IsSmall i
    → 0 < i.size
    → All (Fits i) bs
    → add_safe_loop (to_entry i) (entries bs) result added ≡ ok r
    → All (Clear i) bs
unfolding add_safe_loop
add_safe_loop-Clear i [] result added hi pi f h = tt
add_safe_loop-Clear i (b ∷ bs) result added {r} hi pi f h = elim (Bool-cases (hit b i)) [
  | inr miss ↦ (
    λ met. cc,
    add_safe_loop-Clear i bs (result ++ (to_entry b ∷ [])) added hi pi f.1 (rw miss at h),
  )
  | inl met ↦ elim (Bool-cases (hostids_intersect (to_entry b) (to_entry i))) [
    | inl clash ↦ absurd (no_error (rw (met, clash) at h))
    | inr apart ↦ (
      λ _. hit-Overlap i b hi pi f.0 met apart,
      add_safe_loop-Clear i bs (result ++ pieces (to_entry b) (to_entry i)) true hi pi f.1
          (rw (met, apart) at h),
    )
  ]
]
  where
    no_error : err same_host_id ≡ ok r → ⊥
    no_error e = cc
