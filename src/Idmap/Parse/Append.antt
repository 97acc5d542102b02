-- ===== src/Idmap/Parse/Append.antt =====
-- What `Append` of shared/idmapset_linux.go adds to a set.
use apollo_controller.Prelude.{
  ◌<◌, ◌≡◌, ◌⊎◌, inl, inr, subst, false, List, [], ◌∷◌, ◌++◌, arith, ◌==◌, Bool-cases, All, ok,
  >>=-eq-ok,
}
use apollo_controller.Prelude.Text.{Bytes, split}
use apollo_controller.Idmap.{IdmapSet, set_intersects}
use apollo_controller.Idmap.Block.{Block, to_entry, entries, SameKind, IsSmall}
use apollo_controller.Idmap.Overlap.{Noticed, intersects_iff}
use apollo_controller.Idmap.Parse.{parse, empty_entry, append}
use apollo_controller.Idmap.Parse.Sound.{Accepted-IsSmall, parse_sound}

-- Entries of one kind whose overlap, if any, is one that the test does not notice.
abbrev pub Apart : Block → Block → Type 0
Apart b c =
    ¬ (SameKind b c × (Noticed b.host b.size c.host c.size ⊎ Noticed b.ns b.size c.ns c.size))

set_intersects-All :
    (bs : List Block) (b : Block)
    → All IsSmall bs
    → All (λ c. 0 < c.size) bs
    → IsSmall b
    → 0 < b.size
    → set_intersects (entries bs) (to_entry b) ≡ false
    → All (Apart b) bs
unfolding set_intersects
set_intersects-All [] b s p sb pb h = tt
set_intersects-All (c ∷ bs) b s p sb pb h = (
  λ n. ground (arith, (intersects_iff b c sb s.0 pb p.0).1 n),
  set_intersects-All bs b s.1 p.1 sb pb (ground arith),
)

disjoint_or_empty :
    (bs : List Block) (b : Block)
    → All IsSmall bs
    → All (λ c. 0 < c.size) bs
    → IsSmall b
    → set_intersects (entries bs) (to_entry b) ≡ false
    → (b.size ≡ 0) ⊎ All (Apart b) bs
disjoint_or_empty bs b s p sb h = elim (Bool-cases (b.size == 0)) [
  | inl e ↦ inl (ground arith)
  | inr e ↦ inr (set_intersects-All bs b s p sb (ground arith) h)
]

-- `Append` succeeds only by adding one entry behind the others, of 32-bit numbers, which meets no
-- earlier entry of its kind but in a single last id, unless it is empty. The earlier entries hold
-- 32-bit numbers and at least one id each.
pub append_sound :
    (bs : List Block) (s : Bytes) {m : IdmapSet}
    → All IsSmall bs
    → All (λ c. 0 < c.size) bs
    → append (entries bs) s ≡ ok m
    → (b : Block) × (m ≡ entries bs ++ (to_entry b ∷ []))
      × IsSmall b
      × ((b.size ≡ 0) ⊎ All (Apart b) bs)
unfolding append
append_sound bs s {m} sm po h =
    let (e, p, rest) = >>=-eq-ok (parse empty_entry s) _ h in
    let (b, same, a) = parse_sound s p in
    let small = Accepted-IsSmall (split b':' s) b a in
    elim (Bool-cases (set_intersects (entries bs) e)) [
      | inl clash ↦ ground arith
      | inr apart ↦ (
        b,
        ground arith,
        small,
        disjoint_or_empty bs b sm po small
            (subst (λ x. set_intersects (entries bs) x ≡ false) same apart),
      )
    ]
