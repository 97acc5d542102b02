-- ===== src/Idmap/Ranges/Cover.antt =====
-- Which ids the ranges of `ValidRanges` (shared/idmapset_linux.go) hold, and what `Usable` means.
use apollo_controller.Prelude.{
  ℕ, ◌+◌, ◌-◌, ◌^◌, ◌≤◌, ◌<◌, ◌≡◌, inl, inr, refl, ap, ◌∙◌, Bool, true, false, ◌&&◌, ◌||◌, Option,
  none, some, List, [], ◌∷◌, map, arith, ltb, leb, ◌==◌, if◌then◌else◌, bool_eq, Bool-cases, All,
}
use apollo_controller.Prelude.Int.{pos, +ℤ_pos, -ℤ_pos}
use apollo_controller.Idmap.{IdRange, IdmapEntry}
use apollo_controller.Idmap.Block.{Block, to_entry, IsSmall}
use apollo_controller.Idmap.Ranges.{behind, or_new, extend_range, new_range}

-- A range of non-negative ids that holds at least one.
pub record Span : Type 0 where
  pub uid : Bool
  pub gid : Bool
  pub start : ℕ
  pub last : ℕ

abbrev pub to_range : Span → IdRange
to_range r = record { isuid = r.uid; isgid = r.gid; startid = pos r.start; endid = pos r.last }

abbrev pub Ordered : Span → Type 0
Ordered r = (r.start ≤ r.last) × (r.last < 2 ^ 33)

abbrev pub span_of : Block → Span
span_of b = record { uid = b.uid; gid = b.gid; start = b.ns; last = b.ns + b.size - 1 }

pub continues : Block → Span → Bool
continues b r = bool_eq b.uid r.uid && bool_eq b.gid r.gid && r.last + 1 == b.ns

-- The spans after one round of the loop.
abbrev pub add_span : List Span → Block → List Span
add_span [] b = span_of b ∷ []
add_span (r ∷ rs) b =
    if continues b r then record r { last = r.last + b.size } ∷ rs else r ∷ add_span rs b

new_range-span_of :
    (b : Block) → IsSmall b → 0 < b.size → new_range (to_entry b) ≡ to_range (span_of b)
unfolding new_range
new_range-span_of b s p =
    rw (+ℤ_pos b.ns b.size (omega arith), -ℤ_pos (b.ns + b.size) 1 (omega arith) (omega arith)) refl

pub or_new-behind :
    (o : Option (List IdRange)) (r : IdRange) (rs : List IdRange) (e : IdmapEntry)
    → or_new (behind r o) (r ∷ rs) e ≡ r ∷ or_new o rs e
or_new-behind none r rs e = refl
or_new-behind (some ts) r rs e = refl

extend_range-continues :
    (r : Span) (rs : List IdRange) (b : Block)
    → Ordered r
    → IsSmall b
    → extend_range (to_range r ∷ rs) (to_entry b) ≡ (
        if continues b r
        then some (to_range (record r { last = r.last + b.size }) ∷ rs)
        else behind (to_range r) (extend_range rs (to_entry b)))
unfolding extend_range continues
extend_range-continues r rs b o s =
    rw (+ℤ_pos r.last 1 (omega arith), +ℤ_pos r.last b.size (omega arith)) refl

pub or_new-add_span :
    (rs : List Span) (b : Block)
    → All Ordered rs
    → IsSmall b
    → 0 < b.size
    → or_new (extend_range (map to_range rs) (to_entry b)) (map to_range rs) (to_entry b)
      ≡ map to_range (add_span rs b)
or_new-add_span [] b o s q = unfold extend_range in ap (λ r. r ∷ []) (new_range-span_of b s q)
or_new-add_span (r ∷ rs) b o s q =
    rw (extend_range-continues r (map to_range rs) b o.0 s) (elim (Bool-cases (continues b r)) [
      | inl e ↦ rw e refl
      | inr e ↦ rw e (
          or_new-behind (extend_range (map to_range rs) (to_entry b)) (to_range r) (map to_range rs)
            (to_entry b)
          ∙ ap (◌∷◌ (to_range r)) (or_new-add_span rs b o.1 s q))
    ])

-- Some range, or some entry, of a kind that `p` selects holds the id.
abbrev pub holds : Span → ℕ → Bool
holds r id = leb r.start id && leb id r.last

abbrev pub has_ns : Block → ℕ → Bool
has_ns b id = leb b.ns id && ltb id (b.ns + b.size)

abbrev pub covered : (Bool → Bool → Bool) → List Span → ℕ → Bool
covered p [] id = false
covered p (r ∷ rs) id = (p r.uid r.gid && holds r id) || covered p rs id

abbrev pub mapped : (Bool → Bool → Bool) → List Block → ℕ → Bool
mapped p [] id = false
mapped p (b ∷ bs) id = (p b.uid b.gid && has_ns b id) || mapped p bs id

continues-same :
    (p : Bool → Bool → Bool) (r : Span) (b : Block)
    → continues b r ≡ true
    → (p r.uid r.gid ≡ p b.uid b.gid) × (r.last + 1 ≡ b.ns)
unfolding continues
continues-same p r b e = (ground arith, ground arith)

pub or_left_comm : (x y z : Bool) → (x || (y || z)) ≡ (y || (x || z))
or_left_comm true true z = refl
or_left_comm true false z = refl
or_left_comm false y z = refl

or_assoc : (x y z : Bool) → ((x || y) || z) ≡ (x || (y || z))
or_assoc true y z = refl
or_assoc false y z = refl

grown :
    (s : Bool) (r : Span) (b : Block) (id : ℕ)
    → r.start ≤ r.last
    → 0 < b.size
    → r.last + 1 ≡ b.ns
    → (s && holds (record r { last = r.last + b.size }) id)
      ≡ ((s && has_ns b id) || (s && holds r id))
grown false r b id o q e = refl
grown true r b id o q e = ground arith

fresh : (b : Block) (id : ℕ) → 0 < b.size → holds (span_of b) id ≡ has_ns b id
fresh b id q = ground arith

pub add_span-covered :
    (p : Bool → Bool → Bool) (rs : List Span) (b : Block) (id : ℕ)
    → All Ordered rs
    → 0 < b.size
    → covered p (add_span rs b) id ≡ ((p b.uid b.gid && has_ns b id) || covered p rs id)
add_span-covered p [] b id o q = ap (λ x. (p b.uid b.gid && x) || false) (fresh b id q)
add_span-covered p (r ∷ rs) b id o q = elim (Bool-cases (continues b r)) [
  | inl e ↦
      let (kind, next) = continues-same p r b e in
      rw e (
        ap (λ x. x || covered p rs id) (grown (p r.uid r.gid) r b id o.0.0 q next)
        ∙ or_assoc (p r.uid r.gid && has_ns b id) (p r.uid r.gid && holds r id) (covered p rs id)
        ∙ ap (λ k. (k && has_ns b id) || (p r.uid r.gid && holds r id || covered p rs id)) kind)
  | inr e ↦ rw e (
      ap (◌||◌ (p r.uid r.gid && holds r id)) (add_span-covered p rs b id o.1 q)
      ∙ or_left_comm (p r.uid r.gid && holds r id) (p b.uid b.gid && has_ns b id) (covered p rs id))
]

pub add_span-Ordered :
    (rs : List Span) (b : Block)
    → All Ordered rs
    → IsSmall b
    → 0 < b.size
    → All Ordered (add_span rs b)
add_span-Ordered [] b o s q = ground arith
add_span-Ordered (r ∷ rs) b o s q = elim (Bool-cases (continues b r)) [
  | inl e ↦ let (kind, next) = continues-same (λ u g. u) r b e in rw e (ground arith)
  | inr e ↦ rw e (o.0, add_span-Ordered rs b o.1 s q)
]
