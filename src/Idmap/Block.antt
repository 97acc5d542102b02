-- ===== src/Idmap/Block.antt =====
-- An idmap entry of 32-bit ids, as every parsed entry is: the independent view in which the
-- theorems about package shared's idmap code are stated.
use apollo_controller.Prelude.{
  ◌++◌, refl, All, ℕ, ◌+◌, ◌-◌, ◌<◌, ◌^◌, ◌≡◌, ◌⊎◌, Bool, true, List, [], ◌∷◌, map, Option, none,
  some, arith, ltb, leb, ◌&&◌, if◌then◌else◌,
}
use apollo_controller.Prelude.Int.{pos}
use apollo_controller.Idmap.{IdmapEntry, IdmapSet}

pub record Block : Type 0 where
  pub uid : Bool
  pub gid : Bool
  pub host : ℕ
  pub ns : ℕ
  pub size : ℕ

abbrev pub to_entry : Block → IdmapEntry
to_entry b = record {
  isuid = b.uid;
  isgid = b.gid;
  hostid = pos b.host;
  nsid = pos b.ns;
  maprange = pos b.size;
}

abbrev pub entries : List Block → IdmapSet
entries = map to_entry

pub record IsSmall (b : Block) : Type 0 where
  pub host_small : b.host < 2 ^ 32
  pub ns_small : b.ns < 2 ^ 32
  pub size_small : b.size < 2 ^ 32

-- Both entries map uids, or both map gids.
abbrev pub SameKind : Block → Block → Type 0
SameKind a b = ((a.uid ≡ true) × (b.uid ≡ true)) ⊎ ((a.gid ≡ true) × (b.gid ≡ true))

-- Which of its two flags says that an entry maps ids of this kind.
pub data Kind : Type 0 where
  uids gids : Kind

abbrev pub of_kind : Kind → Block → Bool
of_kind uids b = b.uid
of_kind gids b = b.gid

-- The runs of `r` ids from `a` and of `s` ids from `b` have an id in common.
abbrev pub Overlap : ℕ → ℕ → ℕ → ℕ → Type 0
Overlap a r b s = (0 < r) × (0 < s) × (a < b + s) × (b < a + r)

-- Where an entry sends an id of the container, and an id of the host.
abbrev pub into : Block → ℕ → Option ℕ
into b id = if leb b.ns id && ltb id (b.ns + b.size) then some (id - b.ns + b.host) else none

abbrev pub outof : Block → ℕ → Option ℕ
outof b id = if leb b.host id && ltb id (b.host + b.size) then some (id - b.host + b.ns) else none

-- What the first entry that `P` selects and that applies makes of an id.
abbrev pub look : (Block → Bool) → (Block → ℕ → Option ℕ) → List Block → ℕ → Option ℕ
look P f [] id = none
look P f (b ∷ bs) id =
    if P b then elim (f b id) [ none ↦ look P f bs id | some x ↦ some x ] else look P f bs id

-- No two of the entries that `P` selects share a host id.
abbrev pub Disjoint : (Block → Bool) → List Block → Type 0
Disjoint P [] = Unit
Disjoint P (b ∷ bs) =
    All (λ c. P b ≡ true → P c ≡ true → ¬ Overlap b.host b.size c.host c.size) bs × Disjoint P bs

-- What is found stays; what is not yet found is looked for.
abbrev pub or_look : Option ℕ → Option ℕ → Option ℕ
or_look none o = o
or_look (some x) o = some x

pub look-append :
    (P : Block → Bool) (f : Block → ℕ → Option ℕ) (xs ys : List Block) (id : ℕ)
    → look P f (xs ++ ys) id ≡ or_look (look P f xs id) (look P f ys id)
look-append P f [] ys id = refl
look-append P f (b ∷ xs) ys id = ground (arith, look-append P f xs ys id)
