-- ===== src/Lvm/Names.antt =====
-- Different containers and snapshots have different logical volumes.
use apollo_controller.Prelude.{
  ℕ, ◌≡◌, ◌≢◌, inl, inr, refl, sym, ap₂, subst, ◌∙◌, false, ◌&&◌, ◌||◌, Option, none, some, [], ◌∷◌,
  ◌++◌, arith, ◌==◌, if◌then◌else◌, Bool-cases, ==_iff, ok,
}
use apollo_controller.Prelude.Text.{Bytes, contains_byte}
use apollo_controller.Container.{snapshot_delimiter, valid_name}
use apollo_controller.Container.Names.{IsHostname, last_byte, valid_name_iff}
use apollo_controller.Lvm.{replace, container_name_to_lv_name}

-- What stands for a byte, before what stands for the rest.
abbrev coded : ℕ → Bytes → Bytes
coded c rest = if c == b'-' then b'-' ∷ b'-' ∷ rest else if c == b'/' then b'-' ∷ rest else c ∷ rest

encoded : Bytes → Bytes
encoded [] = []
encoded (c ∷ s) = coded c (encoded s)

container_name_to_lv_name-encoded : (s : Bytes) → container_name_to_lv_name s ≡ encoded s
unfolding container_name_to_lv_name replace encoded
container_name_to_lv_name-encoded [] = refl
container_name_to_lv_name-encoded (c ∷ s) = ground (arith, container_name_to_lv_name-encoded s)

-- No slash stands behind a dash or a slash, the byte before being `c`.
abbrev Follows : ℕ → Bytes → Type 0
Follows c [] = Unit
Follows c (d ∷ s) = ((c == b'-' || c == b'/') && d == b'/' ≡ false) × Follows d s

-- What is coded begins with no dash too many.
no_shift : (x y : Bytes) → Follows b'-' x → Follows b'-' y → b'-' ∷ encoded x ≡ encoded y → ⊥
unfolding encoded
no_shift [] [] f g h = cc
no_shift [] (d ∷ y) f g h = ground arith
no_shift (c ∷ x) [] f g h = cc
no_shift (c ∷ x) (d ∷ y) f g h = elim (Bool-cases (c == b'-')) [
  | inl e ↦ elim (Bool-cases (d == b'-')) [
    | inl k ↦
        no_shift x y (subst (λ b. Follows b x) ((==_iff c b'-').0 e) f.1)
          (subst (λ b. Follows b y) ((==_iff d b'-').0 k) g.1) (ground (arith, e, k, h))
    | inr k ↦ ground (arith, e, k, h, g.0)
  ]
  | inr e ↦ ground (arith, e, h, f.0, g.0)
]

slash_as_dash : (s : Bytes) → Follows b'/' s → Follows b'-' s
slash_as_dash [] f = tt
slash_as_dash (d ∷ s) f = (f.0, f.1)

unequal :
    (c d : ℕ) (x y : Bytes)
    → Follows c x
    → Follows d y
    → c == d ≡ false
    → coded c (encoded x) ≡ coded d (encoded y)
    → ⊥
unequal c d x y f g n h = elim (Bool-cases (c == b'-')) [
  | inl e ↦
      no_shift x y (subst (λ b. Follows b x) ((==_iff c b'-').0 e) f)
        (slash_as_dash y (subst (λ b. Follows b y) (ground (arith, e, n, h)) g))
        (ground (arith, e, n, h))
  | inr e ↦ elim (Bool-cases (d == b'-')) [
    | inl k ↦
        no_shift y x (subst (λ b. Follows b y) ((==_iff d b'-').0 k) g)
          (slash_as_dash x (subst (λ b. Follows b x) (ground (arith, k, n, h)) f))
          (ground (arith, k, n, h))
    | inr k ↦ ground (arith, e, k, n, h)
  ]
]

encoded-injective :
    (p : ℕ) (x y : Bytes) → Follows p x → Follows p y → encoded x ≡ encoded y → x ≡ y
unfolding encoded
encoded-injective p [] [] f g h = refl
encoded-injective p [] (d ∷ y) f g h = ground arith
encoded-injective p (c ∷ x) [] f g h = ground arith
encoded-injective p (c ∷ x) (d ∷ y) f g h = elim (Bool-cases (c == d)) [
  | inl e ↦
      let q = (==_iff c d).0 e in
      let tails : encoded x ≡ encoded y = ground (arith, h, q) in
      ap₂ (λ (b : ℕ) (z : Bytes). b ∷ z) q
        (encoded-injective c x y f.1 (subst (λ b. Follows b y) (sym q) g.1) tails)
  | inr n ↦ absurd (unequal c d x y f.1 g.1 n h)
]

-- The name of a container, or of one of its snapshots.
abbrev pub full_name : Bytes → Option Bytes → Bytes
full_name container none = container
full_name container (some snapshot) = container ++ (snapshot_delimiter ∷ snapshot)

abbrev pub IsSlashless : Bytes → Type 0
IsSlashless s = contains_byte b'/' s ≡ false

abbrev pub IsSnapshot : Option Bytes → Type 0
IsSnapshot none = Unit
IsSnapshot (some s) = IsSlashless s

IsSlashless-Follows : (p : ℕ) (s : Bytes) → IsSlashless s → Follows p s
unfolding contains_byte
IsSlashless-Follows p [] h = tt
IsSlashless-Follows p (c ∷ s) h = (ground arith, IsSlashless-Follows c s (ground arith))

last-Follows :
    (p c : ℕ) (s : Bytes) (snapshot : Option Bytes)
    → IsSlashless (c ∷ s)
    → last_byte c s ≢ b'-'
    → IsSnapshot snapshot
    → Follows p (full_name (c ∷ s) snapshot)
unfolding contains_byte
last-Follows p c s none h l k = IsSlashless-Follows p (c ∷ s) h
last-Follows p c [] (some t) h l k =
    (ground arith, (ground (arith, l), IsSlashless-Follows b'/' t k))
last-Follows p c (d ∷ s) (some t) h l k =
    (ground arith, last-Follows c d s (some t) (ground arith) l k)

full_name-Follows :
    (container : Bytes) (snapshot : Option Bytes)
    → valid_name container ≡ ok tt
    → IsSnapshot snapshot
    → Follows 0 (full_name container snapshot)
full_name-Follows container snapshot v k =
    by container ((valid_name_iff container).0 v) (unfold valid_name in ground arith)
  where
    by : (s : Bytes) → IsHostname s → IsSlashless s → Follows 0 (full_name s snapshot)
    by [] h n = absurd h
    by (c ∷ s) h n = last-Follows 0 c s snapshot n h.2 k

-- No two containers or snapshots share the name of a logical volume, where the containers have valid
-- names and the snapshots' own names hold no slash.
pub container_name_to_lv_name-injective :
    (x y : Bytes) (s t : Option Bytes)
    → valid_name x ≡ ok tt
    → valid_name y ≡ ok tt
    → IsSnapshot s
    → IsSnapshot t
    → container_name_to_lv_name (full_name x s) ≡ container_name_to_lv_name (full_name y t)
    → full_name x s ≡ full_name y t
container_name_to_lv_name-injective x y s t v w k l h =
    encoded-injective 0 (full_name x s) (full_name y t) (full_name-Follows x s v k)
      (full_name-Follows y t w l)
      (sym (container_name_to_lv_name-encoded (full_name x s))
        ∙ h
        ∙ container_name_to_lv_name-encoded (full_name y t))
