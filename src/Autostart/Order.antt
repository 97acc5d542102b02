-- ===== src/Autostart/Order.antt =====
-- What kind of order `less` is.
use apollo_controller.Prelude.{
  ◌≡◌, ◌≢◌, ◌↔◌, ◌⊎◌, inl, inr, refl, Bool, true, false, not, ◌&&◌, ◌||◌, [], ◌∷◌, arith,
  Bool-cases,
}
use apollo_controller.Prelude.Int.{ℤ, pos, negsuc, ltb_ℤ}
use apollo_controller.Prelude.Text.{Bytes, bytes_eq, bytes_eq_iff, bytes_eq→eq}
use apollo_controller.Autostart.{Container, atoi, bytes_lt, order_of, less_by, less}

bytes_lt_irrefl : (s : Bytes) → bytes_lt s s ≡ false
unfolding bytes_lt
bytes_lt_irrefl [] = refl
bytes_lt_irrefl (a ∷ s) = ground (arith, bytes_lt_irrefl s)

bytes_lt_trans : (s t u : Bytes) → bytes_lt s t ≡ true → bytes_lt t u ≡ true → bytes_lt s u ≡ true
unfolding bytes_lt
bytes_lt_trans s t [] h k = ground arith
bytes_lt_trans s [] (c ∷ u) h k = ground arith
bytes_lt_trans [] (b ∷ t) (c ∷ u) h k = refl
bytes_lt_trans (a ∷ s) (b ∷ t) (c ∷ u) h k = ground (arith, bytes_lt_trans s t u)

bytes_lt_connected : (s t : Bytes) → bytes_lt s t ≡ false → bytes_lt t s ≡ false → s ≡ t
unfolding bytes_lt
bytes_lt_connected [] [] h k = refl
bytes_lt_connected [] (b ∷ t) h k = ground arith
bytes_lt_connected (a ∷ s) [] h k = ground arith
bytes_lt_connected (a ∷ s) (b ∷ t) h k = ground (arith, bytes_lt_connected s t)

ltb_ℤ-irrefl : (z : ℤ) → ltb_ℤ z z ≡ false
ltb_ℤ-irrefl (pos n) = ground arith
ltb_ℤ-irrefl (negsuc n) = ground arith

ltb_ℤ-trans : (x y z : ℤ) → ltb_ℤ x y ≡ true → ltb_ℤ y z ≡ true → ltb_ℤ x z ≡ true
ltb_ℤ-trans (pos a) (pos b) (pos c) h k = ground arith
ltb_ℤ-trans (negsuc a) (pos b) (pos c) h k = ground arith
ltb_ℤ-trans (negsuc a) (negsuc b) (pos c) h k = ground arith
ltb_ℤ-trans (negsuc a) (negsuc b) (negsuc c) h k = ground arith
ltb_ℤ-trans (pos a) (negsuc b) z h k = ground arith
ltb_ℤ-trans (pos a) (pos b) (negsuc c) h k = ground arith
ltb_ℤ-trans (negsuc a) (pos b) (negsuc c) h k = ground arith

ltb_ℤ-connected : (x y : ℤ) → ltb_ℤ x y ≡ false → ltb_ℤ y x ≡ false → x ≡ y
ltb_ℤ-connected (pos a) (pos b) h k = ground arith
ltb_ℤ-connected (pos a) (negsuc b) h k = ground arith
ltb_ℤ-connected (negsuc a) (pos b) h k = ground arith
ltb_ℤ-connected (negsuc a) (negsuc b) h k = ground arith

trans :
    (o n p m q l : Bytes)
    → not (less_by (o, n) (p, m) && less_by (p, m) (q, l)) || less_by (o, n) (q, l) ≡ true
trans o n p m q l = ground (
  arith,
  bytes_eq_iff o p,
  bytes_eq_iff p q,
  bytes_eq_iff o q,
  ltb_ℤ-trans (atoi q) (atoi p) (atoi o),
  ltb_ℤ-irrefl (atoi o),
  bytes_lt_trans n m l,
)

-- Neither is less than the other.
abbrev pub Tied : Bool → Bool → Type 0
Tied x y = (x ≡ false) × (y ≡ false)

tied :
    (o n p m : Bytes)
    → Tied (less_by (o, n) (p, m)) (less_by (p, m) (o, n))
    → ((n ≡ m) × (o ≡ p)) ⊎ ((o ≢ p) × (atoi o ≡ atoi p))
tied o n p m h = elim (Bool-cases (bytes_eq o p)) [
  | inl e ↦ inl (
    ground (arith, e, bytes_eq_iff o p, bytes_eq_iff p o, bytes_lt_connected n m, h),
    bytes_eq→eq o p e,
  )
  | inr e ↦ inr (
    λ q. ground (arith, e, bytes_eq_iff o p, q),
    ground (arith, e, bytes_eq_iff o p, bytes_eq_iff p o, ltb_ℤ-connected (atoi o) (atoi p), h),
  )
]

untied :
    (o n p m : Bytes)
    → ((n ≡ m) × (o ≡ p)) ⊎ ((o ≢ p) × (atoi o ≡ atoi p))
    → Tied (less_by (o, n) (p, m)) (less_by (p, m) (o, n))
untied o n p m (inl (e, f)) =
    ground (arith, bytes_eq_iff o p, bytes_eq_iff p o, bytes_lt_irrefl n, e, f)
untied o n p m (inr (e, f)) =
    ground (arith, bytes_eq_iff o p, bytes_eq_iff p o, ltb_ℤ-irrefl (atoi o), e, f)

-- `less` is a strict order, but two containers with different names are tied exactly where their
-- priorities are written differently and are the same number, as no priority and a priority of 0
-- are: their names do not count then.
pub less_order :
    (a b c : Container)
    → (less a a ≡ false)
      × (not (less a b && less b c) || less a c ≡ true)
      × (Tied (less a b) (less b a) ↔ (
          ((a.name ≡ b.name) × (order_of a ≡ order_of b))
          ⊎ ((order_of a ≢ order_of b) × (atoi (order_of a) ≡ atoi (order_of b)))))
unfolding less
less_order a b c = (
  (untied (order_of a) a.name (order_of a) a.name (inl (refl, refl))).0,
  trans (order_of a) a.name (order_of b) b.name (order_of c) c.name,
  (tied (order_of a) a.name (order_of b) b.name, untied (order_of a) a.name (order_of b) b.name),
)
