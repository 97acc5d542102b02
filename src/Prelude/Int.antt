-- ===== src/Prelude/Int.antt =====
-- Go's int64: integers over the native numbers, with the wrap-around of each operation.
use apollo_controller.Prelude.{
  true, false, ℕ, suc, ◌+◌, ◌-◌, ◌%◌, ◌≤◌, ◌<◌, ◌^◌, ◌≡◌, refl, Bool, arith, ltb, leb, ◌==◌,
  if◌then◌else◌,
}

-- `negsuc n` is -(n + 1).
pub data ℤ : Type 0 where
  pos : ℕ → ℤ
  negsuc : ℕ → ℤ

abbrev pub pos_part : ℤ → ℕ
pos_part (pos n) = n
pos_part (negsuc n) = 0

abbrev pub neg_part : ℤ → ℕ
neg_part (pos n) = 0
neg_part (negsuc n) = suc n

-- a - b, as an integer.
abbrev pub sub_ℕ : ℕ → ℕ → ℤ
sub_ℕ a b = if leb b a then pos (a - b) else negsuc (b - a - 1)

-- The two's complement reading of an integer in 64 bits.
unfoldable pub wrap64 : ℤ → ℤ
wrap64 (pos n) = let m = n % 2 ^ 64 in if ltb m (2 ^ 63) then pos m else negsuc (2 ^ 64 - m - 1)
wrap64 (negsuc n) = let m = n % 2 ^ 64 in if ltb m (2 ^ 63) then negsuc m else pos (2 ^ 64 - m - 1)

infixl 65 ◌+ℤ◌ ◌-ℤ◌
infix 50 ◌≤ℤ◌
-- int64 addition and subtraction.
unfoldable pub ◌+ℤ◌ : ℤ → ℤ → ℤ
a +ℤ b = wrap64 (sub_ℕ (pos_part a + pos_part b) (neg_part a + neg_part b))

unfoldable pub ◌-ℤ◌ : ℤ → ℤ → ℤ
a -ℤ b = wrap64 (sub_ℕ (pos_part a + neg_part b) (neg_part a + pos_part b))

abbrev pub ◌≤ℤ◌ : ℤ → ℤ → Type 0
a ≤ℤ b = pos_part a + neg_part b ≤ pos_part b + neg_part a

abbrev pub ltb_ℤ : ℤ → ℤ → Bool
ltb_ℤ (pos a) (pos b) = ltb a b
ltb_ℤ (pos a) (negsuc b) = false
ltb_ℤ (negsuc a) (pos b) = true
ltb_ℤ (negsuc a) (negsuc b) = ltb b a

abbrev pub leb_ℤ : ℤ → ℤ → Bool
leb_ℤ (pos a) (pos b) = leb a b
leb_ℤ (pos a) (negsuc b) = false
leb_ℤ (negsuc a) (pos b) = true
leb_ℤ (negsuc a) (negsuc b) = leb b a

abbrev pub eq_ℤ : ℤ → ℤ → Bool
eq_ℤ (pos a) (pos b) = a == b
eq_ℤ (pos a) (negsuc b) = false
eq_ℤ (negsuc a) (pos b) = false
eq_ℤ (negsuc a) (negsuc b) = a == b

-- Below 2 ^ 63 the operations are those of the integers.
pub +ℤ_pos : (a b : ℕ) → a + b < 2 ^ 63 → pos a +ℤ pos b ≡ pos (a + b)
unfolding ◌+ℤ◌ wrap64
+ℤ_pos a b h = ground arith

pub -ℤ_pos : (a b : ℕ) → b ≤ a → a < 2 ^ 63 → pos a -ℤ pos b ≡ pos (a - b)
unfolding ◌-ℤ◌ wrap64
-ℤ_pos a b h k = ground arith

-- While the parts stay below 2 ^ 63, also where a sum or a difference is negative.
pub wrap64-sub_ℕ : (a b : ℕ) → a < 2 ^ 63 → b < 2 ^ 63 → wrap64 (sub_ℕ a b) ≡ sub_ℕ a b
unfolding wrap64
wrap64-sub_ℕ a b h k = ground arith

pub +ℤ_small :
    (a b : ℤ)
    → pos_part a + pos_part b < 2 ^ 63
    → neg_part a + neg_part b < 2 ^ 63
    → a +ℤ b ≡ sub_ℕ (pos_part a + pos_part b) (neg_part a + neg_part b)
unfolding ◌+ℤ◌
+ℤ_small a b h k = wrap64-sub_ℕ _ _ h k

pub -ℤ_small :
    (a b : ℤ)
    → pos_part a + neg_part b < 2 ^ 63
    → neg_part a + pos_part b < 2 ^ 63
    → a -ℤ b ≡ sub_ℕ (pos_part a + neg_part b) (neg_part a + pos_part b)
unfolding ◌-ℤ◌
-ℤ_small a b h k = wrap64-sub_ℕ _ _ h k

-- Differences of small numbers, added and subtracted.
pub -ℤ_pos_pos : (a b : ℕ) → a < 2 ^ 60 → b < 2 ^ 60 → pos a -ℤ pos b ≡ sub_ℕ a b
-ℤ_pos_pos a b h k = ground (arith, -ℤ_small (pos a) (pos b))

pub +ℤ_sub_ℕ :
    (a x y : ℕ) → a < 2 ^ 60 → x < 2 ^ 60 → y < 2 ^ 60 → pos a +ℤ sub_ℕ x y ≡ sub_ℕ (a + x) y
+ℤ_sub_ℕ a x y h k l = ground (arith, +ℤ_small (pos a) (sub_ℕ x y))

pub sub_ℕ_+ℤ :
    (x y a : ℕ) → x < 2 ^ 60 → y < 2 ^ 60 → a < 2 ^ 60 → sub_ℕ x y +ℤ pos a ≡ sub_ℕ (x + a) y
sub_ℕ_+ℤ x y a h k l = ground (arith, +ℤ_small (sub_ℕ x y) (pos a))

pub sub_ℕ_-ℤ :
    (a b x y : ℕ)
    → a < 2 ^ 60
    → b < 2 ^ 60
    → x < 2 ^ 60
    → y < 2 ^ 60
    → sub_ℕ a b -ℤ sub_ℕ x y ≡ sub_ℕ (a + y) (b + x)
sub_ℕ_-ℤ a b x y h k l m = ground (arith, -ℤ_small (sub_ℕ a b) (sub_ℕ x y))

wraps_over : pos (2 ^ 63 - 1) +ℤ pos 1 ≡ negsuc (2 ^ 63 - 1)
unfolding ◌+ℤ◌ wrap64
wraps_over = refl
