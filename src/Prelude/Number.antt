-- ===== src/Prelude/Number.antt =====
-- Package strconv: decimal numbers out of text.
use apollo_controller.Prelude.{
  ℕ, zero, suc, ◌+◌, ◌-◌, ◌*◌, ◌^◌, ◌<◌, ◌≡◌, ◌||◌, [], ◌∷◌, Option, none, some, arith, ltb, ◌==◌,
  if◌then◌else◌,
}
use apollo_controller.Prelude.Int.{ℤ, pos, negsuc}
use apollo_controller.Prelude.Text.{Bytes}

-- The digits of `s` behind the number `n`; `none` at a byte that is no digit.
unfoldable pub scan_digits : Bytes → ℕ → Option ℕ
scan_digits [] n = some n
scan_digits (c ∷ s) n =
    if ltb c b'0' || ltb b'9' c then none else scan_digits s (n * 10 + (c - b'0'))

abbrev pub below : ℕ → Option ℕ → Option ℕ
below limit none = none
below limit (some n) = if ltb n limit then some n else none

-- `strconv.ParseUint(s, 10, bits)`; `none` is an error of syntax or of range.
unfoldable pub parse_uint : Bytes → ℕ → Option ℕ
unfolding scan_digits
parse_uint [] bits = none
parse_uint (c ∷ s) bits = below (2 ^ bits) (scan_digits (c ∷ s) 0)

abbrev pub positive : Option ℕ → Option ℤ
positive none = none
positive (some n) = if ltb n (2 ^ 63) then some (pos n) else none

abbrev pub negative : Option ℕ → Option ℤ
negative none = none
negative (some zero) = some (pos 0)
negative (some (suc n)) = if ltb n (2 ^ 63) then some (negsuc n) else none

-- `strconv.ParseInt(s, 10, 64)`, and `strconv.Atoi` where an int has 64 bits.
unfoldable pub parse_int : Bytes → Option ℤ
unfolding parse_uint
parse_int [] = none
parse_int (c ∷ s) =
    if c == b'-'
    then negative (parse_uint s 64)
    else if c == b'+'
    then positive (parse_uint s 64)
    else positive (parse_uint (c ∷ s) 64)

pub parse_uint-lt : (s : Bytes) (bits : ℕ) {n : ℕ} → parse_uint s bits ≡ some n → n < 2 ^ bits
unfolding parse_uint
parse_uint-lt [] bits h = ground arith
parse_uint-lt (c ∷ s) bits {n} h = below_lt (2 ^ bits) (scan_digits (c ∷ s) 0) h
  where
    below_lt : (limit : ℕ) (o : Option ℕ) → below limit o ≡ some n → n < limit
    below_lt limit none e = ground arith
    below_lt limit (some m) e = ground arith
