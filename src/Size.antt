-- ===== src/Size.antt =====
-- shared/util.go: sizes such as 200kB and 5Gbit.
pub mod Exact
use apollo_controller.Prelude.{
  ℕ, zero, suc, ◌+◌, ◌-◌, ◌*◌, ◌/◌, ◌%◌, ◌^◌, ◌≤◌, ◌<◌, ◌≡◌, ◌≢◌, ◌↔◌, ◌⊎◌, inl, inr, refl, sym, ap,
  ap₂, subst, ◌∙◌, Bool, true, false, not, ◌&&◌, ◌||◌, Option, none, some, List, [], ◌∷◌, ◌++◌, map,
  append_assoc, append-nil, arith, ltb, leb, ◌==◌, if◌then◌else◌, bool_eq, Bool-cases, Option-cases,
  ==_iff, length, take, drop, length-append, All, All-append, Result, ok, err, ◌>>=◌, ◌>>◌, guard,
  or_fail, >>=-eq-ok, ok-injective,
}
use apollo_controller.Prelude.Int.{ℤ, pos, negsuc, ltb_ℤ, ◌+ℤ◌, wrap64}
use apollo_controller.Prelude.Text.{Bytes, codes, bytes_eq, has_suffix}
use apollo_controller.Prelude.Number.{parse_int}

pub data Error : Type 0 where
  invalid_value invalid_integer unsupported_suffix : Error

abbrev pub is_digit : ℕ → Bool
is_digit c = leb b'0' c && leb c b'9'

-- The byte `n` places before the end; 0 where there is none.
unfoldable pub from_end : ℕ → Bytes → ℕ
from_end n [] = 0
from_end n (c ∷ s) = let rest = from_end n s in if length s == n then c else rest

-- How long the suffix is. `unicode.IsNumber` of a byte is true of the digits and of six more codes
-- of Latin-1 (178, 179, 185, 188, 189, 190).
unfoldable pub is_number : ℕ → Bool
is_number c =
    is_digit c || (c == 178 || (c == 179 || (c == 185 || (c == 188 || (c == 189 || c == 190)))))

unfoldable pub suffix_len : Bytes → Result Error ℕ
suffix_len input =
    if is_number (from_end 0 input)
    then ok 0
    else if leb 2 (length input) && (from_end 0 input == b'B' && is_number (from_end 1 input))
    then ok 1
    else if has_suffix input (codes " bytes")
    then ok 6
    else if ltb (length input) 3
    then err invalid_value
    else ok 2

unfoldable pub multiplicator : Bytes → Option ℕ
multiplicator suffix =
    if bytes_eq suffix (codes "kB")
    then some (1024 ^ 1)
    else if bytes_eq suffix (codes "MB")
    then some (1024 ^ 2)
    else if bytes_eq suffix (codes "GB")
    then some (1024 ^ 3)
    else if bytes_eq suffix (codes "TB")
    then some (1024 ^ 4)
    else if bytes_eq suffix (codes "PB")
    then some (1024 ^ 5)
    else if bytes_eq suffix (codes "EB")
    then some (1024 ^ 6)
    else none

-- A number that must not be negative.
abbrev pub natural : ℤ → Result Error ℕ
natural (pos n) = ok n
natural (negsuc n) = err invalid_value

-- `valueInt * multiplicator` in int64.
unfoldable pub times : ℕ → ℕ → ℤ
times n m = wrap64 (pos (n * m))

abbrev pub scaled : ℕ → Option ℕ → Result Error ℤ
scaled n none = err unsupported_suffix
scaled n (some m) = ok (times n m)

unfoldable pub parse_byte_size_string : Bytes → Result Error ℤ
parse_byte_size_string [] = ok (pos 0)
parse_byte_size_string (c ∷ s) = do
  len ← suffix_len (c ∷ s)
  let cut = length (c ∷ s) - len
  value_int ← or_fail (parse_int (take cut (c ∷ s))) invalid_integer
  n ← natural value_int
  if len == 2 then scaled n (multiplicator (drop cut (c ∷ s))) else ok (pos n)

unfoldable pub bit_multiplicator : Bytes → Option ℕ
bit_multiplicator suffix =
    if bytes_eq suffix (codes "kbit")
    then some (1000 ^ 1)
    else if bytes_eq suffix (codes "Mbit")
    then some (1000 ^ 2)
    else if bytes_eq suffix (codes "Gbit")
    then some (1000 ^ 3)
    else if bytes_eq suffix (codes "Tbit")
    then some (1000 ^ 4)
    else if bytes_eq suffix (codes "Pbit")
    then some (1000 ^ 5)
    else if bytes_eq suffix (codes "Ebit")
    then some (1000 ^ 6)
    else none

unfoldable pub parse_bit_size_string : Bytes → Result Error ℤ
parse_bit_size_string [] = ok (pos 0)
parse_bit_size_string (c ∷ s) = do
  guard (not (ltb (length (c ∷ s)) 5)) invalid_value
  let cut = length (c ∷ s) - 4
  value_int ← or_fail (parse_int (take cut (c ∷ s))) invalid_integer
  n ← natural value_int
  scaled n (bit_multiplicator (drop cut (c ∷ s)))
