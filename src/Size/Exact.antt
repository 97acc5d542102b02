-- ===== src/Size/Exact.antt =====
-- What `ParseByteSizeString` and `ParseBitSizeString` of shared/util.go return.
use apollo_controller.Prelude.{
  ℕ, zero, suc, ◌-◌, ◌*◌, ◌^◌, ◌≤◌, ◌<◌, ◌≡◌, ◌≢◌, inl, inr, refl, sym, ap, ◌∙◌, Bool, true, false,
  ◌&&◌, some, [], ◌∷◌, ◌++◌, arith, ltb, leb, ◌==◌, Bool-cases, length, drop, length-append,
  take-length-append, drop-length-append, ok,
}
use apollo_controller.Prelude.Int.{pos, negsuc, wrap64}
use apollo_controller.Prelude.Text.{Bytes, codes, bytes_eq, has_suffix, bytes_eq→eq}
use apollo_controller.Prelude.Number.{parse_int}
use apollo_controller.Size.{
  from_end, suffix_len, is_number, multiplicator, scaled, times, parse_byte_size_string,
  bit_multiplicator, parse_bit_size_string,
}

pub data SizeUnit : Type 0 where
  kilo mega giga tera peta exa : SizeUnit

abbrev pub letter : SizeUnit → ℕ
letter kilo = b'k'
letter mega = b'M'
letter giga = b'G'
letter tera = b'T'
letter peta = b'P'
letter exa = b'E'

abbrev pub rank : SizeUnit → ℕ
rank kilo = 1
rank mega = 2
rank giga = 3
rank tera = 4
rank peta = 5
rank exa = 6

from_end_last : (s : Bytes) (x y : ℕ) → from_end 0 (s ++ (x ∷ y ∷ [])) ≡ y
unfolding from_end
from_end_last [] x y = refl
from_end_last (c ∷ s) x y = ground (arith, from_end_last s x y, length-append s (x ∷ y ∷ []))

from_end_second : (s : Bytes) (x y : ℕ) → from_end 1 (s ++ (x ∷ y ∷ [])) ≡ x
unfolding from_end
from_end_second [] x y = refl
from_end_second (c ∷ s) x y = ground (arith, from_end_second s x y, length-append s (x ∷ y ∷ []))

from_end-drop :
    (k : ℕ) (s : Bytes) (x y : ℕ) → k ≤ length s → from_end 0 (drop k (s ++ (x ∷ y ∷ []))) ≡ y
from_end-drop zero s x y h = from_end_last s x y
from_end-drop (suc k) [] x y h = elim h [ ]
from_end-drop (suc k) (c ∷ s) x y h = from_end-drop k s x y (omega arith)

not_bytes :
    (s : Bytes) (x y : ℕ) → y ≢ b's' → has_suffix (s ++ (x ∷ y ∷ [])) (codes " bytes") ≡ false
unfolding has_suffix
not_bytes s x y h = elim (Bool-cases (tests s)) [ inl e ↦ absurd (h (last_s e)) | inr e ↦ e ]
  where
    tail : Bytes → Bytes
    tail t = drop (length (t ++ (x ∷ y ∷ [])) - 6) (t ++ (x ∷ y ∷ []))

    tests : Bytes → Bool
    tests t = leb 6 (length (t ++ (x ∷ y ∷ []))) && bytes_eq (tail t) (codes " bytes")

    last_s : tests s ≡ true → y ≡ b's'
    last_s e =
        sym (
          from_end-drop (length (s ++ (x ∷ y ∷ [])) - 6) s x y
            (omega (arith, length-append s (x ∷ y ∷ []))))
        ∙ ap (from_end 0) (bytes_eq→eq (tail s) (codes " bytes") (ground arith))
        ∙ (unfold from_end in refl)

suffix_len-two :
    (s : Bytes) (x y : ℕ)
    → 0 < length s
    → is_number y ≡ false
    → y ≢ b's'
    → (y == b'B' && is_number x) ≡ false
    → suffix_len (s ++ (x ∷ y ∷ [])) ≡ ok 2
unfolding suffix_len
suffix_len-two s x y p n t b =
    rw (from_end_last s x y, from_end_second s x y, n, not_bytes s x y t)
      (ground (arith, length-append s (x ∷ y ∷ [])))

cut_two : (s : Bytes) (x y : ℕ) → length (s ++ (x ∷ y ∷ [])) - 2 ≡ length s
cut_two s x y = omega (arith, length-append s (x ∷ y ∷ []))

cut_four : (s : Bytes) (w x y z : ℕ) → length (s ++ (w ∷ x ∷ y ∷ z ∷ [])) - 4 ≡ length s
cut_four s w x y z = omega (arith, length-append s (w ∷ x ∷ y ∷ z ∷ []))

-- A number with a two-byte suffix that is neither plain bytes nor " bytes".
parse_two :
    (s : Bytes) (x y n : ℕ)
    → parse_int s ≡ some (pos n)
    → is_number y ≡ false
    → y ≢ b's'
    → (y == b'B' && is_number x) ≡ false
    → parse_byte_size_string (s ++ (x ∷ y ∷ [])) ≡ scaled n (multiplicator (x ∷ y ∷ []))
unfolding parse_byte_size_string
parse_two [] x y n h nn t b = absurd (no_number h)
  where
    no_number : parse_int [] ≡ some (pos n) → ⊥
    no_number e = unfold parse_int in cc
parse_two (c ∷ s) x y n h nn t b =
    rw
      (
        suffix_len-two (c ∷ s) x y (omega arith) nn t b,
        cut_two (c ∷ s) x y,
        take-length-append (c ∷ s) (x ∷ y ∷ []),
        drop-length-append (c ∷ s) (x ∷ y ∷ []),
        h,
      )
      refl

multiplicator-letter : (u : SizeUnit) → multiplicator (letter u ∷ b'B' ∷ []) ≡ some (1024 ^ rank u)
unfolding multiplicator bytes_eq
multiplicator-letter kilo = refl
multiplicator-letter mega = refl
multiplicator-letter giga = refl
multiplicator-letter tera = refl
multiplicator-letter peta = refl
multiplicator-letter exa = refl

letter-number : (u : SizeUnit) → (b'B' == b'B' && is_number (letter u)) ≡ false
unfolding is_number
letter-number kilo = refl
letter-number mega = refl
letter-number giga = refl
letter-number tera = refl
letter-number peta = refl
letter-number exa = refl

parse_byte_unit :
    (s : Bytes) (n : ℕ) (u : SizeUnit)
    → parse_int s ≡ some (pos n)
    → parse_byte_size_string (s ++ (letter u ∷ b'B' ∷ [])) ≡ ok (times n (1024 ^ rank u))
parse_byte_unit s n u h =
    parse_two s (letter u) b'B' n h (unfold is_number in refl) (λ e. omega arith) (letter-number u)
    ∙ ap (scaled n) (multiplicator-letter u)

bit_multiplicator-letter :
    (u : SizeUnit) → bit_multiplicator (letter u ∷ b'b' ∷ b'i' ∷ b't' ∷ []) ≡ some (1000 ^ rank u)
unfolding bit_multiplicator bytes_eq
bit_multiplicator-letter kilo = refl
bit_multiplicator-letter mega = refl
bit_multiplicator-letter giga = refl
bit_multiplicator-letter tera = refl
bit_multiplicator-letter peta = refl
bit_multiplicator-letter exa = refl

parse_bit_unit :
    (s : Bytes) (n : ℕ) (u : SizeUnit)
    → parse_int s ≡ some (pos n)
    → parse_bit_size_string (s ++ (letter u ∷ b'b' ∷ b'i' ∷ b't' ∷ []))
      ≡ ok (times n (1000 ^ rank u))
unfolding parse_bit_size_string
parse_bit_unit [] n u h = absurd (no_number h)
  where
    no_number : parse_int [] ≡ some (pos n) → ⊥
    no_number e = unfold parse_int in cc
parse_bit_unit (c ∷ s) n u h =
    rw
      (
        long_enough,
        cut_four (c ∷ s) (letter u) b'b' b'i' b't',
        take-length-append (c ∷ s) (letter u ∷ b'b' ∷ b'i' ∷ b't' ∷ []),
        drop-length-append (c ∷ s) (letter u ∷ b'b' ∷ b'i' ∷ b't' ∷ []),
        h,
        bit_multiplicator-letter u,
      )
      refl
  where
    long_enough : ltb (length ((c ∷ s) ++ (letter u ∷ b'b' ∷ b'i' ∷ b't' ∷ []))) 5 ≡ false
    long_enough = ground (arith, length-append s (letter u ∷ b'b' ∷ b'i' ∷ b't' ∷ []))

times_exact : (n m : ℕ) → n * m < 2 ^ 63 → times n m ≡ pos (n * m)
unfolding times wrap64
times_exact n m h = ground arith

times_wraps : (n m : ℕ) → 2 ^ 63 ≤ n * m → n * m < 2 ^ 64 → times n m ≡ negsuc (2 ^ 64 - 1 - n * m)
unfolding times wrap64
times_wraps n m h k = ground arith

-- A size in kB to EB is the number times the power of 1024 that the unit stands for, and a size in
-- kbit to Ebit the number times the power of 1000, where both fit an int64.
pub parse_size_exact :
    (s : Bytes) (n : ℕ) (u : SizeUnit)
    → parse_int s ≡ some (pos n)
    → n * 1024 ^ rank u < 2 ^ 63
    → n * 1000 ^ rank u < 2 ^ 63
    → (parse_byte_size_string (s ++ (letter u ∷ b'B' ∷ [])) ≡ ok (pos (n * 1024 ^ rank u)))
      × (parse_bit_size_string (s ++ (letter u ∷ b'b' ∷ b'i' ∷ b't' ∷ []))
          ≡ ok (pos (n * 1000 ^ rank u)))
parse_size_exact s n u h b k = (
  parse_byte_unit s n u h ∙ ap ok (times_exact n (1024 ^ rank u) b),
  parse_bit_unit s n u h ∙ ap ok (times_exact n (1000 ^ rank u) k),
)

-- A size in bytes that passes 2 ^ 63 and stays below 2 ^ 64 is accepted, and read as a negative
-- number: the product wraps around unchecked, though a negative number itself is refused.
pub parse_byte_size_overflow :
    (s : Bytes) (n : ℕ) (u : SizeUnit)
    → parse_int s ≡ some (pos n)
    → 2 ^ 63 ≤ n * 1024 ^ rank u
    → n * 1024 ^ rank u < 2 ^ 64
    → parse_byte_size_string (s ++ (letter u ∷ b'B' ∷ []))
      ≡ ok (negsuc (2 ^ 64 - 1 - n * 1024 ^ rank u))
parse_byte_size_overflow s n u h b k =
    parse_byte_unit s n u h ∙ ap ok (times_wraps n (1024 ^ rank u) b k)
