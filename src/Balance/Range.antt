-- ===== src/Balance/Range.antt =====
-- The loop of parseCpuset over a range of CPUs, and when it ends.
use apollo_controller.Prelude.{
  ℕ, zero, suc, ◌+◌, ◌-◌, ◌^◌, ◌≤◌, ◌<◌, ◌≡◌, refl, sym, ap, ◌∙◌, true, false, some, List, [], ◌∷◌,
  ◌++◌, append_assoc, append-nil, arith, ltb, ok, err, Bool-cases, ==_iff, inl, inr, if◌then◌else◌,
  ◌==◌,
}
use apollo_controller.Prelude.Int.{ℤ, pos, negsuc, ltb_ℤ, ◌+ℤ◌, +ℤ_pos, wrap64}
use apollo_controller.Prelude.Text.{Bytes}
use apollo_controller.Prelude.Number.{parse_int}
use apollo_controller.Balance.{unfinished, range_loop, range_fields}

-- `n` numbers from `i` on.
abbrev pub numbers : ℕ → ℕ → List ℤ
numbers i zero = []
numbers i (suc n) = pos i ∷ numbers (i + 1) n

range_loop-done :
    (fuel i h : ℕ) (cpus : List ℤ) → h < i → range_loop (suc fuel) (pos i) (pos h) cpus ≡ ok cpus
unfolding range_loop
range_loop-done fuel i h cpus l = rw before refl
  where
    before : ltb h i ≡ true
    before = ground arith

range_loop-more :
    (fuel i h : ℕ) (cpus : List ℤ)
    → i ≤ h
    → h < 2 ^ 63 - 1
    → range_loop (suc fuel) (pos i) (pos h) cpus
      ≡ range_loop fuel (pos (i + 1)) (pos h) (cpus ++ (pos i ∷ []))
unfolding range_loop
range_loop-more fuel i h cpus l small = rw (more, +ℤ_pos i 1 (omega arith)) refl
  where
    more : ltb h i ≡ false
    more = ground arith

range_loop-numbers :
    (n fuel i h : ℕ) (cpus : List ℤ)
    → h < 2 ^ 63 - 1
    → i + n ≡ h + 1
    → n < fuel
    → range_loop fuel (pos i) (pos h) cpus ≡ ok (cpus ++ numbers i n)
range_loop-numbers n zero i h cpus small e f = absurd (omega arith)
range_loop-numbers zero (suc fuel) i h cpus small e f =
    range_loop-done fuel i h cpus (omega arith) ∙ ap ok (sym (append-nil cpus))
range_loop-numbers (suc n) (suc fuel) i h cpus small e f =
    range_loop-more fuel i h cpus (omega arith) small
    ∙ range_loop-numbers n fuel (i + 1) h (cpus ++ (pos i ∷ [])) small (omega arith) (omega arith)
    ∙ ap ok (append_assoc cpus (pos i ∷ []) (numbers (i + 1) n))

-- A number of 64 bits with its sign.
abbrev IsInt64 : ℤ → Type 0
IsInt64 (pos n) = n < 2 ^ 63
IsInt64 (negsuc n) = n < 2 ^ 63

next-IsInt64 : (i : ℤ) → IsInt64 i → IsInt64 (i +ℤ pos 1)
unfolding ◌+ℤ◌ wrap64
next-IsInt64 (pos n) h = ground arith
next-IsInt64 (negsuc n) h = ground arith

last-not-lt : (i : ℤ) → IsInt64 i → ltb_ℤ (pos (2 ^ 63 - 1)) i ≡ false
last-not-lt (pos n) h = ground arith
last-not-lt (negsuc n) h = refl

range_loop-unfinished :
    (fuel : ℕ) (i : ℤ) (cpus : List ℤ)
    → IsInt64 i
    → range_loop fuel i (pos (2 ^ 63 - 1)) cpus ≡ err unfinished
unfolding range_loop
range_loop-unfinished zero i cpus h = refl
range_loop-unfinished (suc fuel) i cpus h =
    rw (last-not-lt i h)
      (range_loop-unfinished fuel (i +ℤ pos 1) (cpus ++ (i ∷ [])) (next-IsInt64 i h))

-- A range of CPUs is read to its end, if the fuel is larger than the range, where it does not end in
-- the last number of 64 bits; where it ends in that number no fuel is enough: the loop goes on for
-- ever, since the counter wraps around below the end.
pub range_fields_ends :
    (fuel : ℕ) (first last : Bytes) (l n h : ℕ)
    → parse_int first ≡ some (pos l)
    → parse_int last ≡ some (pos h)
    → h < 2 ^ 63
    → l < 2 ^ 63
    → l + n ≡ h + 1
    → n < fuel
    → range_fields fuel (first ∷ last ∷ []) []
      ≡ (if h == 2 ^ 63 - 1 then err unfinished else ok (numbers l n))
range_fields_ends fuel first last l n h p q small b e enough = elim (Bool-cases (h == 2 ^ 63 - 1)) [
  | inl t ↦ rw (p, q, (==_iff h (2 ^ 63 - 1)).0 t) (range_loop-unfinished fuel (pos l) [] b)
  | inr f ↦ rw (p, q, f) (range_loop-numbers n fuel l h [] (ground (arith, f)) e enough)
]
