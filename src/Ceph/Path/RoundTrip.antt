-- ===== src/Ceph/Path/RoundTrip.antt =====
-- The names that the code gives to volumes, read again.
use apollo_controller.Prelude.{
  ℕ, suc, ◌+◌, ◌≡◌, ◌≢◌, ◌⊎◌, inl, inr, refl, ap, ◌∙◌, Bool, true, false, ◌||◌, Option, none, some,
  [], ◌∷◌, ◌++◌, arith, leb, ◌==◌, if◌then◌else◌, Bool-cases, length, take, drop, length-append,
  take-length-append, ok, err,
}
use apollo_controller.Prelude.Text.{Bytes, has_prefix, bytes_eq, contains_byte, has_prefix-append}
use apollo_controller.Ceph.Path.{
  zombie_prefix, index, out_of_range, cut, past_zombie, added, slice, parse_past, parse_type,
  parse_clone, parse_parent,
}

has_prefix-one : (c : ℕ) (s : Bytes) (b : ℕ) → has_prefix (c ∷ s) (b ∷ []) ≡ (c == b)
unfolding has_prefix bytes_eq
has_prefix-one c s b = ground arith

-- The first separator.
index-append :
    (s t : Bytes) (b : ℕ)
    → contains_byte b s ≡ false
    → index (s ++ b ∷ t) (b ∷ []) ≡ some (length s)
unfolding index contains_byte
index-append [] t b n = rw (has_prefix-append (b ∷ []) t) refl
index-append (c ∷ s) t b n = rw (other n) (rw (index-append s t b (ground (arith, n))) refl)
  where
    other : (c == b) || contains_byte b s ≡ false → has_prefix (c ∷ s ++ b ∷ t) (b ∷ []) ≡ false
    other n = has_prefix-one c (s ++ b ∷ t) b ∙ ground (arith, n)

drop-suc-append : (s t : Bytes) (b : ℕ) → drop (suc (length s)) (s ++ b ∷ t) ≡ t
drop-suc-append [] t b = refl
drop-suc-append (c ∷ s) t b = drop-suc-append s t b

cut-append : (s t : Bytes) (b : ℕ) → contains_byte b s ≡ false → cut (s ++ b ∷ t) b ≡ ok (s, t)
unfolding cut
cut-append s t b n =
    rw (index-append s t b n) (rw (take-length-append s (b ∷ t)) (rw (drop-suc-append s t b) refl))

slice-append : (s t : Bytes) (n : ℕ) → n ≡ length s → slice (s ++ t) n ≡ ok s
slice-append s t n e = rw e (rw (take-length-append s t) (ground (arith, length-append s t)))

-- Behind the text `front` that `idx` stands for, or none.
parse_past-append :
    (front base name : Bytes) (idx : Option ℕ)
    → added idx ≡ length front
    → contains_byte b'_' base ≡ false
    → parse_past ((front ++ base) ++ b'_' ∷ name) (idx, base ++ b'_' ∷ name)
      ≡ ok (front ++ base, name)
parse_past-append front base name idx a n = rw (index-append base name b'_' n) (
    rw
      (slice-append (front ++ base) (b'_' ∷ name) (length base + added idx)
        (omega (arith, length-append front base, a)))
      (rw (cut-append base name b'_' n) refl))

-- A type that is marked.
pub parse_type-marked :
    (base name : Bytes)
    → contains_byte b'_' base ≡ false
    → parse_type ((zombie_prefix ++ base) ++ b'_' ∷ name) ≡ ok (zombie_prefix ++ base, name)
unfolding parse_type index
parse_type-marked base name n =
    rw (has_prefix-append zombie_prefix (base ++ b'_' ∷ name))
      (parse_past-append zombie_prefix base name (some 7) refl n)

past_zombie-plain :
    (s : Bytes) (o : Option ℕ)
    → o ≢ some 0
    → o ≢ some (length zombie_prefix)
    → (idx : Option ℕ) × (past_zombie s o ≡ (idx, s)) × (added idx ≡ 0)
past_zombie-plain s none f g = (none, refl, refl)
past_zombie-plain s (some n) f g =
    (some n, rw (differs n 0 (λ e. f (ap some e))) refl, rw (differs n 7 (λ e. g (ap some e))) refl)
  where
    differs : (a b : ℕ) → a ≢ b → (a == b) ≡ false
    differs a b d = ground arith

-- One that is not, where the text has the prefix zombie_ neither at 0 nor at 7.
pub parse_type-plain :
    (base name : Bytes)
    → contains_byte b'_' base ≡ false
    → index (base ++ b'_' ∷ name) zombie_prefix ≢ some 0
    → index (base ++ b'_' ∷ name) zombie_prefix ≢ some (length zombie_prefix)
    → parse_type (base ++ b'_' ∷ name) ≡ ok (base, name)
unfolding parse_type
parse_type-plain base name n f g =
    let s = base ++ b'_' ∷ name in
    let (idx, e, a) = past_zombie-plain s (index s zombie_prefix) f g in
    ap (parse_past s) e ∙ parse_past-append [] base name idx a n

-- A type, with the mark of a zombie or without.
abbrev pub type_text : Bool → Bytes → Bytes
type_text zombie base = if zombie then zombie_prefix ++ base else base

-- What an unmarked name must not look like.
abbrev pub Unmistaken : Bytes → Type 0
Unmistaken s =
    (index s zombie_prefix ≢ some 0) × (index s zombie_prefix ≢ some (length zombie_prefix))

parse_type_lem :
    (zombie : Bool) (base name : Bytes)
    → contains_byte b'_' base ≡ false
    → (zombie ≡ true) ⊎ Unmistaken (base ++ b'_' ∷ name)
    → parse_type (type_text zombie base ++ b'_' ∷ name) ≡ ok (type_text zombie base, name)
parse_type_lem true base name n u = parse_type-marked base name n
parse_type_lem false base name n (inl e) = cc
parse_type_lem false base name n (inr u) = parse_type-plain base name n u.0 u.1

-- The name of a volume, with its pool without slash, its type without underscore but for a mark, is
-- read back as it was put together, if the type is marked or the name of the volume does not have the
-- prefix zombie_ at 0 or at 7; and so is the name of a snapshot, where the name of the volume is
-- without @.
pub parse_names_lem :
    (zombie : Bool) (pool base name snap : Bytes)
    → contains_byte b'/' pool ≡ false
    → contains_byte b'_' base ≡ false
    → contains_byte b'@' name ≡ false
    → (zombie ≡ true)
      ⊎ (Unmistaken (base ++ b'_' ∷ name) × Unmistaken (base ++ b'_' ∷ (name ++ b'@' ∷ snap)))
    → (parse_clone (pool ++ b'/' ∷ (type_text zombie base ++ b'_' ∷ name))
        ≡ ok (pool, type_text zombie base, name))
      × (parse_parent (pool ++ b'/' ∷ (type_text zombie base ++ b'_' ∷ (name ++ b'@' ∷ snap)))
          ≡ ok (pool, type_text zombie base, name, snap))
unfolding parse_clone parse_parent
parse_names_lem zombie pool base name snap p b n u = (
  rw (cut-append pool (type_text zombie base ++ b'_' ∷ name) b'/' p)
      (rw (parse_type_lem zombie base name b (first u)) refl),
  rw (cut-append pool (type_text zombie base ++ b'_' ∷ (name ++ b'@' ∷ snap)) b'/' p) (
      rw (parse_type_lem zombie base (name ++ b'@' ∷ snap) b (second u))
        (rw (cut-append name snap b'@' n) refl)),
)
  where
    first :
        (zombie ≡ true)
          ⊎ (Unmistaken (base ++ b'_' ∷ name) × Unmistaken (base ++ b'_' ∷ (name ++ b'@' ∷ snap)))
        → (zombie ≡ true) ⊎ Unmistaken (base ++ b'_' ∷ name)
    first (inl z) = inl z
    first (inr u) = inr u.0

    second :
        (zombie ≡ true)
          ⊎ (Unmistaken (base ++ b'_' ∷ name) × Unmistaken (base ++ b'_' ∷ (name ++ b'@' ∷ snap)))
        → (zombie ≡ true) ⊎ Unmistaken (base ++ b'_' ∷ (name ++ b'@' ∷ snap))
    second (inl z) = inl z
    second (inr u) = inr u.1

-- An unmarked name that has the prefix zombie_ at 7 and nowhere before is taken for a marked one: 7 is
-- added to the length of the type, and it is an error, a type with 7 bytes of the name, or a panic.
pub parse_clone-mistaken :
    (pool base name : Bytes)
    → contains_byte b'/' pool ≡ false
    → contains_byte b'_' base ≡ false
    → index (base ++ b'_' ∷ name) zombie_prefix ≡ some (length zombie_prefix)
    → parse_clone (pool ++ b'/' ∷ (base ++ b'_' ∷ name)) ≡ (
        if leb (length base + 7) (length (base ++ b'_' ∷ name))
        then ok (pool, take (length base + 7) (base ++ b'_' ∷ name), name)
        else err out_of_range)
unfolding parse_clone parse_type
parse_clone-mistaken pool base name p b m = rw (cut-append pool (base ++ b'_' ∷ name) b'/' p) (
    rw m (
      rw (index-append base name b'_' b) (
        rw (cut-append base name b'_' b)
          (elim (Bool-cases (leb (length base + 7) (length (base ++ b'_' ∷ name)))) [
            | inl e ↦ rw e refl
            | inr e ↦ rw e refl
          ]))))
