-- ===== src/Container/Names.antt =====
-- What the names of containers are, and how a snapshot's name is taken apart.
use apollo_controller.Prelude.{
  ℕ, ◌-◌, ◌≤◌, ◌≡◌, ◌≢◌, ◌↔◌, inl, inr, refl, ap, Bool, true, false, not, ◌&&◌, ◌||◌, [], ◌∷◌, ◌++◌,
  arith, ltb, leb, ◌==◌, Bool-cases, length, drop, All, ok,
}
use apollo_controller.Prelude.Text.{
  Bytes, codes, bytes_eq, has_prefix, has_suffix, split_two, contains_byte,
}
use apollo_controller.Prelude.Number.{parse_int, scan_digits}
use apollo_controller.Container.{
  is_host_byte, all_host_bytes, valid_hostname, valid_name, get_parent_and_snapshot_name, is_some,
}

abbrev pub last_byte : ℕ → Bytes → ℕ
last_byte c [] = c
last_byte c (d ∷ s) = last_byte d s

abbrev pub is_letter : ℕ → Bool
is_letter c = (leb b'a' c && leb c b'z') || (leb b'A' c && leb c b'Z')

-- A host name: a letter, then letters, digits and dashes, the last byte no dash; at most 63 bytes.
abbrev pub IsHostname : Bytes → Type 0
IsHostname [] = ⊥
IsHostname (c ∷ s) =
    (is_letter c ≡ true)
    × All (λ b. is_host_byte b ≡ true) s
    × (last_byte c s ≢ b'-')
    × (length (c ∷ s) ≤ 63)

all_host_bytes_iff : (s : Bytes) → (all_host_bytes s ≡ true) ↔ All (λ b. is_host_byte b ≡ true) s
unfolding all_host_bytes
all_host_bytes_iff [] = (λ h. tt, λ h. refl)
all_host_bytes_iff (c ∷ s) = (
  λ h. (ground arith, (all_host_bytes_iff s).0 (ground arith)),
  λ h. ground (arith, h.0, (all_host_bytes_iff s).1 h.1),
)

drop-last : (c : ℕ) (s : Bytes) → drop (length s) (c ∷ s) ≡ last_byte c s ∷ []
drop-last c [] = refl
drop-last c (d ∷ s) = drop-last d s

drop-one : (c : ℕ) (s : Bytes) → drop (length (c ∷ s) - 1) (c ∷ s) ≡ drop (length s) (c ∷ s)
drop-one c s = ap (λ n. drop n (c ∷ s)) one
  where
    one : length (c ∷ s) - 1 ≡ length s
    one = omega arith

ends_dash : (c : ℕ) (s : Bytes) → has_suffix (c ∷ s) (codes "-") ≡ (last_byte c s == b'-')
unfolding has_suffix bytes_eq
ends_dash c s = rw (drop-one c s, drop-last c s) (ground arith)

starts_dash : (c : ℕ) (s : Bytes) → has_prefix (c ∷ s) (codes "-") ≡ (c == b'-')
unfolding has_prefix bytes_eq
starts_dash c s = ground arith

digit : (c : ℕ) → is_some (parse_int (c ∷ [])) ≡ (leb b'0' c && leb c b'9')
unfolding parse_int scan_digits
digit c = ground arith

valid_hostname-cons :
    (c : ℕ) (s : Bytes)
    → valid_hostname (c ∷ s) ≡ (
        not (ltb 63 (length (c ∷ s)))
        && (not (c == b'-')
            && (not (leb b'0' c && leb c b'9')
                && (not (last_byte c s == b'-') && all_host_bytes (c ∷ s)))))
unfolding valid_hostname
valid_hostname-cons c s = rw (starts_dash c s, digit c, ends_dash c s) (ground arith)

clean_bytes : (s : Bytes) → all_host_bytes s ≡ true → contains_byte b'/' s ≡ false
unfolding all_host_bytes contains_byte is_host_byte
clean_bytes [] h = refl
clean_bytes (c ∷ s) h = ground (arith, clean_bytes s)

split_two-clean : (s : Bytes) → contains_byte b'/' s ≡ false → split_two b'/' s ≡ s ∷ []
unfolding split_two contains_byte
split_two-clean [] h = refl
split_two-clean (c ∷ s) h = elim (Bool-cases (c == b'/')) [
  | inl e ↦ ground arith
  | inr e ↦ rw (e, split_two-clean s (rw e at h)) refl
]

split_two-append :
    (s t : Bytes) → contains_byte b'/' s ≡ false → split_two b'/' (s ++ (b'/' ∷ t)) ≡ s ∷ t ∷ []
unfolding split_two contains_byte
split_two-append [] t h = refl
split_two-append (c ∷ s) t h = elim (Bool-cases (c == b'/')) [
  | inl e ↦ ground arith
  | inr e ↦ rw (e, split_two-append s t (rw e at h)) refl
]

valid_name-clean : (name : Bytes) → valid_name name ≡ ok tt → contains_byte b'/' name ≡ false
unfolding valid_name
valid_name-clean name h = ground arith

host_letter : (c : ℕ) → is_letter c ≡ true → is_host_byte c ≡ true
unfolding is_host_byte
host_letter c h = ground arith

first_is_letter :
    (c : ℕ)
    → is_host_byte c ≡ true
    → (c == b'-') ≡ false
    → (leb b'0' c && leb c b'9') ≡ false
    → is_letter c ≡ true
unfolding is_host_byte
first_is_letter c h d e = ground arith

valid_hostname_iff : (name : Bytes) → (valid_hostname name ≡ true) ↔ IsHostname name
unfolding valid_hostname all_host_bytes
valid_hostname_iff [] = (λ h. cc, λ h. absurd h)
valid_hostname_iff (c ∷ s) = (
  λ h.
      let h' = rw (valid_hostname-cons c s) at h in
      (
        first_is_letter c (ground arith) (ground arith) (ground arith),
        (all_host_bytes_iff s).0 (ground arith),
        λ e. ground arith,
        ground arith,
      ),
  λ h.
      rw (valid_hostname-cons c s)
        (ground (arith, h.0, h.2, h.3, (all_host_bytes_iff s).1 h.1, host_letter c h.0)),
)

valid_hostname-clean : (name : Bytes) → valid_hostname name ≡ true → contains_byte b'/' name ≡ false
valid_hostname-clean [] h = unfold contains_byte in refl
valid_hostname-clean (c ∷ s) h = clean_bytes (c ∷ s) (ground (arith, valid_hostname-cons c s))

-- A name is a valid name of a container exactly when it is a host name: a letter, then letters,
-- digits and dashes, of at most 63 bytes, the last no dash. The test for the delimiter of
-- snapshots refuses nothing more.
pub valid_name_iff : (name : Bytes) → (valid_name name ≡ ok tt) ↔ IsHostname name
unfolding valid_name
valid_name_iff name = (
  λ h. (valid_hostname_iff name).0 (ground arith),
  λ h. let v = (valid_hostname_iff name).1 h in rw (valid_hostname-clean name v, v) refl,
)

-- The name of a snapshot, a container's name and its own behind the delimiter, is taken apart into
-- the two, whatever the snapshot's own name holds; the name of a container is no snapshot's.
pub snapshot_name_parts :
    (parent snapshot : Bytes)
    → valid_name parent ≡ ok tt
    → (get_parent_and_snapshot_name (parent ++ (b'/' ∷ snapshot)) ≡ (parent, snapshot, true))
      × (get_parent_and_snapshot_name parent ≡ (parent, [], false))
unfolding get_parent_and_snapshot_name
snapshot_name_parts parent snapshot h = (
  rw (split_two-append parent snapshot (valid_name-clean parent h)) refl,
  rw (split_two-clean parent (valid_name-clean parent h)) refl,
)
