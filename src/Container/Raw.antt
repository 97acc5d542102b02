-- ===== src/Container/Raw.antt =====
-- mercuryValidConfig of apollo/container_mercury.go: the lines of raw.mercury. Whether the container
-- library is of version 2.1.0 or later is a parameter.
use apollo_controller.Prelude.{
  ℕ, ◌≡◌, inl, inr, refl, sym, subst, Bool, true, false, not, ◌&&◌, ◌||◌, List, [], ◌∷◌, arith,
  ◌==◌, if◌then◌else◌, Bool-cases, All, ok, err, ◌>>◌, guard,
}
use apollo_controller.Prelude.Text.{
  Bytes, codes, bytes_eq, bytes_eq→eq, string_in_slice, has_prefix, to_lower, split, split_two,
  grow, contains_byte,
}
use apollo_controller.Container.{bad_raw_line, forbidden_raw_key, Checked}

abbrev pub is_blank : ℕ → Bool
is_blank c = c == 9 || c == 32

-- `strings.TrimLeft(s, "\t ")`, and the same from the right.
unfoldable pub trim_left : Bytes → Bytes
trim_left [] = []
trim_left (c ∷ s) = let rest = trim_left s in if is_blank c then rest else c ∷ s

abbrev pub before : ℕ → Bytes → Bytes
before c [] = if is_blank c then [] else c ∷ []
before c (d ∷ s) = c ∷ d ∷ s

unfoldable pub trim_right : Bytes → Bytes
trim_right [] = []
trim_right (c ∷ s) = before c (trim_right s)

unfoldable pub network_key_prefix : Bool → Bytes
network_key_prefix has_2_1 = if has_2_1 then codes "mercury.net." else codes "mercury.network."

unfoldable pub allowed_ip_keys : Bool → List Bytes
allowed_ip_keys has_2_1 =
    if has_2_1
    then codes "ipv4.address" ∷ codes "ipv6.address" ∷ []
    else codes "ipv4" ∷ codes "ipv6" ∷ []

-- What the fields of a network key, split at its dots, may be.
unfoldable pub network_fields : List Bytes → List Bytes → Checked
network_fields allowed (a ∷ b ∷ c ∷ f ∷ []) = guard (string_in_slice f allowed) forbidden_raw_key
network_fields allowed (a ∷ b ∷ c ∷ f ∷ g ∷ []) =
    guard (string_in_slice f allowed && bytes_eq g (codes "gateway")) forbidden_raw_key
network_fields allowed _ = err forbidden_raw_key

unfoldable pub raw_key : Bool → Bytes → Checked
raw_key has_2_1 key = do
  guard (not (bytes_eq key (codes "mercury.logfile") || bytes_eq key (codes "mercury.log.file")))
      forbidden_raw_key
  guard (not (bytes_eq key (codes "mercury.syslog") || bytes_eq key (codes "mercury.log.syslog")))
      forbidden_raw_key
  guard (not (bytes_eq key (codes "mercury.ephemeral"))) forbidden_raw_key
  if has_prefix key (network_key_prefix has_2_1)
      then network_fields (allowed_ip_keys has_2_1) (split b'.' key)
      else ok tt

unfoldable pub key_of : Bytes → Bytes
key_of member = to_lower (trim_right (trim_left member))

abbrev pub members : Bool → List Bytes → Checked
members has_2_1 (name ∷ value ∷ []) = raw_key has_2_1 (key_of name)
members has_2_1 _ = err bad_raw_line

abbrev pub trimmed_line : Bool → Bytes → Checked
trimmed_line has_2_1 line =
    if has_prefix line (codes "#") then ok tt else members has_2_1 (split_two b'=' line)

unfoldable pub raw_line : Bool → Bytes → Checked
raw_line has_2_1 [] = ok tt
raw_line has_2_1 (c ∷ s) = trimmed_line has_2_1 (trim_left (c ∷ s))

unfoldable pub raw_lines : Bool → List Bytes → Checked
raw_lines has_2_1 [] = ok tt
raw_lines has_2_1 (line ∷ lines) = do raw_line has_2_1 line; raw_lines has_2_1 lines

unfoldable pub mercury_valid_config : Bool → Bytes → Checked
mercury_valid_config has_2_1 raw = raw_lines has_2_1 (split 10 raw)

-- A piece of a text that was split has no separator in it.
split-All-clean : (sep : ℕ) (s : Bytes) → All (λ p. contains_byte sep p ≡ false) (split sep s)
unfolding split contains_byte
split-All-clean sep [] = (refl, tt)
split-All-clean sep (c ∷ s) = elim (Bool-cases (c == sep)) [
  | inl e ↦ rw e (refl, split-All-clean sep s)
  | inr e ↦ rw e (grown (split sep s) (split-All-clean sep s) e)
]
  where
    grown :
        (pieces : List Bytes)
        → All (λ p. contains_byte sep p ≡ false) pieces
        → (c == sep) ≡ false
        → All (λ p. contains_byte sep p ≡ false) (grow c pieces)
    grown [] a e = (rw e, tt)
    grown (p ∷ pieces) a e = (rw e a.0, a.1)

clean_not_allowed :
    (f : Bytes) → contains_byte b'.' f ≡ false → string_in_slice f (allowed_ip_keys true) ≡ false
unfolding string_in_slice allowed_ip_keys contains_byte
clean_not_allowed f h = elim (Bool-cases (bytes_eq (codes "ipv4.address") f)) [
  | inl e ↦ absurd (dotted f (bytes_eq→eq (codes "ipv4.address") f e) h)
  | inr e ↦ elim (Bool-cases (bytes_eq (codes "ipv6.address") f)) [
    | inl e' ↦ absurd (dotted6 f (bytes_eq→eq (codes "ipv6.address") f e') h)
    | inr e' ↦ rw (e, e') refl
  ]
]
  where
    dotted : (f : Bytes) → codes "ipv4.address" ≡ f → contains_byte b'.' f ≡ false → ⊥
    dotted f e h = ground (arith, subst (λ t. contains_byte b'.' t ≡ false) (sym e) h)

    dotted6 : (f : Bytes) → codes "ipv6.address" ≡ f → contains_byte b'.' f ≡ false → ⊥
    dotted6 f e h = ground (arith, subst (λ t. contains_byte b'.' t ≡ false) (sym e) h)

fields_refused :
    (pieces : List Bytes)
    → All (λ p. contains_byte b'.' p ≡ false) pieces
    → network_fields (allowed_ip_keys true) pieces ≡ err forbidden_raw_key
unfolding network_fields
fields_refused [] a = refl
fields_refused (x ∷ []) a = refl
fields_refused (x ∷ y ∷ []) a = refl
fields_refused (x ∷ y ∷ z ∷ []) a = refl
fields_refused (x ∷ y ∷ z ∷ f ∷ []) a = rw (clean_not_allowed f a.1.1.1.0)
fields_refused (x ∷ y ∷ z ∷ f ∷ g ∷ []) a = rw (clean_not_allowed f a.1.1.1.0)
fields_refused (x ∷ y ∷ z ∷ f ∷ g ∷ h ∷ rest) a = refl

-- With the container library at 2.1.0 or later, every key under `mercury.net.` is refused: the keys
-- `ipv4.address` and `ipv6.address` that the check means to allow are never one field of a key
-- split at its dots.
pub network_key_refused :
    (key : Bytes)
    → has_prefix key (codes "mercury.net.") ≡ true
    → raw_key true key ≡ err forbidden_raw_key
unfolding raw_key network_key_prefix
network_key_refused key h =
    rw (h, fields_refused (split b'.' key) (split-All-clean b'.' key)) (ground arith)
