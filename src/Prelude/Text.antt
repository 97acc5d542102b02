-- ===== src/Prelude/Text.antt =====
-- Go strings as lists of bytes, with the functions of package strings that the code calls.
use Prim.Native.Char.{code}
use Prim.Native.String.{String}
use apollo_controller.Prelude.{
  ℕ, ◌+◌, ◌-◌, ◌≡◌, ◌↔◌, refl, Bool, true, false, ◌&&◌, ◌||◌, List, [], ◌∷◌, ◌++◌, map, arith, leb,
  ◌==◌, if◌then◌else◌, length, take, drop, length-append, take-length-append,
}

abbrev pub Bytes : Type 0
Bytes = List ℕ

-- The bytes of an ASCII literal.
abbrev pub codes : String → Bytes
codes String.[] = []
codes (String.◌∷◌ c s) = code c ∷ codes s

unfoldable pub bytes_eq : Bytes → Bytes → Bool
bytes_eq [] [] = true
bytes_eq (a ∷ s) (b ∷ t) = a == b && bytes_eq s t
bytes_eq _ _ = false

pub bytes_eq_refl : (s : Bytes) → bytes_eq s s ≡ true
unfolding bytes_eq
bytes_eq_refl [] = refl
bytes_eq_refl (a ∷ s) = ground (arith, bytes_eq_refl s)

pub bytes_eq→eq : (s t : Bytes) → bytes_eq s t ≡ true → s ≡ t
unfolding bytes_eq
bytes_eq→eq [] [] h = refl
bytes_eq→eq [] (b ∷ t) h = ground arith
bytes_eq→eq (a ∷ s) [] h = ground arith
bytes_eq→eq (a ∷ s) (b ∷ t) h = ground (arith, bytes_eq→eq s t)

-- Equality as `ground` reads it: given at each pair that is compared.
pub bytes_eq_iff : (s t : Bytes) → (bytes_eq s t ≡ true) ↔ (s ≡ t)
bytes_eq_iff s t = (bytes_eq→eq s t, λ e. subst' e)
  where
    subst' : s ≡ t → bytes_eq s t ≡ true
    subst' e = rw e (bytes_eq_refl t)

-- `StringInSlice`.
unfoldable pub string_in_slice : Bytes → List Bytes → Bool
string_in_slice key [] = false
string_in_slice key (entry ∷ list) = bytes_eq entry key || string_in_slice key list

-- `strings.HasPrefix` and `strings.HasSuffix`.
unfoldable pub has_prefix : Bytes → Bytes → Bool
has_prefix s prefix = leb (length prefix) (length s) && bytes_eq (take (length prefix) s) prefix

unfoldable pub has_suffix : Bytes → Bytes → Bool
has_suffix s suffix =
    leb (length suffix) (length s) && bytes_eq (drop (length s - length suffix) s) suffix

-- `strings.TrimSuffix`.
unfoldable pub trim_suffix : Bytes → Bytes → Bytes
trim_suffix s suffix = if has_suffix s suffix then take (length s - length suffix) s else s

-- `strings.ToLower` on ASCII.
unfoldable pub to_lower : Bytes → Bytes
to_lower s = map (λ c. if leb b'A' c && leb c b'Z' then c + 32 else c) s

-- The first piece grows by a byte.
abbrev pub grow : ℕ → List Bytes → List Bytes
grow c [] = (c ∷ []) ∷ []
grow c (piece ∷ pieces) = (c ∷ piece) ∷ pieces

-- `strings.Split` at a separator of one byte.
unfoldable pub split : ℕ → Bytes → List Bytes
split sep [] = [] ∷ []
split sep (c ∷ s) = let rest = split sep s in if c == sep then [] ∷ rest else grow c rest

-- `strings.SplitN` with a limit of two pieces: the text before the first separator, and what
-- follows it if there is one.
unfoldable pub split_two : ℕ → Bytes → List Bytes
split_two sep [] = [] ∷ []
split_two sep (c ∷ s) = if c == sep then [] ∷ s ∷ [] else grow c (split_two sep s)

-- `strings.Contains` of one byte.
unfoldable pub contains_byte : ℕ → Bytes → Bool
contains_byte b [] = false
contains_byte b (c ∷ s) = c == b || contains_byte b s

abbrev pub is_space : ℕ → Bool
is_space c = c == 32 || (leb 9 c && leb c 13)

abbrev pub trim_left : Bytes → Bytes
trim_left [] = []
trim_left (c ∷ s) = let rest = trim_left s in if is_space c then rest else c ∷ s

abbrev pub ends : ℕ → Bytes → Bytes
ends c [] = if is_space c then [] else c ∷ []
ends c (d ∷ s) = c ∷ d ∷ s

abbrev pub trim_right : Bytes → Bytes
trim_right [] = []
trim_right (c ∷ s) = ends c (trim_right s)

-- `strings.TrimSpace` on ASCII.
abbrev pub trim_space : Bytes → Bytes
trim_space s = trim_right (trim_left s)

abbrev pub drop_empty : List Bytes → List Bytes
drop_empty [] = []
drop_empty ([] ∷ pieces) = drop_empty pieces
drop_empty ((c ∷ s) ∷ pieces) = (c ∷ s) ∷ drop_empty pieces

-- `strings.Fields` on ASCII: the runs of bytes between white space.
pub split_spaces : Bytes → List Bytes
split_spaces [] = [] ∷ []
split_spaces (c ∷ s) = let rest = split_spaces s in if is_space c then [] ∷ rest else grow c rest

unfoldable pub fields : Bytes → List Bytes
unfolding split_spaces
fields s = drop_empty (split_spaces s)

pub has_prefix-append : (p s : Bytes) → has_prefix (p ++ s) p ≡ true
unfolding has_prefix
has_prefix-append p s =
    rw (take-length-append p s, bytes_eq_refl p) (ground (arith, length-append p s))
