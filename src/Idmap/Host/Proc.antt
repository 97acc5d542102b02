-- ===== src/Idmap/Host/Proc.antt =====
-- The entries that `getFromProc` of shared/idmapset_linux.go reads have 32 bits.
use apollo_controller.Prelude.{
  ℕ, ◌^◌, ◌<◌, ◌≡◌, inl, inr, refl, subst, Bool, true, false, Option, none, some, List, [], ◌∷◌,
  map, arith, ◌==◌, Bool-cases, length, All, All-append, ok, >>=-eq-ok, ok-injective,
}
use apollo_controller.Idmap.{IdmapSet}
use apollo_controller.Idmap.Host.{
  Files, mapping, current_entries, get_from_proc, proc_loop, proc_fields, all_or, uncommented,
  nonempty, current_idmap_set,
}
use apollo_controller.Prelude.Number.{parse_uint, parse_uint-lt}
use apollo_controller.Prelude.Text.{Bytes, fields}
use apollo_controller.Idmap.Host.Bounds.{IsBoundedEntry}

-- The numbers of /proc/self/uid_map have 32 bits.
abbrev IsTriple : ℕ × ℕ × ℕ → Type 0
IsTriple t = (t.0 < 2 ^ 32) × (t.1 < 2 ^ 32) × (t.2 < 2 ^ 32)

all_or-IsTriple :
    (a b c : Option ℕ) (entries : List (ℕ × ℕ × ℕ))
    → ((n : ℕ) → a ≡ some n → n < 2 ^ 32)
    → ((n : ℕ) → b ≡ some n → n < 2 ^ 32)
    → ((n : ℕ) → c ≡ some n → n < 2 ^ 32)
    → All IsTriple entries
    → All IsTriple (all_or a b c entries)
all_or-IsTriple (some x) (some y) (some z) entries ha hb hc h =
    All-append IsTriple entries _ h ((ha x refl, hb y refl, hc z refl), tt)
all_or-IsTriple (some x) (some y) none entries ha hb hc h = h
all_or-IsTriple (some x) none c entries ha hb hc h = h
all_or-IsTriple none b c entries ha hb hc h = h

proc_fields-IsTriple :
    (pieces : List Bytes) (entries : List (ℕ × ℕ × ℕ)) {read : List (ℕ × ℕ × ℕ)}
    → All IsTriple entries
    → proc_fields pieces entries ≡ ok read
    → All IsTriple read
unfolding proc_fields
proc_fields-IsTriple [] entries a h = ground arith
proc_fields-IsTriple (x ∷ []) entries a h = ground arith
proc_fields-IsTriple (x ∷ y ∷ []) entries a h = ground arith
proc_fields-IsTriple (x ∷ y ∷ z ∷ more) entries a h = subst (All IsTriple) (ok-injective h) (
    all_or-IsTriple (parse_uint x 32) (parse_uint y 32) (parse_uint z 32) entries
      (λ n e. parse_uint-lt x 32 e) (λ n e. parse_uint-lt y 32 e) (λ n e. parse_uint-lt z 32 e) a)

proc_loop-IsTriple :
    (lines : List Bytes) (entries : List (ℕ × ℕ × ℕ)) {read : List (ℕ × ℕ × ℕ)}
    → All IsTriple entries
    → proc_loop lines entries ≡ ok read
    → All IsTriple read
unfolding proc_loop
proc_loop-IsTriple [] entries a h = subst (All IsTriple) (ok-injective h) a
proc_loop-IsTriple (line ∷ lines) entries a h = elim (Bool-cases (length (uncommented line) == 0)) [
  | inl blank ↦ proc_loop-IsTriple lines entries a (rw blank at h)
  | inr full ↦
      let (more, e, rest) =
        >>=-eq-ok (proc_fields (fields (uncommented line)) entries) (λ r. proc_loop lines r)
          (rw full at h) in
      proc_loop-IsTriple lines more (proc_fields-IsTriple (fields (uncommented line)) entries a e)
        rest
]

nonempty-same {ℓ} : {A : Type ℓ} (xs : List A) {ys : List A} → nonempty xs ≡ ok ys → xs ≡ ys
nonempty-same [] h = cc
nonempty-same (x ∷ xs) h = ok-injective h

get_from_proc-IsTriple :
    (lines : List Bytes) {read : List (ℕ × ℕ × ℕ)}
    → get_from_proc lines ≡ ok read
    → All IsTriple read
unfolding get_from_proc
get_from_proc-IsTriple lines h =
    let (entries, e, rest) = >>=-eq-ok (proc_loop lines []) nonempty h in
    subst (All IsTriple) (nonempty-same entries rest) (proc_loop-IsTriple lines [] tt e)

map-mapping-IsBoundedEntry :
    (u g : Bool) (entries : List (ℕ × ℕ × ℕ))
    → All IsTriple entries
    → All IsBoundedEntry (map (mapping u g) entries)
map-mapping-IsBoundedEntry u g [] h = tt
map-mapping-IsBoundedEntry u g ((a, b, c) ∷ entries) h =
    ((h.0.0, refl, h.0.2, refl), map-mapping-IsBoundedEntry u g entries h.1)

current_entries-IsBoundedEntry :
    (u g : Bool) (file : Option (List Bytes)) {m : IdmapSet}
    → current_entries u g file ≡ ok m
    → All IsBoundedEntry m
unfolding current_entries
current_entries-IsBoundedEntry u g none h =
    subst (All IsBoundedEntry) (ok-injective h) ((omega arith, refl, omega arith, refl), tt)
current_entries-IsBoundedEntry u g (some lines) h =
    let (entries, e, rest) = >>=-eq-ok (get_from_proc lines) (λ x. ok (map (mapping u g) x)) h in
    subst (All IsBoundedEntry) (ok-injective rest)
      (map-mapping-IsBoundedEntry u g entries (get_from_proc-IsTriple lines e))

pub current_idmap_set-IsBoundedEntry :
    (files : Files) (m : IdmapSet) → current_idmap_set files ≡ ok m → All IsBoundedEntry m
unfolding current_idmap_set
current_idmap_set-IsBoundedEntry files m h =
    let (uids, eu, rest) = >>=-eq-ok (current_entries true false files.uid_map) _ h in
    let (gids, eg, last) = >>=-eq-ok (current_entries false true files.gid_map) _ rest in
    subst (All IsBoundedEntry) (ok-injective last) (
      All-append IsBoundedEntry uids gids (current_entries-IsBoundedEntry true false _ eu)
        (current_entries-IsBoundedEntry false true _ eg))
