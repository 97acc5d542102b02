-- ===== src/Config/Values.antt =====
-- What the checkers of shared/container.go let through.
use apollo_controller.Prelude.{
  ℕ, ◌≤◌, ◌≡◌, ◌↔◌, ◌⊎◌, inl, inr, refl, subst, Bool, true, false, ◌&&◌, Option, none, some, List,
  [], ◌∷◌, ◌++◌, arith, if◌then◌else◌, Bool-cases, Option-cases, All, ok, err, ok-injective,
}
use apollo_controller.Prelude.Int.{ℤ, pos, negsuc}
use apollo_controller.Prelude.Text.{
  Bytes, codes, bytes_eq, has_prefix-append, string_in_slice, to_lower,
}
use apollo_controller.Prelude.Number.{parse_int}
use apollo_controller.Config.{
  bad_key, Checker, is_int64, is_uint32, is_priority, is_bool, is_true, is_one_of, is_any,
  is_allowance, is_memory, is_enforce, known_keys, find_checker, is_free_key, config_key_checker,
  is_ok,
}

-- A priority is unset, or an integer from 0 to 10.
pub is_priority_iff :
    (value : Bytes)
    → (is_priority value ≡ ok tt)
      ↔ ((value ≡ []) ⊎ ((n : ℕ) × (parse_int value ≡ some (pos n)) × (n ≤ 10)))
unfolding is_priority
is_priority_iff [] = (λ h. inl refl, λ h. refl)
is_priority_iff (c ∷ s) = (within (parse_int (c ∷ s)) refl, λ h. ground arith)
  where
    within :
        (o : Option ℤ)
        → parse_int (c ∷ s) ≡ o
        → is_priority (c ∷ s) ≡ ok tt
        → ((c ∷ s) ≡ []) ⊎ ((n : ℕ) × (parse_int (c ∷ s) ≡ some (pos n)) × (n ≤ 10))
    within none e h = ground arith
    within (some (pos n)) e h = inr (n, e, ground arith)
    within (some (negsuc n)) e h = ground arith

abbrev Unset : Bytes × Checker → Type 0
Unset entry = entry.1 [] ≡ ok tt

abbrev all_unset : List (Bytes × Checker) → Bool
all_unset [] = true
all_unset ((k, f) ∷ keys) = is_ok (f []) && all_unset keys

all_unset-Unset : (keys : List (Bytes × Checker)) → all_unset keys ≡ true → All Unset keys
all_unset-Unset [] h = tt
all_unset-Unset ((k, f) ∷ keys) h = (ground arith, all_unset-Unset keys (ground arith))

known_keys-Unset : All Unset known_keys
unfolding known_keys is_bool is_int64 is_any is_allowance is_priority is_memory is_enforce is_one_of
    is_uint32
known_keys-Unset = all_unset-Unset known_keys refl

find_checker-Unset :
    (keys : List (Bytes × Checker)) (key : Bytes) {f : Checker}
    → All Unset keys
    → find_checker keys key ≡ some f
    → f [] ≡ ok tt
unfolding find_checker
find_checker-Unset [] key a h = absurd (nothing h)
  where
    nothing : {f : Checker} → none ≡ some f → ⊥
    nothing e = cc
find_checker-Unset ((k, g) ∷ keys) key {f} a h = elim (Bool-cases (bytes_eq k key)) [
  | inl e ↦ subst (λ c. c [] ≡ ok tt) (same (rw e at h)) a.0
  | inr e ↦ find_checker-Unset keys key a.1 (rw e at h)
]
  where
    same : some g ≡ some f → g ≡ f
    same e = cc

-- Any key that a container may have may be unset: whatever checker it gets, known or free, accepts
-- the empty value.
pub config_key_checker_unset :
    (key : Bytes) {f : Checker} → config_key_checker key ≡ ok f → f [] ≡ ok tt
unfolding config_key_checker
config_key_checker_unset key {f} h = elim (Option-cases (find_checker known_keys key)) [
  | inl e ↦ free (is_free_key key) (rw e at h)
  | inr (g, e) ↦
      subst (λ c. c [] ≡ ok tt) (ok-injective (rw e at h))
        (find_checker-Unset known_keys key known_keys-Unset e)
]
  where
    refused : err bad_key ≡ ok f → ⊥
    refused e = cc

    free : (b : Bool) → (if b then ok is_any else err bad_key) ≡ ok f → f [] ≡ ok tt
    free true e = subst (λ c. c [] ≡ ok tt) (ok-injective e) (unfold is_any in refl)
    free false e = absurd (refused e)

user_free : (rest : Bytes) → is_free_key (codes "user." ++ rest) ≡ true
unfolding is_free_key
user_free rest = ground (arith, has_prefix-append (codes "user.") rest)

environment_free : (rest : Bytes) → is_free_key (codes "environment." ++ rest) ≡ true
unfolding is_free_key
environment_free rest = ground (arith, has_prefix-append (codes "environment.") rest)

image_free : (rest : Bytes) → is_free_key (codes "image." ++ rest) ≡ true
unfolding is_free_key
image_free rest = ground (arith, has_prefix-append (codes "image.") rest)

-- Keys of the user, of the environment and of the image are free: each is accepted with any value.
pub config_key_checker_free :
    (rest value : Bytes)
    → (config_key_checker (codes "user." ++ rest) ≡ ok is_any)
      × (config_key_checker (codes "environment." ++ rest) ≡ ok is_any)
      × (config_key_checker (codes "image." ++ rest) ≡ ok is_any)
      × (is_any value ≡ ok tt)
unfolding config_key_checker find_checker known_keys bytes_eq is_any
config_key_checker_free rest value =
    (rw (user_free rest), rw (environment_free rest), rw (image_free rest), refl)

-- `IsBool` accepts exactly what `IsTrue` takes for true, the empty value, and the words for false.
pub is_bool_iff :
    (value : Bytes)
    → (is_bool value ≡ ok tt) ↔ (
        (is_true value ≡ true)
        ⊎ ((value ≡ [])
            ⊎ (string_in_slice
                  (to_lower value)
                  (codes "false" ∷ codes "no" ∷ codes "0" ∷ codes "off" ∷ [])
                ≡ true)))
unfolding is_bool is_true string_in_slice
is_bool_iff [] = (λ h. inr (inl refl), λ h. refl)
is_bool_iff (c ∷ s) = (λ h. ground arith, λ h. ground arith)
