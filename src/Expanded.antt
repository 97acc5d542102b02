-- ===== src/Expanded.antt =====
-- What a container has from its profiles and by itself: expandConfig, expandDevices and the
-- difference of configurations that Update computes, of apollo/container_mercury.go. The profiles in
-- the database are a parameter.
pub mod Layers
pub mod Changed
use apollo_controller.Prelude.{
  ℕ, zero, suc, ◌+◌, ◌-◌, ◌*◌, ◌/◌, ◌%◌, ◌^◌, ◌≤◌, ◌<◌, ◌≡◌, ◌≢◌, ◌↔◌, ◌⊎◌, inl, inr, refl, sym, ap,
  ap₂, subst, ◌∙◌, Bool, true, false, not, ◌&&◌, ◌||◌, Option, none, some, List, [], ◌∷◌, ◌++◌, map,
  append_assoc, append-nil, arith, ltb, leb, ◌==◌, if◌then◌else◌, bool_eq, Bool-cases, Option-cases,
  ==_iff, length, take, drop, length-append, take-length-append, drop-length-append, All,
  All-append, All-imp, Result, ok, err, ◌>>=◌, ◌>>◌, guard, or_fail, >>=-eq-ok, ok-injective,
}
use apollo_controller.Prelude.Text.{Bytes, bytes_eq, string_in_slice}
use apollo_controller.Container.{Map, Devices, get}

-- A Go map: its pairs.
unfoldable pub value_at {ℓ} : {A : Type ℓ} → List (Bytes × A) → Bytes → Option A
value_at [] key = none
value_at ((k, v) ∷ m) key = if bytes_eq k key then some v else value_at m key

-- `m[key] = v`.
unfoldable pub assign {ℓ} : {A : Type ℓ} → Bytes → A → List (Bytes × A) → List (Bytes × A)
assign key v [] = (key, v) ∷ []
assign key v ((k, w) ∷ m) =
    let rest = assign key v m in if bytes_eq k key then (key, v) ∷ m else (k, w) ∷ rest

unfoldable pub assign_all {ℓ} :
    {A : Type ℓ} → List (Bytes × A) → List (Bytes × A) → List (Bytes × A)
assign_all [] m = m
assign_all ((k, v) ∷ entries) m = assign_all entries (assign k v m)

-- The loop over the names of the profiles; `profile` reads one from the database.
unfoldable pub profiles_loop {ℓ} :
    {A : Type ℓ}
    → (Bytes → Result Bytes (List (Bytes × A)))
    → List Bytes
    → List (Bytes × A)
    → Result Bytes (List (Bytes × A))
profiles_loop profile [] m = ok m
profiles_loop profile (name ∷ names) m =
    profile name >>= λ entries. profiles_loop profile names (assign_all entries m)

unfoldable pub expand {ℓ} :
    {A : Type ℓ}
    → (Bytes → Result Bytes (List (Bytes × A)))
    → List Bytes
    → List (Bytes × A)
    → Result Bytes (List (Bytes × A))
expand profile profiles local = profiles_loop profile profiles [] >>= λ m. ok (assign_all local m)

abbrev pub expand_config : (Bytes → Result Bytes Map) → List Bytes → Map → Result Bytes Map
expand_config profile_config profiles local_config = expand profile_config profiles local_config

abbrev pub expand_devices :
    (Bytes → Result Bytes Devices) → List Bytes → Devices → Result Bytes Devices
expand_devices profile_devices profiles local_devices =
    expand profile_devices profiles local_devices

-- One of the two loops of Update that collect the keys of changed values.
unfoldable pub changed_loop : Map → Map → Map → List Bytes → List Bytes
changed_loop [] old new changed = changed
changed_loop ((key, v) ∷ keys) old new changed =
    let same = changed_loop keys old new changed in
    let more = changed_loop keys old new (changed ++ (key ∷ [])) in
    if bytes_eq (get old key) (get new key)
    then same
    else if string_in_slice key changed
    then same
    else more

unfoldable pub changed_config : Map → Map → List Bytes
changed_config old new = changed_loop new old new (changed_loop old old new [])
