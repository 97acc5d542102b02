-- ===== src/Devices/Profile.antt =====
-- What a profile adds to the devices of a container.
use apollo_controller.Prelude.{
  ◌≡◌, ◌⊎◌, inl, inr, refl, ap, subst, true, false, Option, none, some, [], ◌∷◌, if◌then◌else◌,
  Bool-cases,
}
use apollo_controller.Prelude.Text.{Bytes, bytes_eq, bytes_eq→eq}
use apollo_controller.Container.{Map, Devices}
use apollo_controller.Devices.{lookup, put, or_new, extend_from_profile}
use apollo_controller.Devices.Changes.{IsMap, lookup-remove}

lookup-put :
    (k : Bytes) (d : Map) (list : Devices) (j : Bytes)
    → lookup (put k d list) j ≡ (if bytes_eq k j then some d else lookup list j)
unfolding lookup
lookup-put k d list j = elim (Bool-cases (bytes_eq k j)) [
  | inl e ↦ rw e refl
  | inr e ↦ rw (e, lookup-remove list k j, e) refl
]

abbrev extended : Option Map → Option Map → Option Map → Option Map
extended none cur base = base
extended (some new_dev) cur base = some (or_new cur new_dev)

-- Extending devices from a profile that has each name once gives every name of the profile the
-- device that is there under it now, or else the profile's, and leaves the other names alone.
pub extend_from_profile-extended :
    (base current profile : Devices) (name : Bytes)
    → IsMap profile
    → lookup (extend_from_profile base current profile) name
      ≡ extended (lookup profile name) (lookup current name) (lookup base name)
unfolding extend_from_profile
extend_from_profile-extended base current [] name m = unfold lookup in refl
extend_from_profile-extended base current ((key, d) ∷ profile) name m =
    rw
      (
        extend_from_profile-extended (put key (or_new (lookup current key) d) base) current profile
            name m.1,
        lookup-put key (or_new (lookup current key) d) base name,
      )
      (cases (Bool-cases (bytes_eq key name)))
  where
    cases :
        (bytes_eq key name ≡ true) ⊎ (bytes_eq key name ≡ false)
        → extended
            (lookup profile name)
            (lookup current name)
            (if bytes_eq key name then some (or_new (lookup current key) d) else lookup base name)
          ≡ extended (lookup ((key, d) ∷ profile) name) (lookup current name) (lookup base name)
    cases (inl e) =
        rw (subst (λ x. lookup profile x ≡ none) (bytes_eq→eq key name e) m.0, e)
          (unfold lookup in
            rw e (ap (λ x. some (or_new (lookup current x) d)) (bytes_eq→eq key name e)))
    cases (inr e) = unfold lookup in rw e refl
