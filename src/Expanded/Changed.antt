-- ===== src/Expanded/Changed.antt =====
-- Which keys Update takes for changed.
use apollo_controller.Prelude.{
  ◌≡◌, ◌≢◌, ◌↔◌, inl, inr, sym, ◌∙◌, Bool, true, not, ◌&&◌, ◌||◌, List, [], ◌∷◌, ◌++◌, arith,
  Bool-cases,
}
use apollo_controller.Prelude.Text.{
  Bytes, bytes_eq, bytes_eq→eq, bytes_eq_refl, bytes_eq_iff, string_in_slice,
}
use apollo_controller.Container.{Map, get, has, get-missing}
use apollo_controller.Expanded.{changed_loop, changed_config}

in_slice-snoc :
    (j : Bytes) (list : List Bytes) (key : Bytes)
    → string_in_slice j (list ++ (key ∷ [])) ≡ string_in_slice j list || bytes_eq key j
unfolding string_in_slice
in_slice-snoc j [] key = ground arith
in_slice-snoc j (x ∷ list) key = ground (arith, in_slice-snoc j list key)

abbrev differ : Map → Map → Bytes → Bool
differ old new j = not (bytes_eq (get old j) (get new j))

changed_loop-in :
    (keys old new : Map) (changed : List Bytes) (j : Bytes)
    → string_in_slice j (changed_loop keys old new changed)
      ≡ string_in_slice j changed || (has keys j && differ old new j)
unfolding changed_loop has
changed_loop-in [] old new changed j = ground arith
changed_loop-in ((key, v) ∷ keys) old new changed j = elim (Bool-cases (bytes_eq key j)) [
  | inl e ↦ rw (sym (bytes_eq→eq key j e)) (
      ground (
        arith,
        changed_loop-in keys old new changed key,
        changed_loop-in keys old new (changed ++ (key ∷ [])) key,
        in_slice-snoc key changed key,
        bytes_eq_refl key,
      ))
  | inr e ↦ ground (
    arith,
    changed_loop-in keys old new changed j,
    changed_loop-in keys old new (changed ++ (key ∷ [])) j,
    in_slice-snoc j changed key,
    e,
  )
]

-- Update takes a key for changed exactly where its values differ, an unset key having the empty
-- value.
pub changed_config_iff :
    (old new : Map) (key : Bytes)
    → (string_in_slice key (changed_config old new) ≡ true) ↔ (get old key ≢ get new key)
unfolding changed_config string_in_slice
changed_config_iff old new key = (there, back)
  where
    found :
        string_in_slice key (changed_config old new)
        ≡ ((has old key || has new key) && differ old new key)
    found =
        changed_loop-in new old new (changed_loop old old new []) key
        ∙ ground (arith, changed_loop-in old old new [] key)

    there : string_in_slice key (changed_config old new) ≡ true → get old key ≢ get new key
    there h e = ground (arith, found, h, bytes_eq_iff (get old key) (get new key), e)

    back : get old key ≢ get new key → string_in_slice key (changed_config old new) ≡ true
    back d = ground (
      arith,
      found,
      d,
      get-missing old key,
      get-missing new key,
      bytes_eq_iff (get old key) (get new key),
    )
