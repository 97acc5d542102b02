-- ===== src/Expanded/Layers.antt =====
-- Which of the values under a key a container gets.
use apollo_controller.Prelude.{
  ◌≡◌, inl, inr, refl, sym, ap, subst, ◌∙◌, Bool, true, false, Option, none, some, List, [], ◌∷◌,
  map, if◌then◌else◌, Bool-cases, All, Result, ok,
}
use apollo_controller.Prelude.Text.{Bytes, bytes_eq, bytes_eq→eq, bytes_eq_refl}
use apollo_controller.Expanded.{value_at, assign, assign_all, profiles_loop, expand}

module _ {ℓ} {A : Type ℓ} where
  value_at-assign :
      (key : Bytes) (v : A) (m : List (Bytes × A)) (j : Bytes)
      → value_at (assign key v m) j ≡ (if bytes_eq key j then some v else value_at m j)
  unfolding value_at assign
  value_at-assign key v [] j = refl
  value_at-assign key v ((k, w) ∷ m) j = elim (Bool-cases (bytes_eq k key)) [
    | inl e ↦ rw (e, bytes_eq→eq k key e) (choose (bytes_eq key j))
    | inr e ↦ elim (Bool-cases (bytes_eq key j)) [
      | inl f ↦
          rw (e, sym (bytes_eq→eq key j f), e, bytes_eq_refl key)
            (value_at-assign key v m key ∙ rw (bytes_eq_refl key) refl)
      | inr f ↦ rw (e, f, value_at-assign key v m j, f) refl
    ]
  ]
    where
      choose :
          (b : Bool)
          → (if b then some v else value_at m j)
            ≡ (if b then some v else if b then some w else value_at m j)
      choose true = refl
      choose false = refl

  -- Each key once, as in a Go map.
  abbrev pub IsMap : List (Bytes × A) → Type ℓ
  IsMap [] = Unit
  IsMap ((k, v) ∷ m) = (value_at m k ≡ none) × IsMap m

  -- The first of two, where there is one.
  abbrev pub over : Option A → Option A → Option A
  over (some v) under = some v
  over none under = under

  value_at-assign_all :
      (entries m : List (Bytes × A)) (j : Bytes)
      → IsMap entries
      → value_at (assign_all entries m) j ≡ over (value_at entries j) (value_at m j)
  unfolding assign_all value_at
  value_at-assign_all [] m j u = refl
  value_at-assign_all ((k, v) ∷ entries) m j u = elim (Bool-cases (bytes_eq k j)) [
    | inl e ↦
        rw
          (
            value_at-assign_all entries (assign k v m) j u.1,
            value_at-assign k v m j,
            e,
            subst (λ x. value_at entries x ≡ none) (bytes_eq→eq k j e) u.0,
          )
          refl
    | inr e ↦ rw (value_at-assign_all entries (assign k v m) j u.1, value_at-assign k v m j, e) refl
  ]

  -- The names of profiles that stand with what the database has of them.
  abbrev pub names : List (Bytes × List (Bytes × A)) → List Bytes
  names loaded = map (λ p. p.0) loaded

  -- A profile is read without an error, as a map with distinct keys.
  abbrev pub IsRead : (Bytes → Result Bytes (List (Bytes × A))) → Bytes × List (Bytes × A) → Type ℓ
  IsRead profile p = (profile p.0 ≡ ok p.1) × IsMap p.1

  -- The value under a key of the last profile that has it.
  unfoldable pub last_profile : List (Bytes × List (Bytes × A)) → Bytes → Option A
  last_profile [] key = none
  last_profile ((name, entries) ∷ loaded) key =
      over (last_profile loaded key) (value_at entries key)

  over_assoc : (a b c : Option A) → over a (over b c) ≡ over (over a b) c
  over_assoc (some v) b c = refl
  over_assoc none b c = refl

  over-none : (o : Option A) (key : Bytes) → over o (value_at [] key) ≡ o
  unfolding value_at
  over-none none key = refl
  over-none (some v) key = refl

  profiles_loop-last :
      (profile : Bytes → Result Bytes (List (Bytes × A))) (loaded : List (Bytes × List (Bytes × A)))
      (m : List (Bytes × A))
      → All (IsRead profile) loaded
      → (result : List (Bytes × A)) × (profiles_loop profile (names loaded) m ≡ ok result)
        × ((key : Bytes) → value_at result key ≡ over (last_profile loaded key) (value_at m key))
  unfolding profiles_loop last_profile
  profiles_loop-last profile [] m r = (m, refl, λ key. refl)
  profiles_loop-last profile ((name, entries) ∷ loaded) m r =
      let (result, e, k) = profiles_loop-last profile loaded (assign_all entries m) r.1 in
      (
        result,
        rw r.0.0 e,
        λ key.
            k key
            ∙ ap (over (last_profile loaded key)) (value_at-assign_all entries m key r.0.1)
            ∙ over_assoc (last_profile loaded key) (value_at entries key) (value_at m key),
      )

  -- Where its profiles can be read, a container has under each key what it sets itself, or else what
  -- the last of its profiles that has the key says, or else nothing; this is so of its configuration
  -- and of its devices, in whatever order the maps are visited. Each map has distinct keys.
  pub expand-over :
      (profile : Bytes → Result Bytes (List (Bytes × A))) (loaded : List (Bytes × List (Bytes × A)))
      (local : List (Bytes × A))
      → All (IsRead profile) loaded
      → IsMap local
      → (expanded : List (Bytes × A)) × (expand profile (names loaded) local ≡ ok expanded)
        × ((key : Bytes)
            → value_at expanded key ≡ over (value_at local key) (last_profile loaded key))
  unfolding expand
  expand-over profile loaded local r l =
      let (m, e, k) = profiles_loop-last profile loaded [] r in
      (
        assign_all local m,
        rw e refl,
        λ key.
            value_at-assign_all local m key l
            ∙ ap (over (value_at local key)) (k key ∙ over-none (last_profile loaded key) key),
      )
