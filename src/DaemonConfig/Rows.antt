-- ===== src/DaemonConfig/Rows.antt =====
-- The rows of the table `config`, and the keys that they give a value to.
use apollo_controller.Prelude.{
  ◌≡◌, inl, inr, refl, sym, ap, subst, false, not, ◌&&◌, Option, none, some, [], ◌∷◌, arith,
  if◌then◌else◌, Bool-cases,
}
use apollo_controller.Prelude.Text.{Bytes, bytes_eq, bytes_eq_refl, bytes_eq→eq}
use apollo_controller.Container.{Map, get, has}
use apollo_controller.DaemonConfig.{
  Key, Keys, lookup, delete, config_value_set, put_value, load_values,
}

abbrev pub with_value : Bytes → Option Key → Option Key
with_value value none = none
with_value value (some key) = some (record key { current_value = value })

pub lookup-put_value :
    (name value : Bytes) (keys : Keys) (j : Bytes)
    → lookup (put_value name value keys) j
      ≡ (if bytes_eq name j then with_value value (lookup keys j) else lookup keys j)
unfolding lookup put_value
lookup-put_value name value [] j = ground arith
lookup-put_value name value ((k, key) ∷ keys) j = elim (Bool-cases (bytes_eq k name)) [
  | inl e ↦ rw (e, bytes_eq→eq k name e) (ground arith)
  | inr e ↦ elim (Bool-cases (bytes_eq name j)) [
    | inl f ↦ rw (e, sym (bytes_eq→eq name j f), e) (lookup-put_value name value keys name)
    | inr f ↦ rw (e, f, lookup-put_value name value keys j, f) refl
  ]
]

get-delete :
    (key : Bytes) (rows : Map) (j : Bytes)
    → get (delete key rows) j ≡ (if bytes_eq key j then [] else get rows j)
unfolding get delete
get-delete key [] j = ground arith
get-delete key ((k, v) ∷ rows) j = elim (Bool-cases (bytes_eq k key)) [
  | inl e ↦ rw (bytes_eq→eq k key e, bytes_eq_refl key) (ground (arith, get-delete key rows j))
  | inr e ↦ elim (Bool-cases (bytes_eq key j)) [
    | inl f ↦
        rw (e, sym (bytes_eq→eq key j f), e, bytes_eq_refl key)
          (ground (arith, get-delete key rows key, bytes_eq_refl key))
    | inr f ↦ rw e (ground (arith, get-delete key rows j, f))
  ]
]

has-delete :
    (key : Bytes) (rows : Map) (j : Bytes)
    → has (delete key rows) j ≡ not (bytes_eq key j) && has rows j
unfolding has delete
has-delete key [] j = ground arith
has-delete key ((k, v) ∷ rows) j = elim (Bool-cases (bytes_eq k key)) [
  | inl e ↦ rw (bytes_eq→eq k key e, bytes_eq_refl key) (ground (arith, has-delete key rows j))
  | inr e ↦ elim (Bool-cases (bytes_eq key j)) [
    | inl f ↦
        rw (e, sym (bytes_eq→eq key j f), e, bytes_eq_refl key)
          (ground (arith, has-delete key rows key, bytes_eq_refl key))
    | inr f ↦ rw e (ground (arith, has-delete key rows j, f))
  ]
]

pub get-config_value_set :
    (rows : Map) (key value j : Bytes)
    → get (config_value_set rows key value) j ≡ (if bytes_eq key j then value else get rows j)
unfolding config_value_set
get-config_value_set rows key [] j = get-delete key rows j
get-config_value_set rows key (c ∷ s) j = unfold get in ground (arith, get-delete key rows j)

-- Each key has one row.
abbrev pub IsTable : Map → Type 0
IsTable [] = Unit
IsTable ((k, v) ∷ rows) = (has rows k ≡ false) × IsTable rows

delete-IsTable : (key : Bytes) (rows : Map) → IsTable rows → IsTable (delete key rows)
unfolding delete
delete-IsTable key [] t = tt
delete-IsTable key ((k, v) ∷ rows) t = elim (Bool-cases (bytes_eq k key)) [
  | inl e ↦ rw e (delete-IsTable key rows t.1)
  | inr e ↦ rw e (ground (arith, has-delete key rows k, t.0), delete-IsTable key rows t.1)
]

pub config_value_set-IsTable :
    (rows : Map) (key value : Bytes) → IsTable rows → IsTable (config_value_set rows key value)
unfolding config_value_set
config_value_set-IsTable rows key [] t = delete-IsTable key rows t
config_value_set-IsTable rows key (c ∷ s) t =
    (ground (arith, has-delete key rows key, bytes_eq_refl key), delete-IsTable key rows t)

pub lookup-load_values :
    (rows : Map) (keys : Keys) (j : Bytes)
    → IsTable rows
    → lookup (load_values rows keys) j
      ≡ (if has rows j then with_value (get rows j) (lookup keys j) else lookup keys j)
unfolding load_values has get
lookup-load_values [] keys j t = refl
lookup-load_values ((k, v) ∷ rows) keys j t = elim (Bool-cases (bytes_eq k j)) [
  | inl e ↦
      rw
        (
          lookup-load_values rows (put_value k v keys) j t.1,
          lookup-put_value k v keys j,
          e,
          subst (λ x. has rows x ≡ false) (bytes_eq→eq k j e) t.0,
        )
        refl
  | inr e ↦
      rw (lookup-load_values rows (put_value k v keys) j t.1, lookup-put_value k v keys j, e) refl
]

-- No key of the table of keys has a value yet.
abbrev pub IsFresh : Keys → Type 0
IsFresh [] = Unit
IsFresh ((k, key) ∷ keys) = (key.current_value ≡ []) × IsFresh keys

pub lookup-IsFresh :
    (keys : Keys) (j : Bytes) → IsFresh keys → with_value [] (lookup keys j) ≡ lookup keys j
unfolding lookup
lookup-IsFresh [] j f = refl
lookup-IsFresh ((k, key) ∷ keys) j f = elim (Bool-cases (bytes_eq k j)) [
  | inl e ↦ rw e (ap (λ v. some (record key { current_value = v })) (sym f.0))
  | inr e ↦ rw e (lookup-IsFresh keys j f.1)
]
