-- ===== src/Devices/Changes.antt =====
-- What the three lists of an update hold under each name, in the words of the code.
use apollo_controller.Prelude.{
  ◌≡◌, ◌⊎◌, inl, inr, refl, subst, Bool, true, false, not, Option, none, some, [], ◌∷◌, arith,
  if◌then◌else◌, Bool-cases,
}
use apollo_controller.Prelude.Text.{Bytes, bytes_eq, bytes_eq→eq, bytes_eq_iff}
use apollo_controller.Container.{Map, get, Devices}
use apollo_controller.Devices.{
  lookup, remove, keep, agrees, device_equals, equals_in, contains, is_live_change, Lists, updated,
  update_loop, added, update,
}

-- Each key once, as in a Go map.
abbrev pub IsMap : Devices → Type 0
IsMap [] = Unit
IsMap ((k, d) ∷ list) = (lookup list k ≡ none) × IsMap list

pub lookup-remove :
    (list : Devices) (k j : Bytes)
    → lookup (remove k list) j ≡ (if bytes_eq k j then none else lookup list j)
unfolding lookup remove
lookup-remove [] k j = ground arith
lookup-remove ((key, d) ∷ list) k j =
    ground (arith, bytes_eq_iff key k, bytes_eq_iff key j, bytes_eq_iff k j, lookup-remove list k j)

abbrev kept : (Bytes → Map → Bool) → Bytes → Option Map → Option Map
kept p k none = none
kept p k (some d) = if p k d then some d else none

lookup-keep :
    (p : Bytes → Map → Bool) (list : Devices) (k : Bytes)
    → IsMap list
    → lookup (keep p list) k ≡ kept p k (lookup list k)
unfolding lookup keep
lookup-keep p [] k m = refl
lookup-keep p ((key, d) ∷ list) k m = elim (Bool-cases (bytes_eq key k)) [
  | inl e ↦ elim (Bool-cases (p key d)) [
    | inl h ↦ rw (h, e) (rw (subst (λ x. p x d ≡ true) (bytes_eq→eq key k e) h) refl)
    | inr h ↦
        rw
          (
            h,
            e,
            lookup-keep p list k m.1,
            subst (λ x. lookup list x ≡ none) (bytes_eq→eq key k e) m.0,
          )
          (rw (subst (λ x. p x d ≡ false) (bytes_eq→eq key k e) h) refl)
  ]
  | inr e ↦ elim (Bool-cases (p key d)) [
    | inl h ↦ rw (h, e, lookup-keep p list k m.1) refl
    | inr h ↦ rw (h, e, lookup-keep p list k m.1) refl
  ]
]

-- The three lists at one name.
abbrev pub at : Lists → Bytes → Option Map × Option Map × Option Map
at s j = (lookup s.rmlist j, lookup s.addlist j, lookup s.updatelist j)

abbrev settle :
    Option Map
    → Option Map
    → Option Map × Option Map × Option Map
    → Option Map × Option Map × Option Map
settle none n s = s
settle (some d) n s = if is_live_change s.0 n then (none, none, some d) else s

at-updated :
    (s : Lists) (key : Bytes) (d : Map) (j : Bytes)
    → at (updated key d s) j ≡ (if bytes_eq key j then (none, none, some d) else at s j)
unfolding lookup
at-updated s key d j = elim (Bool-cases (bytes_eq key j)) [
  | inl e ↦ rw (lookup-remove s.rmlist key j, lookup-remove s.addlist key j, e) refl
  | inr e ↦ rw (lookup-remove s.rmlist key j, lookup-remove s.addlist key j, e) refl
]

update_loop-settle :
    (newlist rest : Devices) (s : Lists) (j : Bytes)
    → IsMap rest
    → at (update_loop newlist rest s) j ≡ settle (lookup rest j) (lookup newlist j) (at s j)
unfolding update_loop
update_loop-settle newlist [] s j m = unfold lookup in refl
update_loop-settle newlist ((key, d) ∷ rest) s j m =
    elim (Bool-cases (is_live_change (lookup s.rmlist key) (lookup newlist key))) [
      | inl l ↦
          rw (l, update_loop-settle newlist rest (updated key d s) j m.1)
            (live l (Bool-cases (bytes_eq key j)))
      | inr l ↦
          rw (l, update_loop-settle newlist rest s j m.1) (dead l (Bool-cases (bytes_eq key j)))
    ]
  where
    none_left : bytes_eq key j ≡ true → lookup rest j ≡ none
    none_left e = subst (λ x. lookup rest x ≡ none) (bytes_eq→eq key j e) m.0

    moved :
        (b : Bool)
        → bytes_eq key j ≡ true
        → is_live_change (lookup s.rmlist key) (lookup newlist key) ≡ b
        → is_live_change (lookup s.rmlist j) (lookup newlist j) ≡ b
    moved b e l =
        subst (λ x. is_live_change (lookup s.rmlist x) (lookup newlist x) ≡ b) (bytes_eq→eq key j e)
          l

    live :
        is_live_change (lookup s.rmlist key) (lookup newlist key) ≡ true
        → (bytes_eq key j ≡ true) ⊎ (bytes_eq key j ≡ false)
        → settle (lookup rest j) (lookup newlist j) (at (updated key d s) j)
          ≡ settle (lookup ((key, d) ∷ rest) j) (lookup newlist j) (at s j)
    live l (inl e) =
        rw (at-updated s key d j, none_left e, e) (unfold lookup in rw (e, moved true e l) refl)
    live l (inr e) = rw (at-updated s key d j, e) (unfold lookup in rw e refl)

    dead :
        is_live_change (lookup s.rmlist key) (lookup newlist key) ≡ false
        → (bytes_eq key j ≡ true) ⊎ (bytes_eq key j ≡ false)
        → settle (lookup rest j) (lookup newlist j) (at s j)
          ≡ settle (lookup ((key, d) ∷ rest) j) (lookup newlist j) (at s j)
    dead l (inl e) = rw (none_left e) (unfold lookup in rw (e, moved false e l) refl)
    dead l (inr e) = unfold lookup in rw e refl

abbrev pub changed : Option Map → Option Map → Option Map × Option Map × Option Map
changed none none = (none, none, none)
changed (some o) none = (some o, none, none)
changed none (some n) =
    if is_live_change none (some n) then (none, none, some n) else (none, some n, none)
changed (some o) (some n) =
    if device_equals o n
    then (none, none, none)
    else if is_live_change (some o) (some n)
    then (none, none, some n)
    else (some o, some n, none)

agrees_sym : (keys d old : Map) → agrees keys d old ≡ agrees keys old d
unfolding agrees
agrees_sym [] d old = refl
agrees_sym ((k, v) ∷ keys) d old =
    ground (arith, agrees_sym keys d old, bytes_eq_sym (get d k) (get old k))
  where
    bytes_eq_sym : (a b : Bytes) → bytes_eq a b ≡ bytes_eq b a
    bytes_eq_sym a b = ground (arith, bytes_eq_iff a b, bytes_eq_iff b a)

device_equals_sym : (old d : Map) → device_equals old d ≡ device_equals d old
unfolding device_equals
device_equals_sym old d = ground (arith, agrees_sym d d old, agrees_sym old d old)

keep-IsMap : (p : Bytes → Map → Bool) (list : Devices) → IsMap list → IsMap (keep p list)
unfolding keep
keep-IsMap p [] m = tt
keep-IsMap p ((key, d) ∷ list) m = elim (Bool-cases (p key d)) [
  | inl h ↦ rw h (fresh (lookup list key) refl, keep-IsMap p list m.1)
  | inr h ↦ rw h (keep-IsMap p list m.1)
]
  where
    fresh : (o : Option Map) → lookup list key ≡ o → lookup (keep p list) key ≡ none
    fresh o e = rw (lookup-keep p list key m.1, m.0) refl

-- The device under a name in one list, where the other list does not hold its equal.
abbrev differing : Bytes → Option Map → Option Map → Option Map
differing name a b = kept (λ key d. not (equals_in a d)) name b

settle-changed :
    (name : Bytes) (o n : Option Map)
    → settle (differing name o n) n (differing name n o, differing name o n, none) ≡ changed o n
settle-changed name none none = refl
settle-changed name (some o) none = refl
settle-changed name none (some n) = refl
settle-changed name (some o) (some n) = elim (Bool-cases (device_equals o n)) [
  | inl e ↦ rw (device_equals_sym n o, e) refl
  | inr e ↦ rw (device_equals_sym n o, e) refl
]

pub update-changed :
    (old newlist : Devices) (name : Bytes)
    → IsMap old
    → IsMap newlist
    → at (update old newlist) name ≡ changed (lookup old name) (lookup newlist name)
unfolding update
update-changed old newlist name m n =
    rw
      (
        update_loop-settle newlist (added old newlist) _ name (keep-IsMap _ newlist n),
        lookup-keep (λ key d. not (contains newlist key d)) old name m,
        lookup-keep (λ key d. not (contains old key d)) newlist name n,
      )
      (unfold contains lookup in settle-changed name (lookup old name) (lookup newlist name))
