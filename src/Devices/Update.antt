-- ===== src/Devices/Update.antt =====
-- An update of devices against the difference of devices key by key.
use apollo_controller.Prelude.{
  ◌≡◌, inl, inr, refl, sym, ap, ◌∙◌, Bool, true, false, ◌&&◌, ◌||◌, Option, none, some, List, [],
  ◌∷◌, if◌then◌else◌, Bool-cases,
}
use apollo_controller.Prelude.Text.{Bytes, codes, bytes_eq, bytes_eq→eq, string_in_slice}
use apollo_controller.Container.{Map, get, Devices}
use apollo_controller.Devices.{
  lookup, agrees, device_equals, without_live, or_empty, is_live_change, update,
}
use apollo_controller.Devices.Changes.{IsMap, at, changed, update-changed}

-- The keys that may change while a device stays.
abbrev pub settable : List Bytes
settable =
    codes "limits.max"
    ∷ codes "limits.read"
    ∷ codes "limits.write"
    ∷ codes "limits.egress"
    ∷ codes "limits.ingress"
    ∷ codes "ipv4.address"
    ∷ codes "ipv6.address"
    ∷ []

-- Two devices have the same value under each of the keys that is not one of `names`.
abbrev pub agree_but : List Bytes → Map → Map → Map → Bool
agree_but names [] d old = true
agree_but names ((k, v) ∷ keys) d old =
    (string_in_slice k names || bytes_eq (get d k) (get old k)) && agree_but names keys d old

-- The same under each key of either.
abbrev pub same_but : List Bytes → Map → Map → Bool
same_but names old d = agree_but names d d old && agree_but names old d old

-- What an update does with a device, from what it was and what it is to be: what is removed, added
-- and updated. A device in which only settable keys change is updated and is neither removed nor added.
abbrev pub change : Option Map → Option Map → Option Map × Option Map × Option Map
change none none = (none, none, none)
change (some o) none = (some o, none, none)
change none (some n) = if same_but settable [] n then (none, none, some n) else (none, some n, none)
change (some o) (some n) =
    if same_but [] o n
    then (none, none, none)
    else if same_but settable o n
    then (none, none, some n)
    else (some o, some n, none)

agrees-agree_but : (keys d old : Map) → agrees keys d old ≡ agree_but [] keys d old
unfolding agrees string_in_slice
agrees-agree_but [] d old = refl
agrees-agree_but ((k, v) ∷ keys) d old = rw (agrees-agree_but keys d old) refl

get-without_live :
    (m : Map) (k : Bytes) → string_in_slice k settable ≡ false → get (without_live m) k ≡ get m k
unfolding get without_live
get-without_live [] k h = refl
get-without_live ((j, v) ∷ m) k h = elim (Bool-cases (string_in_slice j settable)) [
  | inl live ↦ elim (Bool-cases (bytes_eq j k)) [
    | inl e ↦
        let clash = sym live ∙ ap (λ x. string_in_slice x settable) (bytes_eq→eq j k e) ∙ h in cc
    | inr e ↦ rw (live, e) (get-without_live m k h)
  ]
  | inr dead ↦ rw dead (elim (Bool-cases (bytes_eq j k)) [
    | inl e ↦ rw e refl
    | inr e ↦ rw e (get-without_live m k h)
  ])
]

step_nil : (d old : Map) → agrees (without_live []) (without_live d) (without_live old) ≡ true
unfolding agrees without_live
step_nil d old = refl

without_live-cons :
    (k v : Bytes) (keys : Map)
    → without_live ((k, v) ∷ keys)
      ≡ (if string_in_slice k settable then without_live keys else (k, v) ∷ without_live keys)
unfolding without_live
without_live-cons k v keys = refl

step_cons :
    (k v : Bytes) (keys d old : Map)
    → agrees (without_live keys) (without_live d) (without_live old) ≡ agree_but settable keys d old
    → agrees (without_live ((k, v) ∷ keys)) (without_live d) (without_live old)
      ≡ agree_but settable ((k, v) ∷ keys) d old
unfolding agrees
step_cons k v keys d old h = elim (Bool-cases (string_in_slice k settable)) [
  | inl live ↦ rw (without_live-cons k v keys, live) h
  | inr dead ↦
      rw
        (
          without_live-cons k v keys,
          dead,
          get-without_live d k dead,
          get-without_live old k dead,
          h,
        )
        refl
]

agrees-without_live :
    (keys d old : Map)
    → agrees (without_live keys) (without_live d) (without_live old) ≡ agree_but settable keys d old
agrees-without_live [] d old = step_nil d old
agrees-without_live ((k, v) ∷ keys) d old =
    step_cons k v keys d old (agrees-without_live keys d old)

device_equals-same_but : (old d : Map) → device_equals old d ≡ same_but [] old d
unfolding device_equals
device_equals-same_but old d = rw (agrees-agree_but d d old, agrees-agree_but old d old) refl

is_live_change-same_but :
    (old d : Option Map) → is_live_change old d ≡ same_but settable (or_empty old) (or_empty d)
unfolding is_live_change device_equals
is_live_change-same_but old d =
    rw
      (
        agrees-without_live (or_empty d) (or_empty d) (or_empty old),
        agrees-without_live (or_empty old) (or_empty d) (or_empty old),
      )
      refl

changed-change : (o n : Option Map) → changed o n ≡ change o n
changed-change none none = refl
changed-change (some o) none = refl
changed-change none (some n) = rw (is_live_change-same_but none (some n)) refl
changed-change (some o) (some n) =
    rw (device_equals-same_but o n, is_live_change-same_but (some o) (some n)) refl

-- Under each name, the lists that an update of devices removes, adds and updates hold what the
-- device before and the device after tell, where each list of devices has a name once. A device
-- with the same value under each key is in none of the three. One that differs in limits and addresses
-- alone is only updated, and so is a new one that has nothing else; another one that differs is
-- removed and added, one that is no more is removed, and one that is new is added.
pub update-change :
    (old newlist : Devices) (name : Bytes)
    → IsMap old
    → IsMap newlist
    → at (update old newlist) name ≡ change (lookup old name) (lookup newlist name)
update-change old newlist name m n =
    update-changed old newlist name m n ∙ changed-change (lookup old name) (lookup newlist name)
