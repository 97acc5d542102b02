-- ===== src/Devices.antt =====
-- apollo/types/devices.go: what changes between two lists of devices. A map of devices is the list
-- of its pairs, and a device that is nil is not told from one that is missing.
pub mod Changes
pub mod Update
pub mod Profile
use apollo_controller.Prelude.{
  ℕ, zero, suc, ◌+◌, ◌-◌, ◌*◌, ◌/◌, ◌%◌, ◌^◌, ◌≤◌, ◌<◌, ◌≡◌, ◌≢◌, ◌↔◌, ◌⊎◌, inl, inr, refl, sym, ap,
  ap₂, subst, ◌∙◌, Bool, true, false, not, ◌&&◌, ◌||◌, Option, none, some, List, [], ◌∷◌, ◌++◌, map,
  append_assoc, append-nil, arith, ltb, leb, ◌==◌, if◌then◌else◌, bool_eq, Bool-cases, Option-cases,
  ==_iff, length, take, drop, length-append, take-length-append, drop-length-append, All,
  All-append, Result, ok, err, ◌>>=◌, ◌>>◌, guard, or_fail, >>=-eq-ok, ok-injective,
}
use apollo_controller.Prelude.Text.{Bytes, codes, bytes_eq, string_in_slice}
use apollo_controller.Container.{Map, get, Devices}

unfoldable pub lookup : Devices → Bytes → Option Map
lookup [] k = none
lookup ((key, d) ∷ list) k = if bytes_eq key k then some d else lookup list k

-- `delete(list, k)`, and the entries that a test lets stay.
unfoldable pub remove : Bytes → Devices → Devices
remove k [] = []
remove k ((key, d) ∷ list) =
    let rest = remove k list in if bytes_eq key k then rest else (key, d) ∷ rest

unfoldable pub keep : (Bytes → Map → Bool) → Devices → Devices
keep p [] = []
keep p ((key, d) ∷ list) = let rest = keep p list in if p key d then (key, d) ∷ rest else rest

-- The loop over the keys of `d`: no value differs.
unfoldable pub agrees : Map → Map → Map → Bool
agrees [] d old = true
agrees ((k, v) ∷ keys) d old = bytes_eq (get d k) (get old k) && agrees keys d old

unfoldable pub device_equals : Map → Map → Bool
device_equals old d = agrees d d old && agrees old d old

abbrev pub equals_in : Option Map → Map → Bool
equals_in none d = false
equals_in (some old) d = device_equals old d

unfoldable pub contains : Devices → Bytes → Map → Bool
contains list k d = equals_in (lookup list k) d

-- The keys that can be changed while a device stays.
abbrev pub live_keys : List Bytes
live_keys =
    codes "limits.max"
    ∷ codes "limits.read"
    ∷ codes "limits.write"
    ∷ codes "limits.egress"
    ∷ codes "limits.ingress"
    ∷ codes "ipv4.address"
    ∷ codes "ipv6.address"
    ∷ []

unfoldable pub without_live : Map → Map
without_live [] = []
without_live ((k, v) ∷ m) =
    let rest = without_live m in if string_in_slice k live_keys then rest else (k, v) ∷ rest

-- `list[key]`, the empty device where it is missing.
abbrev pub or_empty : Option Map → Map
or_empty none = []
or_empty (some d) = d

unfoldable pub is_live_change : Option Map → Option Map → Bool
is_live_change old d = device_equals (without_live (or_empty old)) (without_live (or_empty d))

pub record Lists : Type 0 where
  pub rmlist : Devices
  pub addlist : Devices
  pub updatelist : Devices

abbrev pub updated : Bytes → Map → Lists → Lists
updated key d s = record {
  rmlist = remove key s.rmlist;
  addlist = remove key s.addlist;
  updatelist = (key, d) ∷ s.updatelist;
}

-- The loop over `addlist`, with the three lists as they are so far.
unfoldable pub update_loop : Devices → Devices → Lists → Lists
update_loop newlist [] s = s
update_loop newlist ((key, d) ∷ rest) s =
    if is_live_change (lookup s.rmlist key) (lookup newlist key)
    then update_loop newlist rest (updated key d s)
    else update_loop newlist rest s

abbrev pub removed : Devices → Devices → Devices
removed old newlist = keep (λ key d. not (contains newlist key d)) old

abbrev pub added : Devices → Devices → Devices
added old newlist = keep (λ key d. not (contains old key d)) newlist

unfoldable pub update : Devices → Devices → Lists
update old newlist =
    update_loop newlist (added old newlist)
      (record { rmlist = removed old newlist; addlist = added old newlist; updatelist = [] })

abbrev pub put : Bytes → Map → Devices → Devices
put k d list = (k, d) ∷ remove k list

abbrev pub or_new : Option Map → Map → Map
or_new none new_dev = new_dev
or_new (some cur_dev) new_dev = cur_dev

unfoldable pub extend_from_profile : Devices → Devices → Devices → Devices
extend_from_profile base current [] = base
extend_from_profile base current ((name, new_dev) ∷ profile) =
    extend_from_profile (put name (or_new (lookup current name) new_dev) base) current profile
