-- ===== src/Config.antt =====
-- shared/container.go, with `IsTrue` of shared/util.go: which configuration keys a container may
-- have, and which values each may take. The text of an error is left out.
pub mod Values
use apollo_controller.Prelude.{
  ℕ, zero, suc, ◌+◌, ◌-◌, ◌*◌, ◌/◌, ◌%◌, ◌^◌, ◌≤◌, ◌<◌, ◌≡◌, ◌≢◌, ◌↔◌, ◌⊎◌, inl, inr, refl, sym, ap,
  ap₂, subst, ◌∙◌, Bool, true, false, not, ◌&&◌, ◌||◌, Option, none, some, List, [], ◌∷◌, ◌++◌, map,
  append_assoc, append-nil, arith, ltb, leb, ◌==◌, if◌then◌else◌, bool_eq, Bool-cases, Option-cases,
  ==_iff, length, take, drop, length-append, take-length-append, drop-length-append, All,
  All-append, Result, ok, err, ◌>>=◌, ◌>>◌, guard, or_fail, >>=-eq-ok, ok-injective,
}
use apollo_controller.Prelude.Int.{ℤ, pos, ltb_ℤ}
use apollo_controller.Prelude.Text.{
  Bytes, codes, bytes_eq, string_in_slice, has_prefix, has_suffix, trim_suffix, to_lower, split_two,
}
use apollo_controller.Prelude.Number.{parse_int, parse_uint}
use apollo_controller.Size.{parse_byte_size_string}

pub data Error : Type 0 where
  not_integer not_uint32 not_priority not_boolean not_listed bad_allowance bad_size bad_key : Error

abbrev pub Checked : Type 0
Checked = Result Error (Unit {0})

abbrev pub some_or {ℓ} : {A : Type ℓ} → Option A → Error → Checked
some_or none e = err e
some_or (some a) e = ok tt

unfoldable pub is_int64 : Bytes → Checked
is_int64 [] = ok tt
is_int64 (c ∷ s) = some_or (parse_int (c ∷ s)) not_integer

unfoldable pub is_uint32 : Bytes → Checked
is_uint32 [] = ok tt
is_uint32 (c ∷ s) = some_or (parse_uint (c ∷ s) 32) not_uint32

unfoldable pub is_priority : Bytes → Checked
is_priority [] = ok tt
is_priority (c ∷ s) = do
  value_int ← or_fail (parse_int (c ∷ s)) not_integer
  guard (not (ltb_ℤ value_int (pos 0) || ltb_ℤ (pos 10) value_int)) not_priority
  ok tt

abbrev pub truths : List Bytes
truths = codes "true" ∷ codes "1" ∷ codes "yes" ∷ codes "on" ∷ []

abbrev pub booleans : List Bytes
booleans =
    codes "true"
    ∷ codes "false"
    ∷ codes "yes"
    ∷ codes "no"
    ∷ codes "1"
    ∷ codes "0"
    ∷ codes "on"
    ∷ codes "off"
    ∷ []

unfoldable pub is_bool : Bytes → Checked
is_bool [] = ok tt
is_bool (c ∷ s) = guard (string_in_slice (to_lower (c ∷ s)) booleans) not_boolean

unfoldable pub is_true : Bytes → Bool
is_true value = if string_in_slice (to_lower value) truths then true else false

unfoldable pub is_one_of : Bytes → List Bytes → Checked
is_one_of [] valid = ok tt
is_one_of (c ∷ s) valid = guard (string_in_slice (c ∷ s) valid) not_listed

unfoldable pub is_any : Bytes → Checked
is_any value = ok tt

abbrev pub time_based : List Bytes → Checked
time_based (quota ∷ period ∷ []) = do
  some_or (parse_int (trim_suffix quota (codes "ms"))) bad_allowance
  some_or (parse_int (trim_suffix period (codes "ms"))) bad_allowance
time_based _ = err bad_allowance

-- `limits.cpu.allowance`: a percentage, or a time quota in a period.
unfoldable pub is_allowance : Bytes → Checked
is_allowance [] = ok tt
is_allowance (c ∷ s) =
    if has_suffix (c ∷ s) (codes "%")
    then some_or (parse_int (trim_suffix (c ∷ s) (codes "%"))) bad_allowance
    else time_based (split_two b'/' (c ∷ s))

abbrev pub is_ok {ℓ κ} : {E : Type ℓ} {A : Type κ} → Result E A → Bool
is_ok (ok a) = true
is_ok (err e) = false

unfoldable pub is_size : Bytes → Checked
is_size value = guard (is_ok (parse_byte_size_string value)) bad_size

-- `limits.memory`: a percentage or a size.
unfoldable pub is_memory : Bytes → Checked
is_memory [] = ok tt
is_memory (c ∷ s) =
    if has_suffix (c ∷ s) (codes "%")
    then some_or (parse_int (trim_suffix (c ∷ s) (codes "%"))) not_integer
    else is_size (c ∷ s)

unfoldable pub is_enforce : Bytes → Checked
is_enforce value = is_one_of value (codes "soft" ∷ codes "hard" ∷ [])

abbrev pub Checker : Type 0
Checker = Bytes → Checked

unfoldable pub known_keys : List (Bytes × Checker)
known_keys =
    (codes "boot.autostart", is_bool)
    ∷ (codes "boot.autostart.delay", is_int64)
    ∷ (codes "boot.autostart.priority", is_int64)
    ∷ (codes "boot.host_shutdown_timeout", is_int64)
    ∷ (codes "limits.cpu", is_any)
    ∷ (codes "limits.cpu.allowance", is_allowance)
    ∷ (codes "limits.cpu.priority", is_priority)
    ∷ (codes "limits.disk.priority", is_priority)
    ∷ (codes "limits.memory", is_memory)
    ∷ (codes "limits.memory.enforce", is_enforce)
    ∷ (codes "limits.memory.swap", is_bool)
    ∷ (codes "limits.memory.swap.priority", is_priority)
    ∷ (codes "limits.network.priority", is_priority)
    ∷ (codes "limits.processes", is_int64)
    ∷ (codes "linux.kernel_modules", is_any)
    ∷ (codes "security.nesting", is_bool)
    ∷ (codes "security.privileged", is_bool)
    ∷ (codes "security.idmap.base", is_uint32)
    ∷ (codes "security.idmap.isolated", is_bool)
    ∷ (codes "security.idmap.size", is_uint32)
    ∷ (codes "security.syscalls.blacklist_default", is_bool)
    ∷ (codes "security.syscalls.blacklist_compat", is_bool)
    ∷ (codes "security.syscalls.blacklist", is_any)
    ∷ (codes "security.syscalls.whitelist", is_any)
    ∷ (codes "raw.apparmor", is_any)
    ∷ (codes "raw.mercury", is_any)
    ∷ (codes "raw.seccomp", is_any)
    ∷ (codes "raw.idmap", is_any)
    ∷ (codes "volatile.apply_template", is_any)
    ∷ (codes "volatile.base_image", is_any)
    ∷ (codes "volatile.last_state.idmap", is_any)
    ∷ (codes "volatile.last_state.power", is_any)
    ∷ (codes "volatile.idmap.next", is_any)
    ∷ (codes "volatile.idmap.base", is_any)
    ∷ (codes "volatile.apply_quota", is_any)
    ∷ []

unfoldable pub find_checker : List (Bytes × Checker) → Bytes → Option Checker
find_checker [] key = none
find_checker ((k, f) ∷ keys) key = if bytes_eq k key then some f else find_checker keys key

unfoldable pub is_free_key : Bytes → Bool
is_free_key key =
    (has_prefix key (codes "volatile.")
      && (has_suffix key (codes ".hwaddr")
          || (has_suffix key (codes ".name") || has_suffix key (codes ".host_name"))))
    || (has_prefix key (codes "environment.")
        || (has_prefix key (codes "user.") || has_prefix key (codes "image.")))

abbrev pub or_free : Option Checker → Bytes → Result Error Checker
or_free (some f) key = ok f
or_free none key = if is_free_key key then ok is_any else err bad_key

unfoldable pub config_key_checker : Bytes → Result Error Checker
config_key_checker key = or_free (find_checker known_keys key) key
