-- ===== src/DaemonConfig.antt =====
-- The configuration of the daemon, apollo/daemon_config.go, and its table, apollo/db/config.go. What
-- a key runs to validate and to set a value is a parameter.
pub mod Rows
pub mod Restart
pub mod Lost
use apollo_controller.Prelude.{
  ℕ, zero, suc, ◌+◌, ◌-◌, ◌*◌, ◌/◌, ◌%◌, ◌^◌, ◌≤◌, ◌<◌, ◌≡◌, ◌≢◌, ◌↔◌, ◌⊎◌, inl, inr, refl, sym, ap,
  ap₂, subst, ◌∙◌, Bool, true, false, not, ◌&&◌, ◌||◌, Option, none, some, List, [], ◌∷◌, ◌++◌, map,
  append_assoc, append-nil, arith, ltb, leb, ◌==◌, if◌then◌else◌, bool_eq, Bool-cases, Option-cases,
  ==_iff, length, take, drop, length-append, take-length-append, drop-length-append, All,
  All-append, All-imp, Result, ok, err, ◌>>=◌, ◌>>◌, guard, or_fail, >>=-eq-ok, ok-injective,
}
use apollo_controller.Prelude.Text.{Bytes, codes, bytes_eq, string_in_slice, to_lower}
use apollo_controller.Prelude.Number.{parse_int}
use apollo_controller.Container.{Map}

pub data Error : Type 0 where
  unknown_key bad_bool bad_int not_allowed refused not_set not_written : Error

-- The trigger is called by the caller of `Set`, and what is hidden only matters to printing.
pub record Key : Type 0 where
  pub value_type : Bytes
  pub default_value : Bytes
  pub valid_values : Option (List Bytes)
  pub current_value : Bytes
  pub validator : Option (Bytes → Bytes → Bool)
  pub setter : Option (Bytes → Bytes → Option Bytes)

abbrev pub Keys : Type 0
Keys = List (Bytes × Key)

unfoldable pub lookup : Keys → Bytes → Option Key
lookup [] name = none
lookup ((k, key) ∷ keys) name = if bytes_eq k name then some key else lookup keys name

-- The words that are taken for a Boolean.
abbrev pub words : List Bytes
words =
    codes "true"
    ∷ codes "false"
    ∷ codes "1"
    ∷ codes "0"
    ∷ codes "yes"
    ∷ codes "no"
    ∷ codes "on"
    ∷ codes "off"
    ∷ []

abbrev pub external : Option (Bytes → Bytes → Bool) → Bytes → Bytes → Result Error (Unit {0})
external none name value = ok tt
external (some accepts) name value = guard (accepts name value) refused

abbrev pub is_number : Bytes → Result Error (Unit {0})
is_number value = or_fail (parse_int value) bad_int >>= λ n. ok tt

abbrev pub is_allowed : Option (List Bytes) → Bytes → Bool
is_allowed none value = true
is_allowed (some values) value = string_in_slice value values

unfoldable pub validate : Key → Bytes → Bytes → Result Error (Unit {0})
validate key name [] = external key.validator name key.default_value
validate key name (c ∷ s) = do
  guard (not (bytes_eq key.value_type (codes "bool")) || string_in_slice (to_lower (c ∷ s)) words)
      bad_bool
  if bytes_eq key.value_type (codes "int") then is_number (c ∷ s) else ok tt
  guard (is_allowed key.valid_values (c ∷ s)) not_allowed
  external key.validator name (c ∷ s)

abbrev pub run_setter : Option (Bytes → Bytes → Option Bytes) → Bytes → Bytes → Result Error Bytes
run_setter none name value = ok value
run_setter (some sets) name value = or_fail (sets name value) not_set

-- `ConfigValueSet`, where its transaction is committed. A table has no order.
unfoldable pub delete : Bytes → Map → Map
delete key [] = []
delete key ((k, v) ∷ rows) =
    let rest = delete key rows in if bytes_eq k key then rest else (k, v) ∷ rest

unfoldable pub config_value_set : Map → Bytes → Bytes → Map
config_value_set rows key [] = delete key rows
config_value_set rows key (c ∷ s) = (key, c ∷ s) ∷ delete key rows

unfoldable pub put_value : Bytes → Bytes → Keys → Keys
put_value name value [] = []
put_value name value ((k, key) ∷ keys) =
    let rest = put_value name value keys in
    if bytes_eq k name then (k, record key { current_value = value }) ∷ keys else (k, key) ∷ rest

-- The keys in memory and the rows of the table `config`.
pub record State : Type 0 where
  pub keys : Keys
  pub rows : Map

-- The value is put in memory before the database is written, which may fail.
abbrev pub store : State → Bytes → Bool → Result Error Bytes → Result Error (Unit {0}) × State
store s name writes (err e) = (err e, s)
store s name true (ok value) = (
  ok tt,
  record { keys = put_value name value s.keys; rows = config_value_set s.rows name value },
)
store s name false (ok value) = (err not_written, record s { keys = put_value name value s.keys })

abbrev pub set_key : State → Bytes → Bytes → Bool → Option Key → Result Error (Unit {0}) × State
set_key s name value writes none = (err unknown_key, s)
set_key s name value writes (some key) =
    if bytes_eq key.current_value value
    then (ok tt, s)
    else store s name writes (validate key name value >> run_setter key.setter name value)

-- `Set` of the key of a name. `name()` finds that name again, as a key stands under one name.
unfoldable pub set : State → Bytes → Bytes → Bool → Result Error (Unit {0}) × State
set s name value writes = set_key s name value writes (lookup s.keys name)

-- `Get`.
unfoldable pub get_value : Key → Bytes
get_value key = if bytes_eq key.current_value [] then key.default_value else key.current_value

-- The loop over the rows, which passes over unknown names.
unfoldable pub load_values : Map → Keys → Keys
load_values [] keys = keys
load_values ((k, v) ∷ rows) keys = load_values rows (put_value k v keys)

-- `daemonConfigInit` on the table of keys.
unfoldable pub daemon_config_init : Keys → Map → State
daemon_config_init defaults rows = record { keys = load_values rows defaults; rows = rows }
