-- ===== src/DaemonConfig/Restart.antt =====
-- What a restart of the daemon reads back.
use apollo_controller.Prelude.{
  ◌≡◌, ◌⊎◌, inl, inr, refl, sym, ◌∙◌, Bool, true, false, Option, none, some, List, [], ◌∷◌,
  if◌then◌else◌, Bool-cases, Result, ok, err,
}
use apollo_controller.Prelude.Text.{Bytes, bytes_eq}
use apollo_controller.Container.{Map, get, has, get-missing}
use apollo_controller.DaemonConfig.{
  Error, Key, Keys, lookup, State, store, set_key, set, load_values, daemon_config_init,
}
use apollo_controller.DaemonConfig.Rows.{
  with_value, lookup-put_value, get-config_value_set, IsTable, config_value_set-IsTable,
  lookup-load_values, IsFresh, lookup-IsFresh,
}

-- Each key in memory has the value of its row, or none where there is no row.
pub record IsStored (defaults : Keys) (s : State) : Type 0 where
  pub table : IsTable s.rows
  pub same :
      (name : Bytes) → lookup s.keys name ≡ with_value (get s.rows name) (lookup defaults name)

daemon_config_init-IsStored :
    (defaults : Keys) (rows : Map)
    → IsFresh defaults
    → IsTable rows
    → IsStored defaults (daemon_config_init defaults rows)
unfolding daemon_config_init
daemon_config_init-IsStored defaults rows f t = record {
  table = t;
  same = λ name. at name (Bool-cases (has rows name));
}
  where
    at :
        (name : Bytes)
        → (has rows name ≡ true) ⊎ (has rows name ≡ false)
        → lookup (load_values rows defaults) name
          ≡ with_value (get rows name) (lookup defaults name)
    at name (inl h) = rw (lookup-load_values rows defaults name t, h) refl
    at name (inr h) =
        rw (lookup-load_values rows defaults name t, h, get-missing rows name h)
          (sym (lookup-IsFresh defaults name f))

if-with_value :
    (b : Bool) (v w : Bytes) (o : Option Key)
    → (if b then with_value v (with_value w o) else with_value w o)
      ≡ with_value (if b then v else w) o
if-with_value true v w none = refl
if-with_value true v w (some key) = refl
if-with_value false v w o = refl

store-IsStored :
    (defaults : Keys) (s : State) (name : Bytes) (r : Result Error Bytes)
    → IsStored defaults s
    → IsStored defaults (store s name true r).1
store-IsStored defaults s name (err e) i = i
store-IsStored defaults s name (ok value) i = record {
  table = config_value_set-IsTable s.rows name value i.table;
  same = λ j.
      rw (lookup-put_value name value s.keys j, get-config_value_set s.rows name value j, i.same j)
        (if-with_value (bytes_eq name j) value (get s.rows j) (lookup defaults j));
}

set-IsStored :
    (defaults : Keys) (s : State) (name value : Bytes)
    → IsStored defaults s
    → IsStored defaults (set s name value true).1
unfolding set
set-IsStored defaults s name value i = at (lookup s.keys name)
  where
    at : (o : Option Key) → IsStored defaults (set_key s name value true o).1
    at none = i
    at (some key) = elim (Bool-cases (bytes_eq key.current_value value)) [
      | inl e ↦ rw e i
      | inr e ↦ rw e (store-IsStored defaults s name _ i)
    ]

-- Settings one behind the other, each with its write of the database done.
unfoldable pub set_all : State → List (Bytes × Bytes) → State
set_all s [] = s
set_all s ((name, value) ∷ settings) = set_all (set s name value true).1 settings

set_all-IsStored :
    (defaults : Keys) (s : State) (settings : List (Bytes × Bytes))
    → IsStored defaults s
    → IsStored defaults (set_all s settings)
unfolding set_all
set_all-IsStored defaults s [] i = i
set_all-IsStored defaults s ((name, value) ∷ settings) i =
    set_all-IsStored defaults (set s name value true).1 settings
      (set-IsStored defaults s name value i)

-- Whatever keys are set, in whatever order and whether or not each setting is accepted, a restart
-- reads back every key as it was in memory, where the writes of the database succeed. The daemon
-- starts from a table of one row per key, and no key of its list has a value before that.
pub restart-same :
    (defaults : Keys) (rows : Map) (settings : List (Bytes × Bytes)) (name : Bytes)
    → IsFresh defaults
    → IsTable rows
    → lookup
        (daemon_config_init defaults
          (set_all (daemon_config_init defaults rows) settings).rows).keys
        name
      ≡ lookup (set_all (daemon_config_init defaults rows) settings).keys name
unfolding daemon_config_init
restart-same defaults rows settings name f t =
    let i = set_all-IsStored defaults _ settings (daemon_config_init-IsStored defaults rows f t) in
    IsStored.same (daemon_config_init-IsStored defaults _ f i.table) name ∙ sym (i.same name)
