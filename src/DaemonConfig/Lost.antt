-- ===== src/DaemonConfig/Lost.antt =====
-- A setting that the database does not take.
use apollo_controller.Prelude.{◌≡◌, refl, Bool, false, none, some, ok, err}
use apollo_controller.Prelude.Text.{Bytes, bytes_eq, bytes_eq_refl}
use apollo_controller.DaemonConfig.{not_written, Key, lookup, validate, put_value, State, set}
use apollo_controller.DaemonConfig.Rows.{lookup-put_value}

-- Where the database cannot be written, `Set` fails but leaves the value in memory. Setting it once
-- more then succeeds without a write, so that the table never gets the value: this holds of every key
-- without a setter and every valid new value.
pub set-lost :
    (s : State) (name value : Bytes) (key : Key) (writes : Bool)
    → lookup s.keys name ≡ some key
    → key.setter ≡ none
    → bytes_eq key.current_value value ≡ false
    → validate key name value ≡ ok tt
    → ((set s name value false).0 ≡ err not_written)
      × (set (set s name value false).1 name value writes ≡ (ok tt, (set s name value false).1))
      × ((set s name value false).1.rows ≡ s.rows)
set-lost s name value key writes l n e v =
    let s' = record s { keys = put_value name value s.keys } in
    let first : set s name value false ≡ (err not_written, s') =
      unfold set in rw (l, e, v, n) refl in
    let again : lookup s'.keys name ≡ some (record key { current_value = value }) =
      rw (lookup-put_value name value s.keys name, bytes_eq_refl name, l) refl in
    rw first (refl, (unfold set in rw (again, bytes_eq_refl value) refl), refl)
