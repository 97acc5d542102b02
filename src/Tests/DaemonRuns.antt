-- ===== src/Tests/DaemonRuns.antt =====
-- The configuration of the daemon, and what containers have from profiles, on concrete keys.
use apollo_controller.Prelude.{
  ◌≡◌, refl, true, false, none, List, [], ◌∷◌, if◌then◌else◌, Result, ok, err,
}
use apollo_controller.Prelude.Text.{Bytes, codes, bytes_eq}
use apollo_controller.Container.{Map, has}
use apollo_controller.DaemonConfig.{
  not_written, Key, Keys, lookup, validate, put_value, State, set, daemon_config_init, load_values,
}
use apollo_controller.DaemonConfig.Restart.{set_all, restart-same}
use apollo_controller.DaemonConfig.Lost.{set-lost}
use apollo_controller.Expanded.{value_at, expand}
use apollo_controller.Expanded.Layers.{over, last_profile, expand-over}
use apollo_controller.Prelude.Number.{parse_int}

abbrev auto_update : Key
auto_update = record {
  value_type = codes "bool";
  default_value = codes "true";
  valid_values = none;
  current_value = [];
  validator = none;
  setter = none;
}

abbrev interval : Key
interval = record {
  value_type = codes "int";
  default_value = codes "6";
  valid_values = none;
  current_value = [];
  validator = none;
  setter = none;
}

abbrev known : Keys
known = (codes "auto", auto_update) ∷ (codes "interval", interval) ∷ []

abbrev settings : List (Bytes × Bytes)
settings =
    (codes "auto", codes "no")
    ∷ (codes "interval", codes "x")
    ∷ (codes "auto", [])
    ∷ (codes "interval", codes "9")
    ∷ []

abbrev new_start : State
new_start = daemon_config_init known ((codes "auto", codes "off") ∷ [])

restart-same_example :
    lookup (daemon_config_init known (set_all new_start settings).rows).keys (codes "interval")
    ≡ lookup (set_all new_start settings).keys (codes "interval")
unfolding has
restart-same_example =
    restart-same known ((codes "auto", codes "off") ∷ []) settings (codes "interval")
      (refl, (refl, tt)) (refl, tt)

set-lost_example :
    ((set new_start (codes "interval") (codes "9") false).0 ≡ err not_written)
    × (set
          (set new_start (codes "interval") (codes "9") false).1
          (codes "interval")
          (codes "9")
          true
        ≡ (ok tt, (set new_start (codes "interval") (codes "9") false).1))
    × ((set new_start (codes "interval") (codes "9") false).1.rows ≡ new_start.rows)
unfolding lookup daemon_config_init load_values put_value bytes_eq validate parse_int
set-lost_example =
    set-lost new_start (codes "interval") (codes "9") interval true refl refl refl refl

abbrev profile : Bytes → Result Bytes Map
profile name =
    if bytes_eq name (codes "default")
    then ok ((codes "limits.cpu", codes "2") ∷ (codes "user.a", codes "x") ∷ [])
    else if bytes_eq name (codes "big")
    then ok ((codes "limits.cpu", codes "8") ∷ [])
    else err (codes "no such profile")

abbrev own : Map
own = (codes "user.b", codes "y") ∷ []

abbrev both : List (Bytes × Map)
both =
    (codes "default", (codes "limits.cpu", codes "2") ∷ (codes "user.a", codes "x") ∷ [])
    ∷ (codes "big", (codes "limits.cpu", codes "8") ∷ [])
    ∷ []

expand-over_example :
    (expanded : Map) × (expand profile (codes "default" ∷ codes "big" ∷ []) own ≡ ok expanded)
    × ((key : Bytes) → value_at expanded key ≡ over (value_at own key) (last_profile both key))
unfolding bytes_eq value_at
expand-over_example =
    expand-over profile both own ((refl, (refl, (refl, tt))), ((refl, (refl, tt)), tt)) (refl, tt)
