-- ===== src/StatusCode.antt =====
-- shared/api/status_code.go: the status codes of operations and containers.
use apollo_controller.Prelude.{ℕ, Bool, leb, ◌==◌}
use apollo_controller.Prelude.Text.{Bytes, codes}

pub data StatusCode : Type 0 where
  operation_created started stopped running cancelling pending starting stopping : StatusCode
  aborting freezing frozen thawed error success failure cancelled : StatusCode

unfoldable pub value : StatusCode → ℕ
value operation_created = 100
value started = 101
value stopped = 102
value running = 103
value cancelling = 104
value pending = 105
value starting = 106
value stopping = 107
value aborting = 108
value freezing = 109
value frozen = 110
value thawed = 111
value error = 112
value success = 200
value failure = 400
value cancelled = 401

unfoldable pub to_string : StatusCode → Bytes
to_string operation_created = codes "Operation created"
to_string started = codes "Started"
to_string stopped = codes "Stopped"
to_string running = codes "Running"
to_string cancelling = codes "Cancelling"
to_string pending = codes "Pending"
to_string success = codes "Success"
to_string failure = codes "Failure"
to_string cancelled = codes "Cancelled"
to_string starting = codes "Starting"
to_string stopping = codes "Stopping"
to_string aborting = codes "Aborting"
to_string freezing = codes "Freezing"
to_string frozen = codes "Frozen"
to_string thawed = codes "Thawed"
to_string error = codes "Error"

unfoldable pub is_final : StatusCode → Bool
unfolding value
is_final o = leb 200 (value o)

-- `o == p` on the codes.
unfoldable pub status_eq : StatusCode → StatusCode → Bool
unfolding value
status_eq o p = value o == value p
