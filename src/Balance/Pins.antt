-- ===== src/Balance/Pins.antt =====
-- The loads of the CPUs against the containers that are put on them.
use apollo_controller.Prelude.{ℕ, ◌+◌, ◌≡◌, List, [], ◌∷◌, if◌then◌else◌}
use apollo_controller.Prelude.Int.{ℤ, eq_ℤ}
use apollo_controller.Prelude.Text.{Bytes}
use apollo_controller.Balance.{Cpu, Usage}

abbrev pub load : ℤ → List Cpu → ℕ
load id [] = 0
load id (c ∷ cpus) = (if eq_ℤ c.id id then c.count else 0) + load id cpus

abbrev pub pins_on : ℤ → List (Bytes × ℤ) → ℕ
pins_on id [] = 0
pins_on id ((name, j) ∷ pins) = (if eq_ℤ j id then 1 else 0) + pins_on id pins

abbrev IsCounted : ℤ → Usage → Type 0
IsCounted id u = load id u.cpus ≡ pins_on id u.pinning
