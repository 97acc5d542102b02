-- ===== src/Tests/BalanceRuns.antt =====
-- The balancing of CPUs of apollo/devices.go on a host with four CPUs.
use apollo_controller.Prelude.{
  ◌-◌, ◌^◌, ◌≡◌, refl, true, false, none, some, List, [], ◌∷◌, map, arith, ◌==◌, if◌then◌else◌, ok,
  err,
}
use apollo_controller.Prelude.Int.{ℤ, pos}
use apollo_controller.Prelude.Text.{Bytes, codes}
use apollo_controller.Prelude.Number.{parse_int}
use apollo_controller.Balance.{unfinished, range_fields, Container, Usage, idle, balance}
use apollo_controller.Balance.Even.{IsEven, balance-IsEven}
use apollo_controller.Balance.Range.{numbers, range_fields_ends}

abbrev all_cpus : List ℤ
all_cpus = pos 0 ∷ pos 1 ∷ pos 2 ∷ pos 3 ∷ []

abbrev unused : Usage
unused = record { cpus = map idle all_cpus; pinning = [] }

abbrev asked : List (Bytes × ℤ)
asked = (codes "a", pos 3) ∷ (codes "b", pos 2) ∷ (codes "c", pos 4) ∷ []

balance-IsEven_example : IsEven (balance asked unused).cpus
balance-IsEven_example = balance-IsEven asked unused (
  0,
  (
    (omega arith, omega arith),
    ((omega arith, omega arith), ((omega arith, omega arith), ((omega arith, omega arith), tt))),
  ),
)

abbrev running : List Container
running =
    record { name = codes "a"; limit = some (codes "1-2"); is_running = true }
    ∷ record { name = codes "b"; limit = some (codes "3"); is_running = true }
    ∷ record { name = codes "c"; limit = none; is_running = false }
    ∷ []

abbrev pinned : Usage
pinned = record {
  cpus =
      record { id = pos 0; count = 1 }
      ∷ record { id = pos 3; count = 1 }
      ∷ record { id = pos 1; count = 2 }
      ∷ record { id = pos 2; count = 1 }
      ∷ [];
  pinning =
      (codes "a", pos 1)
      ∷ (codes "a", pos 2)
      ∷ (codes "b", pos 0)
      ∷ (codes "b", pos 3)
      ∷ (codes "b", pos 1)
      ∷ [];
}

range_fields_ends_example :
    range_fields 9 (codes "3" ∷ codes "5" ∷ []) []
    ≡ (if 5 == 2 ^ 63 - 1 then err unfinished else ok (numbers 3 3))
unfolding parse_int
range_fields_ends_example =
    range_fields_ends 9 (codes "3") (codes "5") 3 3 5 refl refl (omega arith) (omega arith) refl
      (omega arith)
