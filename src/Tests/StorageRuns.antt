-- ===== src/Tests/StorageRuns.antt =====
-- The lock of the storage backends with two threads.
use apollo_controller.Prelude.{ℕ, refl, Option, none, List, [], ◌∷◌, arith}
use apollo_controller.Prelude.Text.{Bytes}
use apollo_controller.StorageLock.{run}
use apollo_controller.StorageLock.Alone.{IsExclusive, run-IsExclusive}
use apollo_controller.StorageLock.Hidden.{mounted_pool}

mounted_pool-IsExclusive : IsExclusive mounted_pool
mounted_pool-IsExclusive = record {
  alone = λ t u h k. cc;
  taken = λ t h. cc;
  open_channel = λ c h. cc;
  fresh = λ c l. refl;
  once = λ c. omega arith;
  waits = λ t c h. cc;
}

abbrev two_threads : List (ℕ × Option Bytes)
two_threads =
    (0, none)
    ∷ (1, none)
    ∷ (0, none)
    ∷ (1, none)
    ∷ (0, none)
    ∷ (0, none)
    ∷ (1, none)
    ∷ (2, none)
    ∷ []

run-IsExclusive_example : IsExclusive (run mounted_pool two_threads)
run-IsExclusive_example = run-IsExclusive mounted_pool two_threads mounted_pool-IsExclusive
