-- ===== src/Tests/LockRuns.antt =====
-- The lock on a container of apollo/container_mercury.go, with few threads.
use apollo_controller.Prelude.{◌≡◌, refl, true, false, none, List, [], ◌∷◌, err}
use apollo_controller.Prelude.Text.{codes}
use apollo_controller.ContainerLock.{
  Locks, op_at, not_running, install, get_operation, Event, starts, ends, run, wait,
}
use apollo_controller.ContainerLock.Once.{IsSound, run-IsSound}
use apollo_controller.ContainerLock.Lost.{first_waits_for_ever}

abbrev no_locks : Locks
no_locks = record { ops = []; running = λ _. none }

no_locks-IsSound : IsSound no_locks
unfolding op_at
no_locks-IsSound = record { is_open = λ id ref h. cc; once = λ ref op h. cc }

-- Two threads stop one container, and both operations are ended, the first one twice.
abbrev stops : List Event
stops =
    starts 7 (codes "stop") false
    ∷ starts 7 (codes "stop") false
    ∷ ends 0 none
    ∷ ends 1 none
    ∷ ends 0 none
    ∷ []

run-IsSound_example : IsSound (run no_locks stops)
run-IsSound_example = run-IsSound no_locks stops no_locks-IsSound

first_waits_for_ever_example :
    (get_operation no_locks 7 [] ≡ err not_running)
    × (wait
          (run
            (install (install no_locks 7 (codes "stop") false) 7 (codes "start") true)
            (ends 0 none ∷ ends 1 none ∷ []))
          0
        ≡ none)
first_waits_for_ever_example =
    first_waits_for_ever no_locks 7 (codes "stop") (codes "start") false true
      (ends 0 none ∷ ends 1 none ∷ []) no_locks-IsSound refl

abbrev elsewhere : List Event
elsewhere = starts 8 (codes "start") true ∷ ends 1 none ∷ []

abbrev one_stop : Locks
one_stop = install no_locks 7 (codes "stop") false
