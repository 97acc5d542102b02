-- ===== src/StorageLock.antt =====
-- How storage backends keep two threads from one mount point: StoragePoolUmount of
-- apollo/storage_btrfs.go with the map of ongoing operations of apollo/storage.go, for one key of that
-- map. A thread takes one step at a time: a section under the lock, a receive, or a system call, with
-- what the call answers.
pub mod Alone
pub mod Hidden
use apollo_controller.Prelude.{
  ℕ, zero, suc, ◌+◌, ◌-◌, ◌*◌, ◌/◌, ◌%◌, ◌^◌, ◌≤◌, ◌<◌, ◌≡◌, ◌≢◌, ◌↔◌, ◌⊎◌, inl, inr, refl, sym, ap,
  ap₂, subst, ◌∙◌, Bool, true, false, not, ◌&&◌, ◌||◌, Option, none, some, List, [], ◌∷◌, ◌++◌, map,
  append_assoc, append-nil, arith, ltb, leb, ◌==◌, if◌then◌else◌, bool_eq, Bool-cases, Option-cases,
  ==_iff, length, take, drop, length-append, take-length-append, drop-length-append, All,
  All-append, All-imp, Result, ok, err, ◌>>=◌, ◌>>◌, guard, or_fail, >>=-eq-ok, ok-injective,
}
use apollo_controller.Prelude.Text.{Bytes}

-- Whether the pool was unmounted here, and the error.
abbrev pub Answer : Type 0
Answer = Bool × Option Bytes

-- Where a thread is: before the lock, at the receive, at the two system calls, before
-- `removeLockFromMap`, and behind it.
pub data Pc : Type 0 where
  entering : Pc
  waiting : ℕ → Pc
  checking unmounting : Pc
  releasing returned : Answer → Pc

-- Channels are numbered; `closes` counts the closes of each.
pub record State : Type 0 where
  pub is_mounted : Bool
  pub ongoing : Option ℕ
  pub made : ℕ
  pub closes : ℕ → ℕ
  pub threads : ℕ → Pc

abbrev pub at {ℓ} : {A : Type ℓ} → (ℕ → A) → ℕ → A → ℕ → A
at f n a m = if n == m then a else f m

abbrev pub go : State → ℕ → Pc → State
go s t pc = record s { threads = at s.threads t pc }

-- `if waitChannel, ok := map[id]; ok`, or else a new channel.
abbrev pub enter : State → ℕ → Option ℕ → State
enter s t (some channel) = go s t (waiting channel)
enter s t none = record s {
  ongoing = some s.made;
  made = s.made + 1;
  threads = at s.threads t checking;
}

-- `syscall.Unmount` and its error.
abbrev pub unmount : State → ℕ → Option Bytes → State
unmount s t none = record s {
  is_mounted = false;
  threads = at s.threads t (releasing (true, none));
}
unmount s t (some e) = go s t (releasing (false, some e))

-- `removeLockFromMap`.
abbrev pub release : State → ℕ → Answer → Option ℕ → State
release s t answer none = go s t (returned answer)
release s t answer (some channel) = record s {
  ongoing = none;
  closes = at s.closes channel (s.closes channel + 1);
  threads = at s.threads t (returned answer);
}

unfoldable pub step_from : State → ℕ → Option Bytes → Pc → State
step_from s t e entering = enter s t s.ongoing
step_from s t e (waiting channel) =
    if s.closes channel == 0 then s else go s t (returned (false, none))
step_from s t e checking = go s t (if s.is_mounted then unmounting else releasing (true, none))
step_from s t e unmounting = unmount s t e
step_from s t e (releasing answer) = release s t answer s.ongoing
step_from s t e (returned answer) = s

unfoldable pub step : State → ℕ → Option Bytes → State
step s t e = step_from s t e (s.threads t)

-- A schedule: which thread is next, and the error of the system call if it comes to it.
unfoldable pub run : State → List (ℕ × Option Bytes) → State
run s [] = s
run s ((t, e) ∷ schedule) = run (step s t e) schedule
