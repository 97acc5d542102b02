-- ===== src/Autostart.antt =====
-- Which containers the daemon starts when it starts, and what it writes down when the host goes down:
-- containerAutostartList, containersRestart and containersShutdown of apollo/containers.go, with
-- IsRunning and State of apollo/container_mercury.go.
pub mod Order
pub mod Cycle
pub mod Forgets
use apollo_controller.Prelude.{
  ℕ, zero, suc, ◌+◌, ◌-◌, ◌*◌, ◌/◌, ◌%◌, ◌^◌, ◌≤◌, ◌<◌, ◌≡◌, ◌≢◌, ◌↔◌, ◌⊎◌, inl, inr, refl, sym, ap,
  ap₂, subst, ◌∙◌, Bool, true, false, not, ◌&&◌, ◌||◌, Option, none, some, List, [], ◌∷◌, ◌++◌, map,
  append_assoc, append-nil, arith, ltb, leb, ◌==◌, if◌then◌else◌, bool_eq, Bool-cases, Option-cases,
  ==_iff, length, take, drop, length-append, take-length-append, drop-length-append, All,
  All-append, All-imp, Result, ok, err, ◌>>=◌, ◌>>◌, guard, or_fail, >>=-eq-ok, ok-injective,
}
use apollo_controller.Prelude.Int.{ℤ, pos, negsuc, ltb_ℤ}
use apollo_controller.Prelude.Text.{Bytes, codes, bytes_eq}
use apollo_controller.Prelude.Number.{scan_digits}
use apollo_controller.Container.{Map, get}
use apollo_controller.Config.{is_true}

-- What is read of a container that could be loaded: `none` as the library's state is a container that
-- it cannot open, `some none` one whose state it cannot tell.
pub record Container : Type 0 where
  pub name : Bytes
  pub config : Map
  pub library_state : Option (Option Bytes)

-- The number that `strconv.Atoi` gives beside its error: 0 where there is none, and the nearest one
-- where it has more than 63 bits.
abbrev pub at_most : ℕ → Option ℕ → ℕ
at_most n none = 0
at_most n (some m) = if ltb n m then n else m

abbrev pub minus : ℕ → ℤ
minus zero = pos 0
minus (suc n) = negsuc n

-- The digits as `ParseUint` reads them, behind `n`: it stops where they pass 64 bits, and does not look
-- at what follows.
abbrev pub scan_uint64 : Bytes → ℕ → Option ℕ
scan_uint64 [] n = some n
scan_uint64 (c ∷ s) n =
    let m = n * 10 + (c - b'0') in
    let rest = scan_uint64 s m in
    if leb b'0' c && leb c b'9' then if ltb m (2 ^ 64) then rest else some (2 ^ 64 - 1) else none

abbrev pub scanned : Bytes → Option ℕ
scanned [] = none
scanned (c ∷ s) = scan_uint64 (c ∷ s) 0

unfoldable pub atoi : Bytes → ℤ
atoi [] = pos 0
atoi (c ∷ s) =
    if c == b'-'
    then minus (at_most (2 ^ 63) (scanned s))
    else if c == b'+'
    then pos (at_most (2 ^ 63 - 1) (scanned s))
    else pos (at_most (2 ^ 63 - 1) (scanned (c ∷ s)))

-- `<` of Go strings.
unfoldable pub bytes_lt : Bytes → Bytes → Bool
bytes_lt s [] = false
bytes_lt [] (b ∷ t) = true
bytes_lt (a ∷ s) (b ∷ t) = ltb a b || (a == b && bytes_lt s t)

abbrev pub order_of : Container → Bytes
order_of c = get c.config (codes "boot.autostart.priority")

-- By the priority as it is written, and by name.
abbrev pub less_by : Bytes × Bytes → Bytes × Bytes → Bool
less_by (i_order, i_name) (j_order, j_name) =
    if not (bytes_eq i_order j_order)
    then ltb_ℤ (atoi j_order) (atoi i_order)
    else bytes_lt i_name j_name

unfoldable pub less : Container → Container → Bool
less a b = less_by (order_of a, a.name) (order_of b, b.name)

abbrev pub state_text : Option (Option Bytes) → Bytes
state_text none = codes "Broken"
state_text (some none) = codes "Error"
state_text (some (some state)) = state

-- `State` and `IsRunning`.
abbrev pub state : Container → Bytes
state c = state_text c.library_state

unfoldable pub is_running : Container → Bool
is_running c =
    not (bytes_eq (state c) (codes "BROKEN")) && not (bytes_eq (state c) (codes "STOPPED"))

-- The condition of `containersRestart`, `last_state` being the value of volatile.last_state.power.
unfoldable pub is_wanted : Container → Bytes → Bool
is_wanted c last_state =
    is_true (get c.config (codes "boot.autostart"))
    || (bytes_eq (get c.config (codes "boot.autostart")) []
        && bytes_eq last_state (codes "RUNNING"))

-- The loop over the sorted containers: those that it starts. `last_state` reads the key.
unfoldable pub restart_loop : (Bytes → Bytes) → List Container → List Bytes
restart_loop last_state [] = []
restart_loop last_state (c ∷ containers) =
    let rest = restart_loop last_state containers in
    if is_wanted c (last_state c.name) then if is_running c then rest else c.name ∷ rest else rest

-- `sort` is `sort.Sort` by `less`.
unfoldable pub containers_restart :
    (List Container → List Container) → (Bytes → Bytes) → List Container → List Bytes
containers_restart sort last_state containers = restart_loop last_state (sort containers)

-- The keys volatile.last_state.power by name of the container: those that the loop writes, and those
-- that are left to the goroutines that it starts.
pub record Recorded : Type 0 where
  pub all_loaded : Bool
  pub written : Map
  pub pending : Map

abbrev pub record_stopped : Container → Recorded → Recorded
record_stopped c r =
    if is_running c
    then record r { pending = (c.name, state c) ∷ r.pending }
    else record r { written = (c.name, state c) ∷ r.written }

abbrev pub loaded : Option Container → Recorded → Recorded
loaded none rest = record { all_loaded = false; written = []; pending = [] }
loaded (some c) rest = record_stopped c rest

-- The loop over the names; `load` is `containerLoadByName`.
unfoldable pub shutdown_loop : (Bytes → Option Container) → List Bytes → Recorded
shutdown_loop load [] = record { all_loaded = true; written = []; pending = [] }
shutdown_loop load (name ∷ names) = loaded (load name) (shutdown_loop load names)

-- The goroutines of the containers that have written their keys.
abbrev pub done_by : (Bytes → Bool) → Map → Map
done_by finished [] = []
done_by finished ((name, state) ∷ pending) =
    let rest = done_by finished pending in if finished name then (name, state) ∷ rest else rest

-- The result, and the keys that are there some time after `containersShutdown` has returned: at first
-- all are deleted; `wg.Wait` waits for what is pending, but an early return does not, and then
-- `finished` tells which goroutines have come to their end by that time.
unfoldable pub containers_shutdown :
    (Bytes → Bool) → (Bytes → Option Container) → List Bytes → Bool × Map
containers_shutdown finished load names =
    let r = shutdown_loop load names in
    if r.all_loaded
    then (true, r.written ++ r.pending)
    else (false, r.written ++ done_by finished r.pending)
