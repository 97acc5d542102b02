-- ===== src/Operation/Threads.antt =====
-- The goroutines of apollo/operations.go. A thread moves from one atomic step to the next: a test
-- of a field, a section under `op.lock`, the call of a hook, its return, a close of `chanDone`.
use apollo_controller.Prelude.{
  ℕ, zero, suc, Bool, true, false, not, Option, none, some, List, [], ◌∷◌, ◌++◌, ◌==◌,
  if◌then◌else◌,
}
use apollo_controller.Prelude.Text.{Bytes}
use apollo_controller.StatusCode.{
  StatusCode, pending, running, cancelling, success, failure, cancelled, status_eq,
}
use apollo_controller.Operation.{
  Operation, Error, not_pending, not_running, not_cancellable, canceler_unarmed, not_websocket,
  may_cancel, finish, is_websocket,
}

pub data Pc : Type 0 where
  -- `Run`: the test of the status, the locked section, the goroutine's call of `onRun`, the wait
  -- for its return, the two ways to record it.
  run_test run_lock run_call run_wait run_success : Pc
  run_failure : Bytes → Pc
  -- `done`: the test of `readonly`, the locked section.
  done_test done_lock : Pc
  -- `Cancel`: the two tests, the locked section, the test of `onCancel` with the start of the
  -- goroutine, the canceler, the second test of `onCancel`. The old status goes along.
  cancel_test cancel_may cancel_lock cancel_canceler cancel_plain : Pc
  cancel_start : StatusCode → Pc
  -- The goroutine of `Cancel`, with the old status.
  cancel_call cancel_wait cancel_restore : StatusCode → Pc
  -- The section that records the cancellation, in the goroutine or without a hook.
  cancel_success : Pc
  -- `Connect`: the two tests, the goroutine's call of `onConnect`, and the wait for its return.
  connect_test connect_call connect_wait : Pc
  ended : Pc
  refused : Error → Pc

-- What one step leaves: the operation, where the thread goes on, what it starts, whether it panics.
pub record Move : Type 0 where
  pub op : Operation
  pub next : Pc
  pub starts : List Pc
  pub panics : Bool

abbrev pub to : Operation → Pc → Move
to op pc = record { op = op; next = pc; starts = []; panics = false }

abbrev pub crash : Operation → Move
crash op = record { op = op; next = ended; starts = []; panics = true }

-- The return of a hook: nothing, or the text of an error.
abbrev pub Return : Type 0
Return = Option Bytes

abbrev pub returned : StatusCode → Return → Pc
returned old none = cancel_success
returned old (some e) = cancel_restore old

-- `op.canceler.Cancel()` where a canceler is set: it closes its channel once.
abbrev pub use_canceler : Option Bool → Operation → Move
use_canceler none op = to op cancel_plain
use_canceler (some false) op = to op (refused canceler_unarmed)
use_canceler (some true) op = to (record op { canceler = some false }) cancel_plain

unfoldable pub move : Operation → Return → Pc → Move
move op r run_test = to op (if status_eq op.status pending then run_lock else refused not_pending)
move op r run_lock = record {
  op = record op { status = running };
  next = ended;
  starts = if op.on_run then run_call ∷ [] else [];
  panics = false;
}
move op r run_call = if op.on_run then to op run_wait else crash op
move op none run_wait = to op run_success
move op (some e) run_wait = to op (run_failure e)
move op r run_success = to (record op { status = success }) done_test
move op r (run_failure e) = to (record op { status = failure; err_text = some e }) done_test
move op r done_test = to op (if op.readonly then ended else done_lock)
move op r done_lock = if op.closes == 0 then to (finish op) ended else crash (finish op)
move op r cancel_test =
    to op (if status_eq op.status running then cancel_may else refused not_running)
move op r cancel_may = to op (if may_cancel op then cancel_lock else refused not_cancellable)
move op r cancel_lock = to (record op { status = cancelling }) (cancel_start op.status)
move op r (cancel_start old) = record {
  op = op;
  next = cancel_canceler;
  starts = if op.on_cancel then cancel_call old ∷ [] else [];
  panics = false;
}
move op r cancel_canceler = use_canceler op.canceler op
move op r cancel_plain = to op (if not op.on_cancel then cancel_success else ended)
move op r (cancel_call old) = if op.on_cancel then to op (cancel_wait old) else crash op
move op r (cancel_wait old) = to op (returned old r)
move op r (cancel_restore old) = to (record op { status = old }) ended
move op r cancel_success = to (record op { status = cancelled }) done_test
move op r connect_test =
    if is_websocket op.class
    then if status_eq op.status running
      then record { op = op; next = ended; starts = connect_call ∷ []; panics = false }
      else to op (refused not_running)
    else to op (refused not_websocket)
move op r connect_call = if op.on_connect then to op connect_wait else crash op
move op r connect_wait = to op ended
move op r ended = to op ended
move op r (refused e) = to op (refused e)

-- An operation with its threads. A panic takes the whole process down.
pub record World : Type 0 where
  pub op : Operation
  pub threads : List Pc
  pub panicked : Bool

unfoldable pub thread_at : List Pc → ℕ → Pc
thread_at [] i = ended
thread_at (pc ∷ pcs) zero = pc
thread_at (pc ∷ pcs) (suc i) = thread_at pcs i

unfoldable pub set_thread : List Pc → ℕ → Pc → List Pc
set_thread [] i pc = []
set_thread (p ∷ pcs) zero pc = pc ∷ pcs
set_thread (p ∷ pcs) (suc i) pc = p ∷ set_thread pcs i pc

unfoldable pub moved : World → ℕ → Move → World
moved w i m = record {
  op = m.op;
  threads = set_thread w.threads i m.next ++ m.starts;
  panicked = m.panics;
}

-- One step of thread `i`; a hook that returns there returns `r`.
unfoldable pub step : World → ℕ × Return → World
step w (i, r) = if w.panicked then w else moved w i (move w.op r (thread_at w.threads i))

unfoldable pub run : World → List (ℕ × Return) → World
run w [] = w
run w (s ∷ schedule) = run (step w s) schedule
