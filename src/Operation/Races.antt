-- ===== src/Operation/Races.antt =====
-- Schedules of the goroutines of apollo/operations.go: `Run` alone, and `Run` beside `Cancel`.
use apollo_controller.Prelude.{
  ℕ, zero, suc, ◌++◌, ◌∙◌, ap, ◌≡◌, refl, sym, subst, true, false, Option, none, some, List, [],
  ◌∷◌, arith,
}
use apollo_controller.Prelude.Text.{Bytes}
use apollo_controller.StatusCode.{
  StatusCode, pending, running, cancelling, success, failure, cancelled, status_eq,
}
use apollo_controller.Operation.{Operation, finish, may_cancel}
use apollo_controller.Operation.Threads

abbrev pub Schedule : Type 0
Schedule = List (ℕ × Threads.Return)

abbrev pub start : Operation → List Threads.Pc → Threads.World
start op calls = record { op = op; threads = calls; panicked = false }

-- The steps of `Run` alone, its hook returning `r`.
abbrev pub run_steps : Threads.Return → Schedule
run_steps r = (0, none) ∷ (0, none) ∷ (1, none) ∷ (1, r) ∷ (1, none) ∷ (1, none) ∷ (1, none) ∷ []

abbrev pub outcome : Threads.Return → StatusCode
outcome none = success
outcome (some e) = failure

abbrev pub text_of : Threads.Return → Option Bytes → Option Bytes
text_of none old = old
text_of (some e) old = some e

run_alone-outcome :
    (op : Operation) (r : Threads.Return)
    → op.status ≡ pending
    → op.on_run ≡ true
    → op.readonly ≡ false
    → op.closes ≡ 0
    → Threads.run (start op (Threads.run_test ∷ [])) (run_steps r) ≡ record {
      op = record op {
        status = outcome r;
        err_text = text_of r op.err_text;
        readonly = true;
        on_run = false;
        on_cancel = false;
        on_connect = false;
        closes = 1;
      };
      threads = Threads.ended ∷ Threads.ended ∷ [];
      panicked = false;
    }
unfolding Threads.run Threads.step Threads.moved Threads.move Threads.thread_at Threads.set_thread
    status_eq finish
run_alone-outcome op none s h o c = ground arith
run_alone-outcome op (some e) s h o c = ground arith

run-append :
    (w : Threads.World) (first more : Schedule)
    → Threads.run w (first ++ more) ≡ Threads.run (Threads.run w first) more
unfolding Threads.run
run-append w [] more = refl
run-append w (s ∷ first) more = run-append (Threads.step w s) first more

-- Two threads that have ended do nothing any more.
ended_stays :
    (op : Operation) (more : Schedule)
    → Threads.run
        (record { op = op; threads = Threads.ended ∷ Threads.ended ∷ []; panicked = false })
        more
      ≡ record { op = op; threads = Threads.ended ∷ Threads.ended ∷ []; panicked = false }
unfolding Threads.run Threads.step Threads.moved Threads.move Threads.thread_at Threads.set_thread
ended_stays op [] = refl
ended_stays op ((zero, r) ∷ more) = ended_stays op more
ended_stays op ((suc zero, r) ∷ more) = ended_stays op more
ended_stays op ((suc (suc i), r) ∷ more) = ended_stays op more

-- Where `Run` of a pending operation with a run hook, with no other call beside it, is given the
-- steps up to the end of its goroutine, it ends: in success if the hook returns nothing, in failure
-- with the text of its error if it returns one. The operation is then read-only without hooks, its
-- channel has been closed once, and nothing panicked; and it stays so under every schedule.
pub run_alone_ends :
    (op : Operation) (r : Threads.Return) (more : Schedule)
    → op.status ≡ pending
    → op.on_run ≡ true
    → op.readonly ≡ false
    → op.closes ≡ 0
    → Threads.run (start op (Threads.run_test ∷ [])) (run_steps r ++ more) ≡ record {
      op = record op {
        status = outcome r;
        err_text = text_of r op.err_text;
        readonly = true;
        on_run = false;
        on_cancel = false;
        on_connect = false;
        closes = 1;
      };
      threads = Threads.ended ∷ Threads.ended ∷ [];
      panicked = false;
    }
run_alone_ends op r more s h o c =
    run-append (start op (Threads.run_test ∷ [])) (run_steps r) more
    ∙ ap (λ w. Threads.run w more) (run_alone-outcome op r s h o c)
    ∙ ended_stays _ more

-- An operation that can be run and cancelled, with what the theorems below assume of it filled in.
abbrev pinned : Operation → Operation
pinned op = record op {
  status = pending;
  on_run = true;
  on_cancel = true;
  readonly = false;
  closes = 0;
}

-- A pending operation with a run hook and a cancel hook that is not done.
pub record IsReady (op : Operation) : Type 0 where
  pub pends : op.status ≡ pending
  pub runs : op.on_run ≡ true
  pub cancels : op.on_cancel ≡ true
  pub open_yet : op.readonly ≡ false
  pub unclosed : op.closes ≡ 0

pinned-same : (op : Operation) → IsReady op → pinned op ≡ op
pinned-same op h = sym λ i. record op {
  status = h.pends i;
  on_run = h.runs i;
  on_cancel = h.cancels i;
  readonly = h.open_yet i;
  closes = h.unclosed i;
}

abbrev both_calls : Operation → Threads.World
both_calls op = start op (Threads.run_test ∷ Threads.cancel_test ∷ [])

-- `Run` up to the return of its hook, and `Cancel` up to the return of its own.
abbrev pub hooks_return : Schedule
hooks_return =
    (0, none)
    ∷ (0, none)
    ∷ (2, none)
    ∷ (2, none)
    ∷ (1, none)
    ∷ (1, none)
    ∷ (1, none)
    ∷ (1, none)
    ∷ (3, none)
    ∷ (3, none)
    ∷ []

-- Each goroutine records its result and tests `readonly`; then each takes the lock.
abbrev pub crossed : Schedule
crossed = (2, none) ∷ (3, none) ∷ (2, none) ∷ (3, none) ∷ (2, none) ∷ (3, none) ∷ []

-- The goroutine of `Cancel` finishes, and that of `Run` after it.
abbrev pub cancel_finishes : Schedule
cancel_finishes = (3, none) ∷ (3, none) ∷ (3, none) ∷ []

abbrev pub run_finishes : Schedule
run_finishes = (2, none) ∷ (2, none) ∷ []

may_cancel-pinned : (op : Operation) → may_cancel (record (pinned op) { status = running }) ≡ true
unfolding may_cancel
may_cancel-pinned op = ground arith

-- The world after both hooks have returned.
abbrev hooked : Operation → Threads.World
hooked op = record {
  op = record (pinned op) { status = cancelling };
  threads =
      Threads.ended ∷ Threads.cancel_canceler ∷ Threads.run_success ∷ Threads.cancel_success ∷ [];
  panicked = false;
}

pinned_hooks : (op : Operation) → Threads.run (both_calls (pinned op)) hooks_return ≡ hooked op
unfolding Threads.run Threads.step Threads.moved Threads.move Threads.thread_at Threads.set_thread
    status_eq
pinned_hooks op = rw (may_cancel-pinned op) refl

hooked_crosses : (op : Operation) → (Threads.run (hooked op) crossed).panicked ≡ true
unfolding Threads.run Threads.step Threads.moved Threads.move Threads.thread_at Threads.set_thread
    finish
hooked_crosses op = refl

abbrev Overtaken : Threads.World → Type 0
Overtaken w =
    (w.op.status ≡ cancelled)
    × (w.op.readonly ≡ true)
    × (w.op.closes ≡ 1)
    × ((Threads.run w run_finishes).op.status ≡ success)
    × ((Threads.run w run_finishes).panicked ≡ false)

hooked-Overtaken : (op : Operation) → Overtaken (Threads.run (hooked op) cancel_finishes)
unfolding Threads.run Threads.step Threads.moved Threads.move Threads.thread_at Threads.set_thread
    finish
hooked-Overtaken op = (refl, refl, refl, refl, refl)

-- `done` tests `readonly` before it takes the lock. Every pending operation that has a run hook and
-- a cancel hook and is not done has an interleaving of one `Run` and one `Cancel`, with hooks that
-- return no error, in which two goroutines pass the test: the second to close the channel panics.
pub double_close :
    (op : Operation)
    → IsReady op
    → (Threads.run (Threads.run (both_calls op) hooks_return) crossed).panicked ≡ true
double_close op h =
    subst (λ o. (Threads.run (Threads.run (both_calls o) hooks_return) crossed).panicked ≡ true)
      (pinned-same op h) (rw (pinned_hooks op) (hooked_crosses op))

-- A finished cancellation is not the end: in every pending operation that has a run hook and a
-- cancel hook and is not done, `Cancel` may reach `Cancelled`, with the operation read-only and its
-- channel closed, while the hook of `Run` has returned, and the goroutine of `Run` then sets the
-- status to `Success`.
pub success_after_cancelled :
    (op : Operation)
    → IsReady op
    → let w = Threads.run (Threads.run (both_calls op) hooks_return) cancel_finishes in
      (w.op.status ≡ cancelled)
      × (w.op.readonly ≡ true)
      × (w.op.closes ≡ 1)
      × ((Threads.run w run_finishes).op.status ≡ success)
      × ((Threads.run w run_finishes).panicked ≡ false)
success_after_cancelled op h =
    subst (λ o. Overtaken (Threads.run (Threads.run (both_calls o) hooks_return) cancel_finishes))
      (pinned-same op h) (rw (pinned_hooks op) (hooked-Overtaken op))
