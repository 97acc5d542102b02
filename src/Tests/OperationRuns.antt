-- ===== src/Tests/OperationRuns.antt =====
-- apollo/operations.go on concrete operations.
use apollo_controller.Prelude.{◌++◌, ◌≤◌, ◌≡◌, refl, true, false, none, some, [], ◌∷◌, ok}
use apollo_controller.Prelude.Text.{codes}
use apollo_controller.StatusCode.{pending, failure}
use apollo_controller.Operation.{task, Operation, Request, initial, operation_create}
use apollo_controller.Operation.Threads
use apollo_controller.Operation.Invariant.{IsConsistent, run-create-IsConsistent}
use apollo_controller.Operation.Races.{
  run_steps, IsReady, start, hooks_return, crossed, run_alone_ends, double_close,
}
use apollo_controller.Operation.Solo.{run_alone_safe}

abbrev request : Request
request = record {
  new_id = codes "a1";
  now = 5;
  class = task;
  resources = (codes "containers", codes "c1" ∷ []) ∷ [];
  metadata = ok none;
  on_run = true;
  on_cancel = true;
  on_connect = false;
}

abbrev fresh : Operation
fresh = record {
  id = codes "a1";
  class = task;
  created_at = 5;
  updated_at = 5;
  status = pending;
  url = codes "/1.0/operations/a1";
  resources = (codes "containers", codes "c1" ∷ []) ∷ [];
  metadata = none;
  err_text = none;
  readonly = false;
  canceler = none;
  on_run = true;
  on_cancel = true;
  on_connect = false;
  closes = 0;
}

fresh_created : operation_create request ≡ ok fresh
unfolding operation_create initial
fresh_created = refl

run-create-IsConsistent_example :
    IsConsistent
      (Threads.run (start fresh (Threads.run_test ∷ Threads.cancel_test ∷ [])) hooks_return).op
run-create-IsConsistent_example =
    run-create-IsConsistent request (Threads.run_test ∷ Threads.cancel_test ∷ []) hooks_return
      fresh_created

run_alone_ends_example :
    Threads.run
      (start fresh (Threads.run_test ∷ []))
      (run_steps (some (codes "no space")) ++ (1, none) ∷ (0, none) ∷ [])
    ≡ record {
      op = record fresh {
        status = failure;
        err_text = some (codes "no space");
        readonly = true;
        on_run = false;
        on_cancel = false;
        on_connect = false;
        closes = 1;
      };
      threads = Threads.ended ∷ Threads.ended ∷ [];
      panicked = false;
    }
run_alone_ends_example =
    run_alone_ends fresh (some (codes "no space")) ((1, none) ∷ (0, none) ∷ []) refl refl refl refl

fresh-IsReady : IsReady fresh
fresh-IsReady = record {
  pends = refl;
  runs = refl;
  cancels = refl;
  open_yet = refl;
  unclosed = refl;
}

run_alone_safe_example :
    let w = Threads.run (start fresh (Threads.run_test ∷ [])) hooks_return in
    (w.panicked ≡ false) × (w.op.closes ≤ 1)
run_alone_safe_example = run_alone_safe fresh hooks_return refl

double_close_example :
    (Threads.run
      (Threads.run (start fresh (Threads.run_test ∷ Threads.cancel_test ∷ [])) hooks_return)
      crossed).panicked
    ≡ true
double_close_example = double_close fresh fresh-IsReady
