-- ===== src/Operation/Invariant.antt =====
-- What holds of an operation of apollo/operations.go under every interleaving of its threads.
use apollo_controller.Prelude.{
  ℕ, ◌<◌, ◌≡◌, ◌⊎◌, inl, inr, true, false, none, some, List, [], ◌∷◌, arith, Bool-cases, ok,
}
use apollo_controller.Operation.{
  is_websocket, is_token, Operation, finish, initial, Request, operation_create,
}
use apollo_controller.Operation.Threads

-- An operation is open, or it is done: read-only, without hooks, its channel closed. Only websocket
-- operations ever have a connect hook, and token operations have no other hook.
pub record IsConsistent (op : Operation) : Type 0 where
  pub phase :
      ((op.readonly ≡ false) × (op.closes ≡ 0))
      ⊎ ((op.readonly ≡ true)
          × (op.on_run ≡ false)
          × (op.on_cancel ≡ false)
          × (op.on_connect ≡ false)
          × (0 < op.closes))
  pub connects : is_websocket op.class ≡ false → op.on_connect ≡ false
  pub token_runs : is_token op.class ≡ true → op.on_run ≡ false
  pub token_cancels : is_token op.class ≡ true → op.on_cancel ≡ false

move-IsConsistent :
    (op : Operation) (r : Threads.Return) (pc : Threads.Pc)
    → IsConsistent op
    → IsConsistent (Threads.move op r pc).op
unfolding Threads.move finish
move-IsConsistent op none Threads.run_test c = ground arith
move-IsConsistent op (some e) Threads.run_test c = ground arith
move-IsConsistent op _ _ c = ground arith

step-IsConsistent :
    (w : Threads.World) (s : ℕ × Threads.Return)
    → IsConsistent w.op
    → IsConsistent (Threads.step w s).op
unfolding Threads.step Threads.moved
step-IsConsistent w (i, r) v = elim (Bool-cases w.panicked) [
  | inl e ↦ simp e v
  | inr e ↦ simp e (move-IsConsistent w.op r (Threads.thread_at w.threads i) v)
]

run-IsConsistent :
    (w : Threads.World) (schedule : List (ℕ × Threads.Return))
    → IsConsistent w.op
    → IsConsistent (Threads.run w schedule).op
unfolding Threads.run
run-IsConsistent w [] v = v
run-IsConsistent w (s ∷ schedule) v =
    run-IsConsistent (Threads.step w s) schedule (step-IsConsistent w s v)

create-IsConsistent : (q : Request) {op : Operation} → operation_create q ≡ ok op → IsConsistent op
unfolding operation_create initial
create-IsConsistent q {op} h = ground arith

-- Whatever calls run on an operation that was created, in whatever interleaving and whatever its
-- hooks return: it is writable and its channel has not been closed, or it is read-only, has no hook
-- and its channel has been closed; and only a websocket operation has a connect hook and no token
-- operation has another hook.
pub run-create-IsConsistent :
    (q : Request) {op : Operation} (calls : List Threads.Pc) (schedule : List (ℕ × Threads.Return))
    → operation_create q ≡ ok op
    → IsConsistent (Threads.run (record { op = op; threads = calls; panicked = false }) schedule).op
run-create-IsConsistent q {op} calls schedule h =
    run-IsConsistent _ schedule (create-IsConsistent q h)
