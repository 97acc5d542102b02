-- ===== src/Operation/Requests.antt =====
-- Which requests `operationCreate` of apollo/operations.go accepts, and what `WaitFinal` answers.
use apollo_controller.Prelude.{
  ℕ, ◌≡◌, ◌↔◌, ◌⊎◌, Bool, true, false, Option, arith, if◌then◌else◌, ok,
}
use apollo_controller.StatusCode.{is_final}
use apollo_controller.Operation.{
  is_websocket, is_token, Operation, Map, Request, initial, operation_create, Wait, now, until_done,
  until_done_or_timer, forever, seconds, wait_final,
}

-- `operationCreate` accepts a request with good metadata exactly when it has a connect hook if and
-- only if it is for a websocket, and no run or cancel hook if it is for a token.
pub operation_create_iff :
    (q : Request) (metadata : Option Map)
    → q.metadata ≡ ok metadata
    → (operation_create q ≡ ok (initial q metadata)) ↔ (
        (q.on_connect ≡ is_websocket q.class)
        × ((is_token q.class ≡ false) ⊎ ((q.on_run ≡ false) × (q.on_cancel ≡ false))))
unfolding operation_create
operation_create_iff q metadata m = (λ h. ground arith, λ h. ground arith)

-- The answer of `WaitFinal` once what it waits for has happened, the channel first if `done`.
abbrev pub answer : Bool → Wait → Bool
answer done (now b) = b
answer done (until_done b) = b
answer done (until_done_or_timer b c) = if done then b else c

-- `WaitFinal` answers true on an operation that has ended already, and without a time limit; with
-- a limit, zero included, it answers false on any other, also where the operation ends in time.
pub wait_final_answers :
    (op : Operation) (n : ℕ) (done : Bool)
    → (answer done (wait_final op forever) ≡ true)
      × (answer done (wait_final op (seconds n)) ≡ is_final op.status)
unfolding wait_final
wait_final_answers op n done = (ground arith, ground arith)
