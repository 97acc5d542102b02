-- ===== src/Operation/Solo.antt =====
-- `Run` of apollo/operations.go with no other call beside it, under every schedule.
use apollo_controller.Prelude.{
  ℕ, zero, suc, ◌≤◌, ◌≡◌, refl, true, false, none, some, List, [], ◌∷◌, ◌++◌, arith,
}
use apollo_controller.Operation.{Operation, finish}
use apollo_controller.Operation.Threads
use apollo_controller.Operation.Races.{Schedule, start}

-- Where the goroutine of `Run` may stand, and what holds of the operation there.
abbrev Behind : Operation → Threads.Pc → Type 0
Behind op Threads.run_call = (op.on_run ≡ true) × (op.closes ≡ 0)
Behind op Threads.run_wait = op.closes ≡ 0
Behind op Threads.run_success = op.closes ≡ 0
Behind op (Threads.run_failure e) = op.closes ≡ 0
Behind op Threads.done_test = op.closes ≡ 0
Behind op Threads.done_lock = op.closes ≡ 0
Behind op Threads.ended = op.closes ≤ 1
Behind op _ = ⊥

-- The same for the caller of `Run`, before the goroutine is there.
abbrev Before : Operation → Threads.Pc → Type 0
Before op Threads.run_test = op.closes ≡ 0
Before op Threads.run_lock = op.closes ≡ 0
Before op Threads.ended = op.closes ≡ 0
Before op (Threads.refused e) = op.closes ≡ 0
Before op _ = ⊥

abbrev Shape : Operation → List Threads.Pc → Type 0
Shape op (pc ∷ []) = Before op pc
Shape op (Threads.ended ∷ pc ∷ []) = Behind op pc
Shape op _ = ⊥

record IsSolo (w : Threads.World) : Type 0 where
  calm : w.panicked ≡ false
  shape : Shape w.op w.threads

move-Behind :
    (op : Operation) (r : Threads.Return) (pc : Threads.Pc)
    → Behind op pc
    → (Behind (Threads.move op r pc).op (Threads.move op r pc).next)
      × ((Threads.move op r pc).panics ≡ false)
      × ((Threads.move op r pc).starts ≡ [])
unfolding Threads.move finish
move-Behind op none Threads.run_wait h = ground arith
move-Behind op (some e) Threads.run_wait h = ground arith
move-Behind op _ _ h = ground arith

-- A caller's step keeps it before the goroutine, or starts the goroutine and ends.
move-Before :
    (op : Operation) (r : Threads.Return) (pc : Threads.Pc)
    → Before op pc
    → (Shape
        (Threads.move op r pc).op
        ((Threads.move op r pc).next ∷ (Threads.move op r pc).starts))
      × ((Threads.move op r pc).panics ≡ false)
unfolding Threads.move
move-Before op r Threads.run_test h = ground arith
move-Before op r Threads.run_lock h = ground arith
move-Before op r Threads.ended h = ground arith
move-Before op r (Threads.refused e) h = ground arith
move-Before op _ _ h = ground arith

abbrev Keeps : List Threads.Pc → Operation → ℕ → Threads.Move → Type 0
Keeps threads op i m =
    (m.panics ≡ false) × Shape m.op (Threads.set_thread threads i m.next ++ m.starts)

step-Shape :
    (op : Operation) (threads : List Threads.Pc) (i : ℕ) (r : Threads.Return)
    → Shape op threads
    → Keeps threads op i (Threads.move op r (Threads.thread_at threads i))
unfolding Threads.thread_at Threads.set_thread
step-Shape op [] i r h = absurd h
step-Shape op (pc ∷ []) zero r h = (let b = move-Before op r pc h in (b.1, b.0))
step-Shape op (pc ∷ []) (suc i) r h = unfold Threads.move in (refl, h)
step-Shape op (Threads.ended ∷ pc ∷ []) zero r h = unfold Threads.move in (refl, h)
step-Shape op (Threads.ended ∷ pc ∷ []) (suc zero) r h =
    let b = move-Behind op r pc h in (b.1, rw b.2 b.0)
step-Shape op (Threads.ended ∷ pc ∷ []) (suc (suc i)) r h = unfold Threads.move in (refl, h)
step-Shape op _ _ r h = absurd h

step-IsSolo : (w : Threads.World) (s : ℕ × Threads.Return) → IsSolo w → IsSolo (Threads.step w s)
unfolding Threads.step Threads.moved
step-IsSolo w (i, r) v =
    let k = step-Shape w.op w.threads i r v.shape in
    simp v.calm (record { calm = k.0; shape = k.1 })

run-IsSolo : (w : Threads.World) (schedule : Schedule) → IsSolo w → IsSolo (Threads.run w schedule)
unfolding Threads.run
run-IsSolo w [] v = v
run-IsSolo w (s ∷ schedule) v = run-IsSolo (Threads.step w s) schedule (step-IsSolo w s v)

Before-closes : (op : Operation) (pc : Threads.Pc) → Before op pc → op.closes ≤ 1
Before-closes op Threads.run_test h = ground arith
Before-closes op _ h = ground arith

Behind-closes : (op : Operation) (pc : Threads.Pc) → Behind op pc → op.closes ≤ 1
Behind-closes op Threads.run_call h = ground arith
Behind-closes op _ h = ground arith

Shape-closes : (op : Operation) (threads : List Threads.Pc) → Shape op threads → op.closes ≤ 1
Shape-closes op [] h = absurd h
Shape-closes op (pc ∷ []) h = Before-closes op pc h
Shape-closes op (Threads.ended ∷ pc ∷ []) h = Behind-closes op pc h
Shape-closes op _ h = absurd h

-- One call of `Run` with no other call beside it never panics and closes the channel at most once,
-- whatever the schedule and whatever its hook returns, on an operation whose channel is open.
pub run_alone_safe :
    (op : Operation) (schedule : Schedule)
    → op.closes ≡ 0
    → let w = Threads.run (start op (Threads.run_test ∷ [])) schedule in
      (w.panicked ≡ false) × (w.op.closes ≤ 1)
run_alone_safe op schedule c =
    let w = Threads.run (start op (Threads.run_test ∷ [])) schedule in
    let v =
      run-IsSolo (start op (Threads.run_test ∷ [])) schedule (record { calm = refl; shape = c }) in
    (v.calm, Shape-closes w.op w.threads v.shape)
