-- ===== src/ContainerLock/Lost.antt =====
-- Two threads that both find a container free before either of them takes it.
use apollo_controller.Prelude.{
  ℕ, ◌+◌, ◌≡◌, ◌⊎◌, inl, inr, refl, Bool, true, false, Option, none, some, List, [], ◌∷◌, ◌++◌,
  arith, ◌==◌, Bool-cases, length, length-append, err,
}
use apollo_controller.Prelude.Text.{Bytes}
use apollo_controller.ContainerLock.{
  Op, Locks, op_at, set_op, put, new_op, not_running, get_operation, install, is_ref, done_at, done,
  Event, starts, ends, step, run, wait,
}
use apollo_controller.ContainerLock.Once.{IsSound, is_ref-some, op_at-set_op, op_at-snoc, op_at-lt}

-- An open operation that the map does not lead to.
record IsLost (ref : ℕ) (l : Locks) : Type 0 where
  found : (op : Op) × (op_at l.ops ref ≡ some op) × (op.closes ≡ 0)
  unmapped : (id : ℕ) → is_ref (l.running id) ref ≡ false

step-IsLost : (ref : ℕ) (l : Locks) (e : Event) → IsLost ref l → IsLost ref (step l e)
unfolding step install done
step-IsLost ref l (starts id action reusable) v =
    let (op, f, k) = v.found in
    record {
      found = (
        op,
        ground (arith, op_at-snoc l.ops (new_op id action reusable) ref, op_at-lt l.ops ref f),
        k,
      );
      unmapped = λ j. other j (Bool-cases (id == j));
    }
  where
    other :
        (j : ℕ)
        → (id == j ≡ true) ⊎ (id == j ≡ false)
        → is_ref (put l.running id (some (length l.ops)) j) ref ≡ false
    other j (inl t) = rw t (ground (arith, op_at-lt l.ops ref v.found.1))
    other j (inr t) = rw t (v.unmapped j)
step-IsLost ref l (ends r e) v = at (op_at l.ops r) refl
  where
    at : (o : Option Op) → op_at l.ops r ≡ o → IsLost ref (done_at l r e o)
    at none h = v
    at (some x) h = elim (Bool-cases (is_ref (l.running x.id) r)) [
      | inl t ↦ rw t (record {
        found = same (is_ref-some (l.running x.id) r t);
        unmapped = λ j. left j (Bool-cases (x.id == j));
      })
      | inr t ↦ rw t v
    ]
      where
        same :
            l.running x.id ≡ some r
            → (op : Op) × (op_at
                  (set_op l.ops r (record x { error_text = e; closes = x.closes + 1 }))
                  ref
                ≡ some op)
              × (op.closes ≡ 0)
        same q =
            let (op, f, k) = v.found in
            (
              op,
              ground (
                arith,
                op_at-set_op l.ops r ref x (record x { error_text = e; closes = x.closes + 1 }) h,
                v.unmapped x.id,
              ),
              k,
            )

        left :
            (j : ℕ)
            → (x.id == j ≡ true) ⊎ (x.id == j ≡ false)
            → is_ref (put l.running x.id none j) ref ≡ false
        left j (inl u) = rw u refl
        left j (inr u) = rw u (v.unmapped j)

run-IsLost : (ref : ℕ) (l : Locks) (events : List Event) → IsLost ref l → IsLost ref (run l events)
unfolding run
run-IsLost ref l [] v = v
run-IsLost ref l (e ∷ events) v = run-IsLost ref (step l e) events (step-IsLost ref l e v)

IsLost-wait : (ref : ℕ) (l : Locks) → IsLost ref l → wait l ref ≡ none
unfolding wait
IsLost-wait ref l v = let (op, f, k) = v.found in rw (f, k) refl

two_installs-IsLost :
    (l : Locks) (id : ℕ) (action action' : Bytes) (reusable reusable' : Bool)
    → IsSound l
    → IsLost (length l.ops) (install (install l id action reusable) id action' reusable')
unfolding install new_op
two_installs-IsLost l id action action' reusable reusable' v = record {
  found = (
    x,
    ground (
      arith,
      op_at-snoc (l.ops ++ (x ∷ [])) y (length l.ops),
      op_at-snoc l.ops x (length l.ops),
      length-append l.ops (x ∷ []),
    ),
    refl,
  );
  unmapped = λ j. other j (Bool-cases (id == j)) (l.running j) refl;
}
  where
    x : Op
    x = new_op id action reusable

    y : Op
    y = new_op id action' reusable'

    other :
        (j : ℕ)
        → (id == j ≡ true) ⊎ (id == j ≡ false)
        → (o : Option ℕ) → l.running j ≡ o
        → is_ref
            (put (put l.running id (some (length l.ops))) id (some (length (l.ops ++ (x ∷ [])))) j)
            (length l.ops)
          ≡ false
    other j (inl t) o q = rw t (ground (arith, length-append l.ops (x ∷ [])))
    other j (inr t) none q = rw (t, q) refl
    other j (inr t) (some r) q =
        let (op, f, g, k) = v.is_open j r q in rw (t, q) (ground (arith, op_at-lt l.ops r f))

-- `createOperation` looks for a running operation in one locked section and takes the container in
-- another. Where two threads find a container free and then both take it, the operation of the
-- first stays open for ever, whatever threads do after that, its timer and its own end included:
-- who waits for it waits for ever.
pub first_waits_for_ever :
    (l : Locks) (id : ℕ) (action action' : Bytes) (reusable reusable' : Bool) (events : List Event)
    → IsSound l
    → l.running id ≡ none
    → (get_operation l id [] ≡ err not_running)
      × (wait
            (run (install (install l id action reusable) id action' reusable') events)
            (length l.ops)
          ≡ none)
unfolding get_operation
first_waits_for_ever l id action action' reusable reusable' events v free = (
  rw free refl,
  IsLost-wait (length l.ops) _ (
      run-IsLost (length l.ops) _ events
        (two_installs-IsLost l id action action' reusable reusable' v)),
)
