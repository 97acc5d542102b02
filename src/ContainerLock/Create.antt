-- ===== src/ContainerLock/Create.antt =====
-- A container that is taken, until its operation ends.
use apollo_controller.Prelude.{
  ℕ, ◌+◌, ◌≡◌, ◌⊎◌, inl, inr, refl, sym, ap, subst, ◌∙◌, Bool, true, false, ◌&&◌, Option, none,
  some, List, [], ◌∷◌, arith, ◌==◌, Bool-cases, ==_iff, length, All, Result, ok, err, ok-injective,
}
use apollo_controller.Prelude.Text.{Bytes, bytes_eq}
use apollo_controller.ContainerLock.{
  Op, Locks, Error, busy, op_at, set_op, put, install, is_ref, is_reusable, matches, done_at, done,
  get_operation, not_running, waited, create_beside, create_operation, Event, starts, ends, step,
  run, wait,
}
use apollo_controller.ContainerLock.Once.{
  IsSound, is_ref-some, op_at-set_op, run-IsSound, install-IsSound,
}

-- An event that neither takes the container nor ends its operation.
abbrev pub Spares : ℕ → ℕ → Event → Type 0
Spares id ref (starts j action reusable) = j == id ≡ false
Spares id ref (ends r e) = r == ref ≡ false

step-running :
    (l : Locks) (id ref : ℕ) (e : Event)
    → Spares id ref e
    → l.running id ≡ some ref
    → (step l e).running id ≡ some ref
unfolding step install done
step-running l id ref (starts j action reusable) s h = rw s h
step-running l id ref (ends r e) s h = at (op_at l.ops r)
  where
    at : (o : Option Op) → (done_at l r e o).running id ≡ some ref
    at none = h
    at (some op) = elim (Bool-cases (is_ref (l.running op.id) r)) [
      | inl t ↦ rw t (other (is_ref-some (l.running op.id) r t) (Bool-cases (op.id == id)))
      | inr t ↦ rw t h
    ]
      where
        other :
            l.running op.id ≡ some r
            → (op.id == id ≡ true) ⊎ (op.id == id ≡ false)
            → put l.running op.id none id ≡ some ref
        other q (inl u) = absurd (apart (sym q ∙ ap l.running ((==_iff op.id id).0 u) ∙ h))
          where
            apart : some r ≡ some ref → ⊥
            apart z = ground arith
        other q (inr u) = rw u h

run-running :
    (l : Locks) (id ref : ℕ) (events : List Event)
    → All (Spares id ref) events
    → l.running id ≡ some ref
    → (run l events).running id ≡ some ref
unfolding run
run-running l id ref [] s h = h
run-running l id ref (e ∷ events) s h =
    run-running (step l e) id ref events s.1 (step-running l id ref e s.0 h)

matches_any : (o : Option Op) → matches [] o ≡ true
unfolding bytes_eq
matches_any none = refl
matches_any (some op) = refl

get_operation-running :
    (l : Locks) (id ref : ℕ) → l.running id ≡ some ref → get_operation l id [] ≡ ok ref
unfolding get_operation
get_operation-running l id ref h = rw (h, matches_any (op_at l.ops ref)) refl

create-running :
    (l : Locks) (id : ℕ) (action : Bytes) (reusable reuse : Bool) {ref : ℕ} {after : Locks}
    → IsSound l
    → create_operation l id action reusable reuse ≡ ok (ref, after)
    → (after.running id ≡ some ref) × IsSound after
unfolding create_operation
create-running l id action reusable reuse {ref} {after} v h = by_running (l.running id) refl
  where
    taken :
        (r : ℕ)
        → create_beside l id action reusable reuse (ok r) ≡ ok (ref, after)
        → l.running id ≡ some r
        → (after.running id ≡ some ref) × IsSound after
    taken r q e = elim (Bool-cases (reuse && is_reusable (op_at l.ops r))) [
      | inl t ↦
          (let p : ◌≡◌ {A = ℕ × Locks} (r, l) (ref, after) = ok-injective (rw t at q) in
            (
              subst (λ (x : ℕ × Locks). x.1.running id ≡ some x.0) p e,
              subst (λ (x : ℕ × Locks). IsSound x.1) p v,
            ))
      | inr t ↦ absurd (refused (rw t at q))
    ]
      where
        refused : ◌≡◌ {A = Result Error (ℕ × Locks)} (err busy) (ok (ref, after)) → ⊥
        refused z = cc

    by_running : (o : Option ℕ) → l.running id ≡ o → (after.running id ≡ some ref) × IsSound after
    by_running (some r) e = taken r (rw (get_operation-running l id r e) at h) e
    by_running none e =
        let q : get_operation l id [] ≡ err not_running = unfold get_operation in rw e refl in
        let p : ◌≡◌ {A = ℕ × Locks} (length l.ops, install l id action reusable) (ref, after) =
          ok-injective (rw q at h) in
        (
          subst (λ (x : ℕ × Locks). x.1.running id ≡ some x.0) p (unfold install in ground arith),
          subst (λ (x : ℕ × Locks). IsSound x.1) p (install-IsSound l id action reusable v),
        )

done-running :
    (l : Locks) (ref : ℕ) (e : Option Bytes) (op : Op)
    → op_at l.ops ref ≡ some op
    → l.running op.id ≡ some ref
    → done l ref e ≡ record {
      ops = set_op l.ops ref (record op { error_text = e; closes = op.closes + 1 });
      running = put l.running op.id none;
    }
unfolding done
done-running l ref e op f r = rw (f, r, (==_iff ref ref).1 refl) refl

-- A container whose operation was created stays taken while no other thread takes it past the
-- check and nobody ends the operation: another `createOperation` that may not reuse it is refused.
-- Whoever ends it hands the error to those that wait for it, and leaves the container free.
pub create_operation-held :
    (l : Locks) (id : ℕ) (action action' : Bytes) (reusable reusable' reuse : Bool)
    (e : Option Bytes) (events : List Event) {ref : ℕ} {after : Locks}
    → IsSound l
    → create_operation l id action reusable reuse ≡ ok (ref, after)
    → All (Spares id ref) events
    → (create_operation (run after events) id action' reusable' false ≡ err busy)
      × (wait (done (run after events) ref e) ref ≡ some e)
      × ((done (run after events) ref e).running id ≡ none)
unfolding wait
create_operation-held l id action action' reusable reusable' reuse e events {ref} {after} v h s =
    let (r, v') = create-running l id action reusable reuse v h in
    let w = run after events in
    let r' = run-running after id ref events s r in
    let (op, f, g, k) = (run-IsSound after events v').is_open id ref r' in
    let d = done-running w ref e op f (ap w.running g ∙ r') in
    (
      unfold create_operation in rw (get_operation-running w id ref r') refl,
      ap (λ (x : Locks). waited (op_at x.ops ref)) d
          ∙ ap waited (
              op_at-set_op w.ops ref ref op (record op { error_text = e; closes = op.closes + 1 })
                f)
          ∙ ground arith,
      ap (λ (x : Locks). x.running id) d ∙ ground (arith, g),
    )
