-- ===== src/ContainerLock/Once.antt =====
-- What holds of the locks of containers whatever threads do.
use apollo_controller.Prelude.{
  ℕ, zero, suc, ◌+◌, ◌≤◌, ◌<◌, ◌≡◌, inl, inr, refl, Bool, true, Option, none, some, List, [], ◌∷◌,
  ◌++◌, arith, ◌==◌, if◌then◌else◌, Bool-cases, length,
}
use apollo_controller.Prelude.Text.{Bytes}
use apollo_controller.ContainerLock.{
  Op, Locks, op_at, set_op, put, new_op, install, is_ref, done_at, done, Event, starts, ends, step,
  run,
}

pub op_at-set_op :
    (ops : List Op) (i j : ℕ) (op x : Op)
    → op_at ops i ≡ some op
    → op_at (set_op ops i x) j ≡ (if i == j then some x else op_at ops j)
unfolding op_at set_op
op_at-set_op [] i j op x h = cc
op_at-set_op (o ∷ ops) zero zero op x h = refl
op_at-set_op (o ∷ ops) zero (suc j) op x h = ground arith
op_at-set_op (o ∷ ops) (suc i) zero op x h = ground arith
op_at-set_op (o ∷ ops) (suc i) (suc j) op x h = ground (arith, op_at-set_op ops i j op x h)

pub op_at-snoc :
    (ops : List Op) (x : Op) (j : ℕ)
    → op_at (ops ++ (x ∷ [])) j ≡ (if j == length ops then some x else op_at ops j)
unfolding op_at
op_at-snoc [] x zero = ground arith
op_at-snoc [] x (suc j) = ground arith
op_at-snoc (o ∷ ops) x zero = ground arith
op_at-snoc (o ∷ ops) x (suc j) = ground (arith, op_at-snoc ops x j)

pub op_at-lt : (ops : List Op) (j : ℕ) {op : Op} → op_at ops j ≡ some op → j < length ops
unfolding op_at
op_at-lt [] j h = cc
op_at-lt (o ∷ ops) zero h = omega arith
op_at-lt (o ∷ ops) (suc j) h = omega (arith, op_at-lt ops j h)

-- The map leads to operations of the container whose channel is open, and no channel has been
-- closed more than once.
pub record IsSound (l : Locks) : Type 0 where
  pub is_open :
      (id ref : ℕ)
      → l.running id ≡ some ref
      → (op : Op) × (op_at l.ops ref ≡ some op) × (op.id ≡ id) × (op.closes ≡ 0)
  pub once : (ref : ℕ) (op : Op) → op_at l.ops ref ≡ some op → op.closes ≤ 1

pub install-IsSound :
    (l : Locks) (id : ℕ) (action : Bytes) (reusable : Bool)
    → IsSound l
    → IsSound (install l id action reusable)
unfolding install new_op
install-IsSound l id action reusable v = record { is_open = is_open'; once = once' }
  where
    x : Op
    x = new_op id action reusable

    is_open' :
        (j ref : ℕ)
        → put l.running id (some (length l.ops)) j ≡ some ref
        → (op : Op) × (op_at (l.ops ++ (x ∷ [])) ref ≡ some op) × (op.id ≡ j) × (op.closes ≡ 0)
    is_open' j ref h = elim (Bool-cases (id == j)) [
      | inl e ↦ (x, ground (arith, op_at-snoc l.ops x ref), ground arith, refl)
      | inr e ↦
          (let (op, f, g, k) = v.is_open j ref (rw e at h) in
            (op, ground (arith, op_at-snoc l.ops x ref, op_at-lt l.ops ref f), g, k))
    ]

    once' : (ref : ℕ) (op : Op) → op_at (l.ops ++ (x ∷ [])) ref ≡ some op → op.closes ≤ 1
    once' ref op h = ground (arith, op_at-snoc l.ops x ref, v.once ref op)

pub is_ref-some : (o : Option ℕ) (ref : ℕ) → is_ref o ref ≡ true → o ≡ some ref
is_ref-some none ref h = cc
is_ref-some (some r) ref h = ground arith

done-IsSound : (l : Locks) (ref : ℕ) (e : Option Bytes) → IsSound l → IsSound (done l ref e)
unfolding done
done-IsSound l ref e v = at (op_at l.ops ref) refl
  where
    at : (o : Option Op) → op_at l.ops ref ≡ o → IsSound (done_at l ref e o)
    at none h = v
    at (some op) h = elim (Bool-cases (is_ref (l.running op.id) ref)) [
      | inl r ↦ rw r (closed (is_ref-some (l.running op.id) ref r))
      | inr r ↦ rw r v
    ]
      where
        x : Op
        x = record op { error_text = e; closes = op.closes + 1 }

        was_open : l.running op.id ≡ some ref → op.closes ≡ 0
        was_open r = let (o, f, g, k) = v.is_open op.id ref r in ground arith

        still :
            (j r' : ℕ)
            → put l.running op.id none j ≡ some r'
            → (o : Op) × (op_at (set_op l.ops ref x) r' ≡ some o) × (o.id ≡ j) × (o.closes ≡ 0)
        still j r' q = elim (Bool-cases (op.id == j)) [
          | inl t ↦ absurd (no (rw t at q))
          | inr t ↦
              (let (o, f, g, k) = v.is_open j r' (rw t at q) in
                (o, ground (arith, op_at-set_op l.ops ref r' op x h), g, k))
        ]
          where
            no : none ≡ some r' → ⊥
            no z = cc

        closed :
            l.running op.id ≡ some ref
            → IsSound (record { ops = set_op l.ops ref x; running = put l.running op.id none })
        closed r = record {
          is_open = still;
          once =
              λ r' o f. ground (arith, op_at-set_op l.ops ref r' op x h, was_open r, v.once r' o);
        }

step-IsSound : (l : Locks) (e : Event) → IsSound l → IsSound (step l e)
unfolding step
step-IsSound l (starts id action reusable) v = install-IsSound l id action reusable v
step-IsSound l (ends ref e) v = done-IsSound l ref e v

-- Whatever threads do, also where two create an operation for one container at once: no channel of
-- an operation is closed a second time, and the map leads to operations of the container that are
-- still open.
pub run-IsSound : (l : Locks) (events : List Event) → IsSound l → IsSound (run l events)
unfolding run
run-IsSound l [] v = v
run-IsSound l (e ∷ events) v = run-IsSound (step l e) events (step-IsSound l e v)
