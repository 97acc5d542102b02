-- ===== src/ContainerLock.antt =====
-- The lock on a container, of apollo/container_mercury.go: mercuryContainerOperation with
-- createOperation and getOperation. An operation is its place in the list of all that
-- were made; `running` is the map by container id. A section under the lock is one step.
pub mod Once
pub mod Lost
pub mod Create
use apollo_controller.Prelude.{
  ℕ, zero, suc, ◌+◌, ◌-◌, ◌*◌, ◌/◌, ◌%◌, ◌^◌, ◌≤◌, ◌<◌, ◌≡◌, ◌≢◌, ◌↔◌, ◌⊎◌, inl, inr, refl, sym, ap,
  ap₂, subst, ◌∙◌, Bool, true, false, not, ◌&&◌, ◌||◌, Option, none, some, List, [], ◌∷◌, ◌++◌, map,
  append_assoc, append-nil, arith, ltb, leb, ◌==◌, if◌then◌else◌, bool_eq, Bool-cases, Option-cases,
  ==_iff, length, take, drop, length-append, take-length-append, drop-length-append, All,
  All-append, All-imp, Result, ok, err, ◌>>=◌, ◌>>◌, guard, or_fail, >>=-eq-ok, ok-injective,
}
use apollo_controller.Prelude.Text.{Bytes, bytes_eq}

-- `closes` counts the calls of `close(op.chanDone)`. The channel that stops the timer is left out.
pub record Op : Type 0 where
  pub id : ℕ
  pub action : Bytes
  pub reusable : Bool
  pub error_text : Option Bytes
  pub closes : ℕ

pub record Locks : Type 0 where
  pub ops : List Op
  pub running : ℕ → Option ℕ

pub data Error : Type 0 where
  not_running other_action busy : Error

unfoldable pub op_at : List Op → ℕ → Option Op
op_at [] i = none
op_at (op ∷ ops) zero = some op
op_at (op ∷ ops) (suc i) = op_at ops i

unfoldable pub set_op : List Op → ℕ → Op → List Op
set_op [] i op = []
set_op (o ∷ ops) zero op = op ∷ ops
set_op (o ∷ ops) (suc i) op = o ∷ set_op ops i op

abbrev pub put : (ℕ → Option ℕ) → ℕ → Option ℕ → ℕ → Option ℕ
put running id v j = if id == j then v else running j

unfoldable pub new_op : ℕ → Bytes → Bool → Op
new_op id action reusable = record {
  id = id;
  action = action;
  reusable = reusable;
  error_text = none;
  closes = 0;
}

-- The second locked section of `createOperation`.
unfoldable pub install : Locks → ℕ → Bytes → Bool → Locks
install l id action reusable = record {
  ops = l.ops ++ (new_op id action reusable ∷ []);
  running = put l.running id (some (length l.ops));
}

abbrev pub is_ref : Option ℕ → ℕ → Bool
is_ref none ref = false
is_ref (some r) ref = r == ref

abbrev pub done_at : Locks → ℕ → Option Bytes → Option Op → Locks
done_at l ref e none = l
done_at l ref e (some op) =
    if is_ref (l.running op.id) ref
    then record {
      ops = set_op l.ops ref (record op { error_text = e; closes = op.closes + 1 });
      running = put l.running op.id none;
    }
    else l

-- `Done`.
unfoldable pub done : Locks → ℕ → Option Bytes → Locks
done l ref e = done_at l ref e (op_at l.ops ref)

abbrev pub ref_of : Option ℕ → Result Error ℕ
ref_of none = err not_running
ref_of (some ref) = ok ref

abbrev pub matches : Bytes → Option Op → Bool
matches action none = true
matches action (some op) = not (not (bytes_eq action []) && not (bytes_eq op.action action))

-- `getOperation`.
unfoldable pub get_operation : Locks → ℕ → Bytes → Result Error ℕ
get_operation l id action = do
  ref ← ref_of (l.running id)
  guard (matches action (op_at l.ops ref)) other_action
  ok ref

abbrev pub is_reusable : Option Op → Bool
is_reusable none = false
is_reusable (some op) = op.reusable

abbrev pub create_beside :
    Locks → ℕ → Bytes → Bool → Bool → Result Error ℕ → Result Error (ℕ × Locks)
create_beside l id action reusable reuse (ok ref) =
    if reuse && is_reusable (op_at l.ops ref) then ok (ref, l) else err busy
create_beside l id action reusable reuse (err e) = ok (length l.ops, install l id action reusable)

-- `createOperation` with nothing else between its two locked sections. Reusing an operation resets
-- its timer.
unfoldable pub create_operation : Locks → ℕ → Bytes → Bool → Bool → Result Error (ℕ × Locks)
create_operation l id action reusable reuse =
    create_beside l id action reusable reuse (get_operation l id [])

-- What threads do to the locks, one section at a time. The end of the timer is a call of `Done`.
pub data Event : Type 0 where
  starts : ℕ → Bytes → Bool → Event
  ends : ℕ → Option Bytes → Event

unfoldable pub step : Locks → Event → Locks
step l (starts id action reusable) = install l id action reusable
step l (ends ref e) = done l ref e

unfoldable pub run : Locks → List Event → Locks
run l [] = l
run l (e ∷ events) = run (step l e) events

abbrev pub waited : Option Op → Option (Option Bytes)
waited none = none
waited (some op) = if op.closes == 0 then none else some op.error_text

-- `Wait` on an operation: it returns once the channel is closed, with the error.
unfoldable pub wait : Locks → ℕ → Option (Option Bytes)
wait l ref = waited (op_at l.ops ref)
