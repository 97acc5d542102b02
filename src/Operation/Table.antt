-- ===== src/Operation/Table.antt =====
-- The table of operations of apollo/operations.go, and what the API shows of an operation.
use apollo_controller.Prelude.{
  ℕ, ◌≡◌, Bool, Option, none, some, List, [], ◌∷◌, ◌++◌, map, arith, if◌then◌else◌, Result, ok, err,
  ◌>>=◌, or_fail,
}
use apollo_controller.Prelude.Text.{Bytes, codes, bytes_eq, bytes_eq_iff}
use apollo_controller.StatusCode.{value, to_string}
use apollo_controller.Operation.{
  Operation, Map, Error, no_operation, Request, operation_create, initial, class_string, may_cancel,
}

-- `operations`, by id; an entry in front hides those behind it.
abbrev pub Table : Type 0
Table = List (Bytes × Operation)

unfoldable pub find : Table → Bytes → Option Operation
find [] id = none
find ((key, op) ∷ table) id = if bytes_eq key id then some op else find table id

unfoldable pub operation_get : Table → Bytes → Result Error Operation
operation_get table id = or_fail (find table id) no_operation

-- `operationCreate` with its entry in the table.
unfoldable pub create_in : Table → Request → Result Error (Operation × Table)
create_in table q = do op ← operation_create q; ok (op, (op.id, op) ∷ table)

-- What the timer that `done` starts does five seconds later.
unfoldable pub expire : Bytes → Table → Table
expire id [] = []
expire id ((key, op) ∷ table) =
    if bytes_eq key id then expire id table else (key, op) ∷ expire id table

pub record Rendered : Type 0 where
  pub id : Bytes
  pub class : Bytes
  pub created_at : ℕ
  pub updated_at : ℕ
  pub status : Bytes
  pub status_code : ℕ
  pub resources : List (Bytes × List Bytes)
  pub metadata : Option Map
  pub may_be_cancelled : Bool
  pub err_text : Option Bytes

unfoldable pub resource_url : Bytes → Bytes → Bytes
resource_url key c = codes "/1.0/" ++ (key ++ (codes "/" ++ c))

unfoldable pub render : Operation → Rendered
render op = record {
  id = op.id;
  class = class_string op.class;
  created_at = op.created_at;
  updated_at = op.updated_at;
  status = to_string op.status;
  status_code = value op.status;
  resources = map (λ r. (r.0, map (resource_url r.0) r.1)) op.resources;
  metadata = op.metadata;
  may_be_cancelled = may_cancel op;
  err_text = op.err_text;
}

find-expire :
    (id other : Bytes) (table : Table)
    → find (expire id table) other ≡ (if bytes_eq id other then none else find table other)
unfolding find expire
find-expire id other [] = ground arith
find-expire id other ((key, op) ∷ table) = ground (
  arith,
  bytes_eq_iff key id,
  bytes_eq_iff key other,
  bytes_eq_iff id other,
  find-expire id other table,
)

find-create_in :
    (table : Table) (q : Request) {op : Operation} {after : Table}
    → create_in table q ≡ ok (op, after)
    → (other : Bytes)
    → find after other ≡ (if bytes_eq q.new_id other then some op else find table other)
unfolding find create_in operation_create initial
find-create_in table q h other = ground arith

-- A created operation is found under its id until it expires and not after that, and neither
-- changes what is found under another id.
pub operation_get-create_in :
    (table : Table) (q : Request) (other : Bytes) {op : Operation} {after : Table}
    → create_in table q ≡ ok (op, after)
    → (operation_get after other
        ≡ (if bytes_eq q.new_id other then ok op else operation_get table other))
      × (operation_get (expire q.new_id after) other
          ≡ (if bytes_eq q.new_id other then err no_operation else operation_get table other))
unfolding operation_get
operation_get-create_in table q other {op} {after} h =
    ground (arith, find-create_in table q h other, find-expire q.new_id other after)
