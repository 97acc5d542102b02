-- ===== src/Operation.antt =====
-- apollo/operations.go: background operations, their hooks and their threads.
pub mod Threads
pub mod Invariant
pub mod Races
pub mod Requests
pub mod Table
pub mod Solo
use apollo_controller.Prelude.{
  ℕ, zero, suc, ◌+◌, ◌-◌, ◌*◌, ◌/◌, ◌%◌, ◌^◌, ◌≤◌, ◌<◌, ◌≡◌, ◌≢◌, ◌↔◌, ◌⊎◌, inl, inr, refl, sym, ap,
  ap₂, subst, ◌∙◌, Bool, true, false, not, ◌&&◌, ◌||◌, Option, none, some, List, [], ◌∷◌, ◌++◌, map,
  append_assoc, append-nil, arith, ltb, leb, ◌==◌, if◌then◌else◌, bool_eq, Bool-cases, Option-cases,
  ==_iff, length, take, drop, length-append, All, All-append, Result, ok, err, ◌>>=◌, ◌>>◌, guard,
  or_fail, >>=-eq-ok, ok-injective,
}
use apollo_controller.Prelude.Text.{Bytes, codes}
use apollo_controller.StatusCode.{
  StatusCode, pending, running, cancelling, success, failure, cancelled, status_eq, is_final,
  to_string,
}

pub data Class : Type 0 where
  task websocket token : Class

unfoldable pub class_string : Class → Bytes
class_string task = codes "task"
class_string websocket = codes "websocket"
class_string token = codes "token"

abbrev pub Map : Type 0
Map = List (Bytes × Bytes)

-- A hook is there or nil. `canceler` is nil, or a canceler that is armed or not. `closes` counts
-- the calls of `close(op.chanDone)`.
pub record Operation : Type 0 where
  pub id : Bytes
  pub class : Class
  pub created_at : ℕ
  pub updated_at : ℕ
  pub status : StatusCode
  pub url : Bytes
  pub resources : List (Bytes × List Bytes)
  pub metadata : Option Map
  pub err_text : Option Bytes
  pub readonly : Bool
  pub canceler : Option Bool
  pub on_run : Bool
  pub on_cancel : Bool
  pub on_connect : Bool
  pub closes : ℕ

pub data Error : Type 0 where
  not_pending not_running not_cancellable canceler_unarmed not_websocket not_updatable : Error
  read_only bad_metadata stray_connect missing_connect stray_run stray_cancel no_operation : Error

abbrev pub is_websocket : Class → Bool
is_websocket task = false
is_websocket websocket = true
is_websocket token = false

abbrev pub is_token : Class → Bool
is_token task = false
is_token websocket = false
is_token token = true

-- `op.canceler != nil && op.canceler.Cancelable()`.
abbrev pub armed : Option Bool → Bool
armed none = false
armed (some b) = b

unfoldable pub may_cancel : Operation → Bool
may_cancel op = if is_token op.class then true else if op.on_cancel then true else armed op.canceler

-- The effect of the locked part of `done`.
unfoldable pub finish : Operation → Operation
finish op = record op {
  readonly = true;
  on_run = false;
  on_cancel = false;
  on_connect = false;
  closes = op.closes + 1;
}

-- The arguments of `operationCreate` that the caller chooses, with the id and time it draws.
pub record Request : Type 0 where
  pub new_id : Bytes
  pub now : ℕ
  pub class : Class
  pub resources : List (Bytes × List Bytes)
  pub metadata : Result Error (Option Map)
  pub on_run : Bool
  pub on_cancel : Bool
  pub on_connect : Bool

unfoldable pub initial : Request → Option Map → Operation
initial r metadata = record {
  id = r.new_id;
  class = r.class;
  created_at = r.now;
  updated_at = r.now;
  status = pending;
  url = codes "/1.0/operations/" ++ r.new_id;
  resources = r.resources;
  metadata = metadata;
  err_text = none;
  readonly = false;
  canceler = none;
  on_run = r.on_run;
  on_cancel = r.on_cancel;
  on_connect = r.on_connect;
  closes = 0;
}

-- `operationCreate`, up to the entry in the table of operations.
unfoldable pub operation_create : Request → Result Error Operation
operation_create r = do
  metadata ← r.metadata
  guard (not (not (is_websocket r.class) && r.on_connect)) stray_connect
  guard (not (is_websocket r.class && not r.on_connect)) missing_connect
  guard (not (is_token r.class && r.on_run)) stray_run
  guard (not (is_token r.class && r.on_cancel)) stray_cancel
  ok (initial r metadata)

-- Resources and metadata change only before the end.
abbrev pub updatable : Operation → Bool
updatable op = status_eq op.status pending || status_eq op.status running

unfoldable pub update_resources : Operation → ℕ → List (Bytes × List Bytes) → Result Error Operation
update_resources op now resources = do
  guard (updatable op) not_updatable
  guard (not op.readonly) read_only
  ok (record op { updated_at = now; resources = resources })

unfoldable pub update_metadata : Operation → ℕ → Result Error (Option Map) → Result Error Operation
update_metadata op now metadata = do
  guard (updatable op) not_updatable
  guard (not op.readonly) read_only
  parsed ← metadata
  ok (record op { updated_at = now; metadata = parsed })

-- What `WaitFinal` waits for: nothing, the closing of `chanDone`, or that or a timer.
pub data Wait : Type 0 where
  now : Bool → Wait
  until_done : Bool → Wait
  until_done_or_timer : Bool → Bool → Wait

pub data Timeout : Type 0 where
  forever : Timeout
  seconds : ℕ → Timeout

-- The constructors hold the answers: for `until_done_or_timer` the one on `chanDone` first.
unfoldable pub wait_final : Operation → Timeout → Wait
wait_final op forever = if is_final op.status then now true else until_done true
wait_final op (seconds n) =
    if is_final op.status
    then now true
    else if ltb 0 n
    then until_done_or_timer false false
    else now false
