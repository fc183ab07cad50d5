-- ===== src/Schema.antt =====
-- storage/schema.py: keys, the making and checking of task records, and their updates. `now` is the
-- time that `utc_now_iso` prints, `fresh` the text of `generate_task_id`. A payload of a request
-- is a JSON object by its type; `copy.deepcopy` is the identity on values.
pub mod Laws
mod Tests
use distributed_chord_infras.Common.Dict
use Prim.Native.String.{◌++◌ as text_append}
use distributed_chord_infras.Network.{Error, Result, ok, err}
use distributed_chord_infras.Records.Dynamic.{Json, pos, is_int, is_object, truthy}
use distributed_chord_infras.Common.{
  Bool, List, Option, String, [], ℕ, ◌∷◌, elem, if◌then◌else◌, not, some, true, ◌+◌, ◌==◌, false,
  none, str_eq, max,
}
use distributed_chord_infras.Records.{NodeRef, TaskRecord, Value}
use distributed_chord_infras.Text.{is_empty, strip}

infixl 5 ◌>>=◌ ◌>>◌
abbrev pub ◌>>=◌ : {A B : Type 0} → Result A → (A → Result B) → Result B
ok a >>= f = f a
err e >>= f = err e

abbrev pub ◌>>◌ : {B : Type 0} → Result Unit → Result B → Result B
m >> k = m >>= λ _. k

-- `if not ...: raise TaskValidationError`
abbrev pub require : Bool → Result Unit
require true = ok tt
require false = err Error.validation

-- `TASK_SCHEMA_VERSION` and `TASK_STATUSES`
abbrev pub task_schema_version : ℕ
task_schema_version = 1

abbrev pub task_statuses : List String
task_statuses =
    "REGISTERED" ∷ "QUEUED" ∷ "RUNNING" ∷ "COMPLETED" ∷ "FAILED" ∷ "CANCELLED" ∷ "DELETED" ∷ []

abbrev pub is_blank : String → Bool
is_blank s = is_empty (strip s)

unfoldable pub build_task_key : String → Result String
build_task_key task_id = do
  require (not (is_blank task_id))
  ok (text_append "task:" (strip task_id))

-- `is_task_record`, with the record.
abbrev pub as_task : Value → Option TaskRecord
as_task (Value.task t) = some t
as_task _ = none

-- The fields of a request to make a task.
pub record TaskInput : Type 0 where
  pub job_id : Option Json
  pub type : Option Json
  pub payload : Option Json
  pub task_id : Option Json
  pub status : Option Json
  pub priority : Option Json
  pub result : Option Json
  pub error : Option Json

abbrev pub present : Option Json → Result Json
present none = err Error.validation
present (some v) = ok v

-- `isinstance(v, str)` and `v.strip()` not empty: the text.
abbrev pub named : Json → Result String
named (Json.text s) = require (not (is_blank s)) >> ok s
named _ = err Error.validation

-- `status not in TASK_STATUSES`; the test of a list or an object raises `TypeError`.
abbrev pub known_status : Json → Result String
known_status (Json.text s) = require (elem s task_statuses) >> ok s
known_status (Json.array s) = err Error.type_error
known_status (Json.object s) = err Error.type_error
known_status _ = err Error.validation

abbrev pub or_else : Option Json → Json → Json
or_else none d = d
or_else (some v) d = v

-- `task_id or task_input.get("task_id") or generate_task_id()`
abbrev pub choose_id : String → Option Json → String → Json
choose_id given none fresh = if is_empty given then Json.text fresh else Json.text given
choose_id given (some v) fresh =
    if is_empty given then (if truthy v then v else Json.text fresh) else Json.text given

-- `validate_task_record`; the shape of a record is its type.
unfoldable pub validate_task_record : TaskRecord → Result Unit
validate_task_record r = do
  require (r.schema_version == task_schema_version)
  require (elem r.status task_statuses)

-- `create_task_record`; no identifier given is the empty text.
unfoldable pub create_task_record :
    TaskInput → NodeRef → ℕ → String → String → ℕ → Result TaskRecord
unfolding validate_task_record
create_task_record input owner_node replication_factor given fresh now = do
  job ← present input.job_id
  kind ← present input.type
  payload ← present input.payload
  job_id ← named job
  type ← named kind
  task_id ← named (choose_id given input.task_id fresh)
  status ← known_status (or_else input.status (Json.text "REGISTERED"))
  let priority = or_else input.priority (Json.integer (pos 0))
  require (is_int priority)
  let made : TaskRecord = record {
    schema_version = task_schema_version;
    task_id = strip task_id;
    job_id = strip job_id;
    type = strip type;
    payload = payload;
    priority = priority;
    status = status;
    result = or_else input.result Json.null;
    error = or_else input.error Json.null;
    created_at = now;
    updated_at = now;
    version = 1;
    deleted = false;
    placement = record {
      primary_node = owner_node;
      replication_factor = max 1 replication_factor;
      replica_nodes = [];
    };
  }
  validate_task_record made
  ok made

-- A change that is dated, counted and checked.
abbrev pub touch : ℕ → TaskRecord → Result TaskRecord
touch now r =
    let r' : TaskRecord = record r { updated_at = now; version = r.version + 1 } in
    validate_task_record r' >> ok r'

unfoldable pub set_replica_nodes : TaskRecord → List NodeRef → ℕ → Result TaskRecord
unfolding validate_task_record
set_replica_nodes r replica_nodes now = touch now (record r {
  placement = record {
    primary_node = r.placement.primary_node;
    replication_factor = r.placement.replication_factor;
    replica_nodes = replica_nodes;
  };
})

unfoldable pub mark_task_deleted : TaskRecord → ℕ → Result TaskRecord
unfolding validate_task_record
mark_task_deleted r now = touch now (record r { status = "DELETED"; deleted = true })

-- The check of the field names of a patch.
unfoldable pub allowed : Dict.Dict Json → Result Unit
allowed [] = ok tt
allowed ((field, v) ∷ patch) =
    require (elem field ("status" ∷ "result" ∷ "error" ∷ "payload" ∷ "priority" ∷ []))
    >> allowed patch

abbrev pub patch_status : Option Json → TaskRecord → Result TaskRecord
patch_status none r = ok r
patch_status (some v) r = do
  status ← known_status v
  ok (record r { status = status; deleted = if str_eq status "DELETED" then true else r.deleted })

abbrev pub patch_result : Option Json → TaskRecord → TaskRecord
patch_result none r = r
patch_result (some v) r = record r { result = v }

abbrev pub patch_error : Option Json → TaskRecord → TaskRecord
patch_error none r = r
patch_error (some v) r = record r { error = v }

abbrev pub patch_payload : Option Json → TaskRecord → Result TaskRecord
patch_payload none r = ok r
patch_payload (some v) r = require (is_object v) >> ok (record r { payload = v })

abbrev pub patch_priority : Option Json → TaskRecord → Result TaskRecord
patch_priority none r = ok r
patch_priority (some v) r = require (is_int v) >> ok (record r { priority = v })

unfoldable pub update_task_record : TaskRecord → Dict.Dict Json → ℕ → Result TaskRecord
unfolding allowed validate_task_record Dict.lookup
update_task_record r patch now = do
  allowed patch
  r1 ← patch_status (Dict.lookup "status" patch) r
  let r2 = patch_error (Dict.lookup "error" patch) (patch_result (Dict.lookup "result" patch) r1)
  r3 ← patch_payload (Dict.lookup "payload" patch) r2
  r4 ← patch_priority (Dict.lookup "priority" patch) r3
  touch now r4
