-- ===== src/Results.antt =====
-- storage/result_record.py and `class ResultService` of storage/result_service.py, in the process
-- at the address `self`, with the replica calls of chord/transport.py and their handlers in
-- chord/server.py. The methods for the primary repeat those of storage/task_service.py. `now` is the
-- time that `_utc_now_iso` prints.
pub mod Built
pub mod Reports
pub mod Reads
mod Tests
use Prim.Native.String.{◌++◌ as text_append}
use distributed_chord_infras.Node
use distributed_chord_infras.Transport
use distributed_chord_infras.Tasks
use distributed_chord_infras.Network.{
  lift, ◌>>=◌, ◌>>◌, Result, World, Action, ok, err, pure, Error, local, reads, try_except,
}
use distributed_chord_infras.Common.{
  Bool, List, Option, String, ℕ, [], not, some, ◌==◌, ◌∷◌, elem, none, drop, false, true,
}
use distributed_chord_infras.Records.{ResultRecord, Value, NodeRef}
use distributed_chord_infras.Records.Dynamic.{Json}
use distributed_chord_infras.Replication.{
  Replicated, get_successor_chain, each_replica, caught, report, attempt_each, first_answer,
}
use distributed_chord_infras.Text.{is_empty, strip}
use distributed_chord_infras.Tasks.{owner_for_key, put_on_node, delete_on_node, get_on_node}
use distributed_chord_infras.Transport.{request}

-- `RESULT_SCHEMA_VERSION` and the sets of the texts allowed.
abbrev pub result_schema_version : ℕ
result_schema_version = 1

abbrev pub valid_statuses : List String
valid_statuses = "PENDING" ∷ "RUNNING" ∷ "SUCCESS" ∷ "FAILURE" ∷ []

abbrev pub valid_task_types : List String
valid_task_types = "SCRIPT" ∷ "BINARY" ∷ []

abbrev pub valid_assigned_by : List String
valid_assigned_by = "user" ∷ "frontend" ∷ "intelligence" ∷ []

-- `if not ...: raise ResultValidationError`
abbrev pub demand : Bool → Result Unit
demand true = ok tt
demand false = err Error.validation

abbrev pub after_demand : {B : Type 0} → Result Unit → Result B → Result B
after_demand (ok u) r = r
after_demand (err e) r = err e

unfoldable pub build_result_key : String → Result String
build_result_key task_id =
    after_demand (demand (not (is_empty (strip task_id))))
      (ok (text_append "result:" (strip task_id)))

-- `is_result_record`, with the record.
abbrev pub as_result : Value → Option ResultRecord
as_result (Value.result_details r) = some r
as_result _ = none

-- The arguments of `build_result_record`.
pub record ResultInput : Type 0 where
  pub task_id : String
  pub task_type : String
  pub path : Option String
  pub script : Option String
  pub worker_id : String
  pub assigned_by : String
  pub status : String
  pub result : Json
  pub attempt_count : ℕ
  pub max_attempts : ℕ
  pub last_failure_reason : Option String
  pub retry_on_failure : Bool
  pub recovery_history : Option (List String)
  pub recovery_status : Option String
  pub retry_at : Option ℕ
  pub timed_out : Bool

abbrev pub or_empty : Option String → String
or_empty none = ""
or_empty (some s) = s

abbrev pub or_none_yet : Option (List String) → List String
or_none_yet none = []
or_none_yet (some l) = l

-- The record that is returned.
abbrev pub made : ResultInput → ℕ → ResultRecord
made i now = record {
  schema_version = result_schema_version;
  task_id = i.task_id;
  task_type = i.task_type;
  path = or_empty i.path;
  script = or_empty i.script;
  status = i.status;
  worker_id = i.worker_id;
  assigned_by = i.assigned_by;
  result = i.result;
  worker_result = none;
  created_at = now;
  updated_at = now;
  attempt_count = some i.attempt_count;
  max_attempts = some i.max_attempts;
  last_failure_reason = i.last_failure_reason;
  retry_on_failure = some i.retry_on_failure;
  recovery_history = or_none_yet i.recovery_history;
  recovery_status = i.recovery_status;
  retry_at = i.retry_at;
  timed_out = i.timed_out;
}

unfoldable pub build_result_record : ResultInput → ℕ → Result ResultRecord
build_result_record i now = after_demand (demand (not (is_empty i.task_id))) (
    after_demand (demand (elem i.task_type valid_task_types)) (
      after_demand (demand (elem i.status valid_statuses)) (
        after_demand (demand (elem i.assigned_by valid_assigned_by))
          (after_demand (demand (not (is_empty i.worker_id))) (ok (made i now))))))

-- `validate_result_record`; the kind is the type.
unfoldable pub validate_result_record : ResultRecord → Result Unit
validate_result_record r = after_demand (demand (r.schema_version == result_schema_version)) (
    after_demand (demand (elem r.status valid_statuses)) (
      after_demand (demand (elem r.task_type valid_task_types)) (
        after_demand (demand (elem r.assigned_by valid_assigned_by))
          (demand (not (is_empty r.worker_id))))))

-- The result of `put`.
pub record Put : Type 0 where
  pub key : String
  pub primary : NodeRef
  pub replication : Replicated

-- The keys of the replicas hold the identifier as it is given.
abbrev pub replica_key : String → String
replica_key task_id = text_append "result:" task_id

module _ (world : World) where
  unfoldable pub put_result_replica : String → String → ResultRecord → Action Unit
  put_result_replica address task_id r =
      request world address
        (local address λ n. (tt, Node.put (replica_key task_id) (Value.result_details r) n))

  unfoldable pub get_result_replica : String → String → Action (Option Value)
  get_result_replica address task_id =
      request world address (reads (Node.get (replica_key task_id)))

  unfoldable pub delete_result_replica : String → String → Action Bool
  delete_result_replica address task_id =
      request world address (local address λ n. (true, (Node.delete (replica_key task_id) n).1))

module _ (digest : String → ℕ) (fuel : ℕ) (world : World) (self : String) (replication_k : ℕ) where
  -- `_replicate`: one attempt for each replica. Its report names the primary and the targets besides.
  unfoldable pub replicate_result : String → ResultRecord → NodeRef → Action Replicated
  replicate_result task_id r primary = do
    chain ← get_successor_chain world replication_k primary
    found ←
        each_replica (λ replica. caught (put_result_replica world replica.address task_id r))
          (drop 1 chain)
    pure (report replication_k primary (drop 1 chain) found)

  unfoldable pub put_result : String → ResultRecord → Action Put
  put_result task_id r = do
    lift (validate_result_record r)
    key ← lift (build_result_key task_id)
    primary ← owner_for_key digest fuel world self replication_k key
    put_on_node digest fuel world self replication_k primary key (Value.result_details r)
    replication ← replicate_result task_id r primary
    pure (record { key = key; primary = primary; replication = replication })

  -- `_read_from_replicas`, where the primary gives none.
  unfoldable pub read_result_replicas : String → NodeRef → Option Value → Action (Option Value)
  read_result_replicas task_id primary (some v) = pure (some v)
  read_result_replicas task_id primary none = do
    chain ← get_successor_chain world replication_k primary
    first_answer (λ replica. get_result_replica world replica.address task_id) (drop 1 chain)

  unfoldable pub get_result : String → Action (Option ResultRecord)
  get_result task_id = do
    key ← lift (build_result_key task_id)
    primary ← owner_for_key digest fuel world self replication_k key
    value ←
        try_except (get_on_node digest fuel world self replication_k primary key) (λ _. pure none)
    found ← read_result_replicas task_id primary value
    pure (elim found [ none ↦ none | some v ↦ as_result v ])

  unfoldable pub delete_result : String → Action Bool
  delete_result task_id = do
    key ← lift (build_result_key task_id)
    primary ← owner_for_key digest fuel world self replication_k key
    done ←
        try_except (delete_on_node digest fuel world self replication_k primary key)
          (λ _. pure false)
    chain ← get_successor_chain world replication_k primary
    attempt_each (λ replica. delete_result_replica world replica.address task_id) (drop 1 chain)
    pure done
