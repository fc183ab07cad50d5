-- ===== src/Tasks.antt =====
-- `class TaskService` of storage/task_service.py, in the process at the address `self`. A task
-- identifier in a request is a text; `fresh` is the text of `generate_task_id`, `now` the time that
-- `utc_now_iso` prints.
pub mod Query
pub mod Reads
mod Tests
use distributed_chord_infras.Node
use distributed_chord_infras.Transport
use distributed_chord_infras.Common.Dict
use distributed_chord_infras.Lookup.{here, find_successor}
use distributed_chord_infras.Network.{
  lift, ◌>>=◌, ◌>>◌, World, Action, Result, ok, pure, try_except, raise, Error, err, set_node,
}
use distributed_chord_infras.Common.{
  Option, String, ℕ, Bool, List, true, ◌||◌, [], not, some, ◌∷◌, if◌then◌else◌, str_eq, suc, ◌-◌,
  drop, none, zero, ◌&&◌, leb, ◌==◌, false,
}
use distributed_chord_infras.Records.{TaskRecord, NodeRef, Value}
use distributed_chord_infras.Replication.{
  Deleted, Replicated, replicate_write, get_successor_chain, read_from_replicas, delete_replicas,
}
use distributed_chord_infras.Text.{strip, is_empty}
use distributed_chord_infras.Node.{ChordNode}
use distributed_chord_infras.Records.Dynamic.{Json, truthy}
use distributed_chord_infras.Schema.{
  build_task_key, as_task, validate_task_record, TaskInput, mark_task_deleted, update_task_record,
  named, create_task_record, set_replica_nodes,
}
use distributed_chord_infras.Ring.{sha1_id}

-- `PRIMARY_WRITE_RETRIES`
abbrev pub primary_write_retries : ℕ
primary_write_retries = 2

-- The result of an update: the task, its key, and the report of the replicas.
pub record Stored : Type 0 where
  pub task : TaskRecord
  pub task_key : String
  pub storage : Replicated

-- The result of a deletion, hard or soft.
pub data Deregistered : Type 0 where
  hard : (task_key : String) → Deleted → Deregistered
  soft : Stored → Deregistered

pub record Owner : Type 0 where
  pub task_key : String
  pub primary : NodeRef
  pub replicas : List NodeRef

-- `if task_id`: the identifier of a request, if it is true.
abbrev pub given_id : Option Json → Option Json
given_id none = none
given_id (some v) = if truthy v then some v else none

abbrev pub as_value : Option TaskRecord → Option Value
as_value none = none
as_value (some t) = some (Value.task t)

-- `if value is None: return None`, `is_task_record` and `validate_task_record`.
abbrev pub checked : Option Value → Result (Option TaskRecord)
checked none = ok none
checked (some v) = elim (as_task v) [
  | none ↦ ok none
  | some t ↦ elim (validate_task_record t) [ ok u ↦ ok (some t) | err e ↦ err e ]
]

module _ (digest : String → ℕ) (fuel : ℕ) (world : World) (self : String) (replication_k : ℕ) where
  -- `_owner_for_key`
  unfoldable pub owner_for_key : String → Action NodeRef
  owner_for_key task_key = here self (λ n. find_successor fuel world n (sha1_id digest task_key))

  -- The remote attempts of `_put_on_node`: after a failure the owner is looked up again.
  unfoldable pub put_remote : ℕ → NodeRef → String → Value → Action Unit
  put_remote zero node_ref key value = Transport.put world node_ref.address key value >> pure tt
  put_remote (suc k) node_ref key value =
      try_except (Transport.put world node_ref.address key value >> pure tt)
        (λ _. owner_for_key key >>= λ new_primary. put_remote k new_primary key value)

  unfoldable pub put_on_node : NodeRef → String → Value → Action Unit
  put_on_node node_ref key value = here self λ n.
      if node_ref.id == n.node_id
      then (λ c. (ok tt, set_node self (Node.put key value n) c))
      else put_remote primary_write_retries node_ref key value

  unfoldable pub get_on_node : NodeRef → String → Action (Option Value)
  get_on_node node_ref key = here self λ n.
      if node_ref.id == n.node_id
      then pure (Node.get key n)
      else Transport.get world node_ref.address key

  unfoldable pub delete_on_node : NodeRef → String → Action Bool
  delete_on_node node_ref key = here self λ n.
      if node_ref.id == n.node_id
      then (λ c. (ok (Node.delete key n).0, set_node self (Node.delete key n).1 c))
      else Transport.delete world node_ref.address key

  -- `if value is None and allow_replica_read`
  unfoldable pub fall_back_read : Bool → NodeRef → String → Option Value → Action (Option Value)
  fall_back_read allowed primary task_key (some v) = pure (some v)
  fall_back_read false primary task_key none = pure none
  fall_back_read true primary task_key none =
      read_from_replicas world replication_k task_key primary >>= λ t. pure (as_value t)

  -- The primary first; where it has none or raises, the replicas.
  unfoldable pub get_task : String → Bool → Action (Option TaskRecord)
  get_task task_id allow_replica_read = do
    task_key ← lift (build_task_key task_id)
    primary ← owner_for_key task_key
    value ← try_except (get_on_node primary task_key) (λ _. pure none)
    found ← fall_back_read allow_replica_read primary task_key value
    lift (checked found)

  -- The write of a record to the primary and then to the replicas.
  unfoldable pub store_task : NodeRef → String → TaskRecord → Action Stored
  store_task primary task_key task_record = do
    put_on_node primary task_key (Value.task task_record)
    storage ← replicate_write world replication_k task_key task_record primary
    pure (record { task = task_record; task_key = task_key; storage = storage })

  -- A task that exists.
  unfoldable pub existing_task : String → Action TaskRecord
  existing_task task_id = do
    existing ← get_task task_id true
    elim existing [ none ↦ raise Error.not_found | some t ↦ pure t ]

  unfoldable pub hard_delete_task : NodeRef → String → Action Deregistered
  hard_delete_task primary task_key = do
    delete_on_node primary task_key
    storage ← delete_replicas world replication_k task_key primary
    pure (Deregistered.hard task_key storage)

  unfoldable pub soft_delete_task : NodeRef → String → TaskRecord → ℕ → Action Deregistered
  soft_delete_task primary task_key existing now = do
    deleted_record ← lift (mark_task_deleted existing now)
    stored ← store_task primary task_key deleted_record
    pure (Deregistered.soft stored)

  unfoldable pub deregister_task : String → Bool → ℕ → Action Deregistered
  deregister_task task_id hard_delete now = do
    task_key ← lift (build_task_key task_id)
    primary ← owner_for_key task_key
    existing ← existing_task task_id
    (if hard_delete
        then hard_delete_task primary task_key
        else soft_delete_task primary task_key existing now)

  -- `update_task` of a task that exists.
  unfoldable pub update_existing :
      NodeRef → String → TaskRecord → Dict.Dict Json → ℕ → Action Stored
  update_existing primary task_key existing patch now = do
    updated_record ← lift (update_task_record existing patch now)
    store_task primary task_key updated_record

  unfoldable pub update_task : String → Dict.Dict Json → ℕ → Action Stored
  update_task task_id patch now = do
    task_key ← lift (build_task_key task_id)
    primary ← owner_for_key task_key
    existing ← existing_task task_id
    (if str_eq existing.status "DELETED"
        then raise Error.validation
        else update_existing primary task_key existing patch now)

  -- A task that is registered twice is a conflict, unless it is deleted.
  unfoldable pub refuse_existing : String → Action Unit
  refuse_existing task_id = do
    existing ← get_task task_id true
    elim existing [
      | none ↦ pure tt
      | some t ↦ if str_eq t.status "DELETED" then pure tt else raise Error.conflict
    ]

  unfoldable pub register_task : TaskInput → String → ℕ → Action Stored
  register_task task_input fresh now = do
    elim (given_id task_input.task_id) [
      | none ↦ pure tt
      | some v ↦ lift (named v) >>= refuse_existing
    ]
    task_id ← elim (given_id task_input.task_id) [ none ↦ pure fresh | some v ↦ lift (named v) ]
    task_key ← lift (build_task_key task_id)
    primary ← owner_for_key task_key
    made ← lift (create_task_record task_input primary replication_k (strip task_id) fresh now)
    chain ← get_successor_chain world replication_k primary
    placed ← lift (set_replica_nodes made (drop 1 chain) now)
    store_task primary task_key placed

  unfoldable pub lookup_owner : String → Action Owner
  lookup_owner task_id = do
    task_key ← lift (build_task_key task_id)
    primary ← owner_for_key task_key
    chain ← get_successor_chain world replication_k primary
    pure (record { task_key = task_key; primary = primary; replicas = drop 1 chain })
