-- ===== src/Assignments.antt =====
-- `class WorkerAssignmentService` of storage/worker_assignment.py, in the process at the address
-- `self`, with the calls of chord/transport.py for worker lists and their handlers in
-- chord/server.py. The lock of a key is held over a whole local append or removal, so each is one
-- action. `now` is the time that `_utc_now_iso` prints. The methods for the primary repeat those of
-- storage/task_service.py.
pub mod Reports
pub mod Reads
pub mod Lists
pub mod Local
pub mod Routed
mod Tests
use Prim.Native.String.{◌++◌ as text_append}
use distributed_chord_infras.Node
use distributed_chord_infras.Transport
use distributed_chord_infras.Lookup.{here}
use distributed_chord_infras.Network.{
  lift, ◌>>=◌, ◌>>◌, World, Action, Result, local, pure, reads, try_except, err, raise, Error, ok,
}
use distributed_chord_infras.Common.{
  Option, String, ℕ, List, Bool, [], false, filter, if◌then◌else◌, some, suc, ◌+◌, elem, none, not,
  true, zero, ◌==◌, str_eq, ◌++◌, drop, ◌∷◌,
}
use distributed_chord_infras.Records.{WorkerRecord, NodeRef, Value}
use distributed_chord_infras.Replication.{
  Replicated, get_successor_chain, attempt_each, each_replica, first_answer, caught, report,
}
use distributed_chord_infras.Tasks.{owner_for_key, delete_on_node, get_on_node}
use distributed_chord_infras.Transport.{request}
use distributed_chord_infras.Text.{is_empty, strip}

-- `WORKER_SCHEMA_VERSION` and `PRIMARY_WRITE_RETRIES`
abbrev pub worker_schema_version : ℕ
worker_schema_version = 1

abbrev pub append_retries : ℕ
append_retries = 2

-- `build_worker_key`: only an empty identifier is refused.
unfoldable pub build_worker_key : String → Result String
build_worker_key worker_id =
    if is_empty worker_id
    then err Error.validation
    else ok (text_append "worker:" (strip worker_id))

-- The keys of the replicas hold the identifier as it is given.
abbrev pub replica_key : String → String
replica_key worker_id = text_append "worker:" worker_id

-- `is_worker_record`, with the record.
abbrev pub as_worker : Option Value → Option WorkerRecord
as_worker none = none
as_worker (some (Value.worker_assignment w)) = some w
as_worker (some _) = none

-- `list(current["tasks"]) if is_worker_record(current) else []`
abbrev pub tasks_of : Option WorkerRecord → List String
tasks_of none = []
tasks_of (some w) = w.tasks

-- `_new_record`
unfoldable pub new_record : String → List String → ℕ → WorkerRecord
new_record worker_id tasks now = record {
  schema_version = worker_schema_version;
  worker_id = worker_id;
  tasks = tasks;
  created_at = now;
  updated_at = now;
  version = 1;
}

-- `_bump`
unfoldable pub bump : WorkerRecord → List String → ℕ → WorkerRecord
bump w tasks now = record w { tasks = tasks; updated_at = now; version = w.version + 1 }

-- The record that an append writes.
unfoldable pub appended_record : String → Option WorkerRecord → List String → ℕ → WorkerRecord
unfolding new_record bump
appended_record worker_id none tasks now = new_record worker_id tasks now
appended_record worker_id (some w) tasks now = bump w tasks now

-- The result of an append or a removal. No report stands for "SKIPPED", and for the results of
-- `remove` that have no replication.
pub record Changed : Type 0 where
  pub key : String
  pub tasks : List String
  pub changed : Bool
  pub replication : Option Replicated

abbrev pub unchanged : String → List String → Changed
unchanged key tasks = record { key = key; tasks = tasks; changed = false; replication = none }

-- `[t for t in tasks if t != task_id]`
unfoldable pub without : String → List String → List String
without task_id tasks = filter (λ t. not (str_eq t task_id)) tasks

module _ (world : World) where
  unfoldable pub put_worker_replica : String → String → WorkerRecord → Action Unit
  put_worker_replica address worker_id w =
      request world address
        (local address λ n. (tt, Node.put (replica_key worker_id) (Value.worker_assignment w) n))

  unfoldable pub get_worker_replica : String → String → Action (Option Value)
  get_worker_replica address worker_id =
      request world address (reads (Node.get (replica_key worker_id)))

  unfoldable pub delete_worker_replica : String → String → Action Bool
  delete_worker_replica address worker_id =
      request world address (local address λ n. (true, (Node.delete (replica_key worker_id) n).1))

module _ (digest : String → ℕ) (fuel : ℕ) (world : World) (replication_k : ℕ) where
  -- `_owner`
  unfoldable pub owner : String → String → Action NodeRef
  owner self key = owner_for_key digest fuel world self replication_k key

  -- `_replicate`: one attempt for each replica. Its report names the primary and the targets besides.
  unfoldable pub replicate_worker : String → WorkerRecord → NodeRef → Action Replicated
  replicate_worker worker_id w primary = do
    chain ← get_successor_chain world replication_k primary
    found ←
        each_replica (λ replica. caught (put_worker_replica world replica.address worker_id w))
          (drop 1 chain)
    pure (report replication_k primary (drop 1 chain) found)

  -- The write of a changed record at the process itself, and its replication.
  unfoldable pub write_local : String → String → String → WorkerRecord → NodeRef → Action Changed
  write_local self key worker_id w primary = do
    here self (local self λ n. (tt, Node.put key (Value.worker_assignment w) n))
    replication ← replicate_worker worker_id w primary
    pure (record { key = key; tasks = w.tasks; changed = true; replication = some replication })

  -- The primary given, or else the owner.
  unfoldable pub primary_or_owner : String → String → Option NodeRef → Action NodeRef
  primary_or_owner self key none = owner self key
  primary_or_owner self key (some primary) = pure primary

  unfoldable pub append_local : String → String → String → Option NodeRef → ℕ → Action Changed
  append_local self worker_id task_id given now = do
    key ← lift (build_worker_key worker_id)
    primary ← primary_or_owner self key given
    value ← here self (reads (Node.get key))
    (if elem task_id (tasks_of (as_worker value))
        then pure (unchanged key (tasks_of (as_worker value)))
        else write_local self key worker_id
            (appended_record worker_id (as_worker value)
              (tasks_of (as_worker value) ++ (task_id ∷ [])) now)
            primary)

  -- The removal from a record that is there.
  unfoldable pub remove_from :
      String → String → String → String → NodeRef → ℕ → Option WorkerRecord → Action Changed
  remove_from self key worker_id task_id primary now none = pure (unchanged key [])
  remove_from self key worker_id task_id primary now (some w) =
      if elem task_id w.tasks
      then write_local self key worker_id (bump w (without task_id w.tasks) now) primary
      else pure (unchanged key w.tasks)

  unfoldable pub remove_local : String → String → String → Option NodeRef → ℕ → Action Changed
  remove_local self worker_id task_id given now = do
    key ← lift (build_worker_key worker_id)
    primary ← primary_or_owner self key given
    value ← here self (reads (Node.get key))
    remove_from self key worker_id task_id primary now (as_worker value)

  -- The call `append_worker_assignment` with its handler, which refuses an empty task.
  unfoldable pub append_worker_assignment : String → String → String → ℕ → Action Changed
  append_worker_assignment address worker_id task_id now = request world address λ n.
      if is_empty task_id
      then raise Error.validation
      else append_local address worker_id task_id none now

  -- The remote attempts of `append`: after a failure the owner is looked up again.
  unfoldable pub append_remote :
      ℕ → String → String → String → String → NodeRef → ℕ → Action Changed
  append_remote zero self key worker_id task_id primary now =
      append_worker_assignment primary.address worker_id task_id now
  append_remote (suc k) self key worker_id task_id primary now =
      try_except (append_worker_assignment primary.address worker_id task_id now)
        (λ _. owner self key >>= λ p. append_remote k self key worker_id task_id p now)

  unfoldable pub append : String → String → String → ℕ → Action Changed
  append self worker_id task_id now = do
    key ← lift (build_worker_key worker_id)
    primary ← owner self key
    here self λ n.
        if primary.id == n.node_id
        then append_local self worker_id task_id (some primary) now
        else append_remote append_retries self key worker_id task_id primary now

  -- The removal at a primary that is another process: read, filter, and put back without the lock
  -- and without a write to the replicas.
  unfoldable pub remove_remote :
      String → String → NodeRef → ℕ → Option WorkerRecord → Action Changed
  remove_remote key task_id primary now none = pure (unchanged key [])
  remove_remote key task_id primary now (some w) =
      if elem task_id w.tasks
      then (try_except
            (Transport.put world primary.address key
                (Value.worker_assignment (bump w (without task_id w.tasks) now))
              >> pure tt)
            (λ _. pure tt)
          >> pure (record {
            key = key;
            tasks = without task_id w.tasks;
            changed = true;
            replication = none;
          }))
      else pure (unchanged key w.tasks)

  unfoldable pub remove : String → String → String → ℕ → Action Changed
  remove self worker_id task_id now = do
    key ← lift (build_worker_key worker_id)
    primary ← owner self key
    here self λ n.
        if primary.id == n.node_id
        then remove_local self worker_id task_id (some primary) now
        else (try_except (Transport.get world primary.address key) (λ _. pure none) >>= λ value.
            remove_remote key task_id primary now (as_worker value))

  -- `get`, after the read of the primary: the replicas are asked where it has no worker record.
  unfoldable pub worker_or_replica :
      String → NodeRef → Option WorkerRecord → Action (Option WorkerRecord)
  worker_or_replica worker_id primary (some w) = pure (some w)
  worker_or_replica worker_id primary none = do
    chain ← get_successor_chain world replication_k primary
    value ← first_answer (λ r. get_worker_replica world r.address worker_id) (drop 1 chain)
    pure (as_worker value)

  unfoldable pub get : String → String → Action (List String)
  get self worker_id = do
    key ← lift (build_worker_key worker_id)
    primary ← owner self key
    value ←
        try_except (get_on_node digest fuel world self replication_k primary key) (λ _. pure none)
    found ← worker_or_replica worker_id primary (as_worker value)
    pure (tasks_of found)

  unfoldable pub delete : String → String → Action Bool
  delete self worker_id = do
    key ← lift (build_worker_key worker_id)
    primary ← owner self key
    done ←
        try_except (delete_on_node digest fuel world self replication_k primary key)
          (λ _. pure false)
    chain ← get_successor_chain world replication_k primary
    attempt_each (λ r. delete_worker_replica world r.address worker_id) (drop 1 chain)
    pure done
