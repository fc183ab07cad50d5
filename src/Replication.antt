-- ===== src/Replication.antt =====
-- storage/replication.py, with the replica calls of chord/transport.py and their handlers in
-- chord/server.py and storage/task_service.py. The pauses between attempts are left out.
pub mod Chain
pub mod Reads
pub mod Held
pub mod Write
mod Tests
use distributed_chord_infras.Node
use distributed_chord_infras.Transport
use distributed_chord_infras.Schema.{validate_task_record, as_task}
use distributed_chord_infras.Network.{
  Action, World, Error, pure, ◌>>=◌, lift, try_except, local, reads, ◌>>◌,
}
use distributed_chord_infras.Common.{
  List, String, ℕ, Bool, Option, max, ◌+◌, [], drop, none, ◌/◌, ◌∷◌, if◌then◌else◌, some, suc, elem,
  leb, length, str_eq, zero, true,
}
use distributed_chord_infras.Records.{NodeRef, TaskRecord, Value}
use distributed_chord_infras.Node.{ChordNode, State}
use distributed_chord_infras.Transport.{request, retry}

-- `TaskService.store_replica_local`, in the process at the address.
unfoldable pub store_replica_local : String → String → TaskRecord → ChordNode → Action Unit
unfolding validate_task_record
store_replica_local address task_key task_record n =
    lift (validate_task_record task_record)
    >> local address (λ o. (tt, Node.put task_key (Value.task task_record) o)) n

-- `TaskService.get_replica_local`
unfoldable pub get_replica_local : String → ChordNode → Option TaskRecord
get_replica_local task_key n = elim (Node.get task_key n) [ none ↦ none | some v ↦ as_task v ]

-- `REPLICA_RETRIES`, and `_quorum`: half of `k`, rounded up.
abbrev pub replica_retries : ℕ
replica_retries = 2

unfoldable pub quorum : ℕ → ℕ
quorum k = (k + 1) / 2

-- What the loops over the replicas collect: those that answered, and the others with their errors.
pub record Outcomes : Type 0 where
  pub done : List NodeRef
  pub failed : List (NodeRef × Error)

abbrev pub tally : NodeRef → Option Error → Outcomes → Outcomes
tally replica none rest = record rest { done = replica ∷ rest.done }
tally replica (some e) rest = record rest { failed = (replica, e) ∷ rest.failed }

pub record Replicated : Type 0 where
  pub primary : NodeRef
  pub replica_targets : List NodeRef
  pub replicas_written : List NodeRef
  pub failed : List (NodeRef × Error)
  pub replication_state : String
  pub required : ℕ
  pub achieved : ℕ

pub record Deleted : Type 0 where
  pub primary : NodeRef
  pub replica_targets : List NodeRef
  pub deleted : List NodeRef
  pub failed : List (NodeRef × Error)
  pub replication_state : String

-- The result of `replicate_write`; the primary counts as written.
abbrev pub report : ℕ → NodeRef → List NodeRef → Outcomes → Replicated
report replication_k primary_node targets found = record {
  primary = primary_node;
  replica_targets = targets;
  replicas_written = found.done;
  failed = found.failed;
  replication_state =
      if leb (quorum replication_k) (1 + length found.done) then "COMPLETE" else "DEGRADED";
  required = quorum replication_k;
  achieved = 1 + length found.done;
}

-- The error of an action, as a value.
unfoldable pub caught : Action Unit → Action (Option Error)
caught body = try_except (body >> pure none) (λ e. pure (some e))

-- The loop over the replicas.
unfoldable pub each_replica : (NodeRef → Action (Option Error)) → List NodeRef → Action Outcomes
each_replica act [] = pure (record { done = []; failed = [] })
each_replica act (replica ∷ replicas) = do
  error ← act replica
  rest ← each_replica act replicas
  pure (tally replica error rest)

-- The loop over the replicas that looks for a value: the first that answers with one.
unfoldable pub first_answer :
    {A : Type 0} → (NodeRef → Action (Option A)) → List NodeRef → Action (Option A)
first_answer ask [] = pure none
first_answer ask (replica ∷ replicas) = do
  value ← try_except (ask replica) (λ _. pure none)
  elim value [ none ↦ first_answer ask replicas | some a ↦ pure (some a) ]

-- The loop over the replicas whose exceptions are logged.
unfoldable pub attempt_each : {A : Type 0} → (NodeRef → Action A) → List NodeRef → Action Unit
attempt_each act [] = pure tt
attempt_each act (replica ∷ replicas) = do
  try_except (act replica >> pure tt) (λ _. pure tt)
  attempt_each act replicas

module _ (world : World) where
  unfoldable pub put_task_replica : String → String → TaskRecord → Action Unit
  put_task_replica address task_key task_record =
      request world address (store_replica_local address task_key task_record)

  unfoldable pub get_task_replica : String → String → Action (Option TaskRecord)
  get_task_replica address task_key = request world address (reads (get_replica_local task_key))

  unfoldable pub delete_task_replica : String → String → Action Bool
  delete_task_replica address task_key =
      request world address (local address λ n. (true, (Node.delete task_key n).1))

  -- The state of a process, or none where the call raises.
  unfoldable pub fetch_state : String → Action (Option State)
  fetch_state address =
      try_except (Transport.get_state world address >>= λ s. pure (some s)) (λ _. pure none)

  -- The loop of `get_successor_chain`, for so many more processes.
  unfoldable pub chain_from : ℕ → List String → NodeRef → Action (List NodeRef)
  chain_from zero visited current = pure []
  chain_from (suc k) visited current = if elem current.address visited then pure [] else (do
    state ← fetch_state current.address
    rest ← elim state [
      | none ↦ pure []
      | some s ↦
          if str_eq s.successor.address current.address
          then pure []
          else chain_from k (current.address ∷ visited) s.successor
    ]
    pure (current ∷ rest))

  unfoldable pub get_successor_chain : ℕ → NodeRef → Action (List NodeRef)
  get_successor_chain replication_k primary_node = chain_from (max 1 replication_k) [] primary_node

  -- `_put_with_retry` and `_delete_with_retry`: none, or the last error.
  unfoldable pub put_with_retry : String → TaskRecord → NodeRef → Action (Option Error)
  put_with_retry task_key task_record replica =
      caught (retry replica_retries (put_task_replica replica.address task_key task_record))

  unfoldable pub delete_with_retry : String → NodeRef → Action (Option Error)
  delete_with_retry task_key replica =
      caught (retry replica_retries (delete_task_replica replica.address task_key) >>= λ _. pure tt)

  unfoldable pub replicate_write : ℕ → String → TaskRecord → NodeRef → Action Replicated
  replicate_write replication_k task_key task_record primary_node = do
    chain ← get_successor_chain replication_k primary_node
    found ← each_replica (put_with_retry task_key task_record) (drop 1 chain)
    pure (report replication_k primary_node (drop 1 chain) found)

  unfoldable pub delete_replicas : ℕ → String → NodeRef → Action Deleted
  delete_replicas replication_k task_key primary_node = do
    chain ← get_successor_chain replication_k primary_node
    found ← each_replica (delete_with_retry task_key) (drop 1 chain)
    pure (record {
      primary = primary_node;
      replica_targets = drop 1 chain;
      deleted = found.done;
      failed = found.failed;
      replication_state = elim found.failed [ [] ↦ "COMPLETE" | f ∷ fs ↦ "DEGRADED" ];
    })

  unfoldable pub read_from_replicas : ℕ → String → NodeRef → Action (Option TaskRecord)
  read_from_replicas replication_k task_key primary_node = do
    chain ← get_successor_chain replication_k primary_node
    first_answer (λ replica. get_task_replica replica.address task_key) (drop 1 chain)
