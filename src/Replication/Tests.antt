-- ===== src/Replication/Tests.antt =====
-- Writes to the replicas in a ring of two processes, over a network that loses some calls.
use distributed_chord_infras.Transport
use distributed_chord_infras.Common.{
  List, if◌then◌else◌, ℕ, ◌%◌, false, ◌==◌, ◌≡◌, [], ◌∷◌, length, ◌≤◌, max, refl,
}
use distributed_chord_infras.Records.{NodeRef, TaskRecord, Value}
use distributed_chord_infras.Replication.{
  Replicated, replicate_write, get_successor_chain, chain_from, fetch_state, each_replica,
  put_with_retry, caught, put_task_replica, store_replica_local, quorum,
}
use distributed_chord_infras.Network.{World, Cluster, ok, reply_lost, delivered}
use distributed_chord_infras.Records.Dynamic.{Json, pos}
use distributed_chord_infras.Lookup.Samples.{pair}
use distributed_chord_infras.Replication.Chain.{Fresh, Follows, get_successor_chain-IsChain}
use distributed_chord_infras.Replication.Write.{replicate_write-Holds, Reports, IsTargets}
use distributed_chord_infras.Transport.{request}

abbrev sample : TaskRecord
sample = record {
  schema_version = 1;
  task_id = "t";
  job_id = "j";
  type = "train";
  payload = Json.object "";
  priority = Json.integer (pos 0);
  status = "REGISTERED";
  result = Json.null;
  error = Json.null;
  created_at = 3;
  updated_at = 3;
  version = 1;
  deleted = false;
  placement = record {
    primary_node = record { id = 10; address = "h:1" };
    replication_factor = 3;
    replica_nodes = [];
  };
}

-- Every third call is lost after it has taken effect.
abbrev lossy : World
lossy call address = if call % 3 == 1 then reply_lost else delivered

abbrev primary : NodeRef
primary = record { id = 10; address = "h:1" }

get_successor_chain-IsChain_example :
    (rs : List NodeRef) × (l : ℕ) × (get_successor_chain lossy 3 primary pair
      ≡ (ok (primary ∷ rs), record pair { calls = l }))
    × (length (primary ∷ rs) ≤ max 1 3)
    × Fresh [] (primary ∷ rs)
    × Follows pair.nodes primary rs
get_successor_chain-IsChain_example = get_successor_chain-IsChain lossy pair 3 primary

replicate_write-Holds_example :
    (out : Replicated) × (d : Cluster) × (replicate_write lossy 3 "task:t" sample primary pair
      ≡ (ok out, d))
    × IsTargets lossy pair 3 primary out.replica_targets
    × Reports "task:t" (Value.task sample) 3 out d
replicate_write-Holds_example = replicate_write-Holds lossy pair 3 "task:t" sample primary

program : Unit {0}
unfolding replicate_write get_successor_chain chain_from fetch_state each_replica put_with_retry
    caught put_task_replica store_replica_local quorum
program = tt

-- The run of the example writes the one replica.
writes :
    (replicate_write lossy 3 "task:t" sample primary pair).0
    ≡ ok (record {
      primary = primary;
      replica_targets = record { id = 200; address = "h:2" } ∷ [];
      replicas_written = record { id = 200; address = "h:2" } ∷ [];
      failed = [];
      replication_state = "COMPLETE";
      required = 2;
      achieved = 2;
    })
unfolding program Transport.get_state request
writes = refl
