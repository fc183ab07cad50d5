-- ===== src/Assignments/Reports.antt =====
-- The reports of `_replicate` of storage/worker_assignment.py.
use distributed_chord_infras.Common.{String, ℕ, ◌≡◌}
use distributed_chord_infras.Assignments.{replica_key, replicate_worker, put_worker_replica}
use distributed_chord_infras.Network.{World, Cluster, ok}
use distributed_chord_infras.Records.{WorkerRecord, NodeRef, Value}
use distributed_chord_infras.Replication.{Replicated}
use distributed_chord_infras.Replication.Held.{Keeps}
use distributed_chord_infras.Replication.Write.{Reports, store_on_chain-Holds, IsTargets}

-- Over any network the replication of a worker list returns a report. Each process that the report
-- names as written holds the list under the replicas' key; the targets are the
-- processes behind the primary in the chain that is found, and each is named once, as written or as
-- failed; and the state is COMPLETE exactly where the primary and those written make
-- up the quorum. No process loses the list under a key at which it held it.
pub replicate_worker-Holds :
    (digest : String → ℕ) (fuel : ℕ) (world : World) (c : Cluster) (k : ℕ) (worker_id : String)
    (w : WorkerRecord) (primary : NodeRef)
    → (out : Replicated) × (d : Cluster) × (replicate_worker digest fuel world k worker_id w primary
          c
        ≡ (ok out, d))
      × Keeps (Value.worker_assignment w) c d
      × IsTargets world c k primary out.replica_targets
      × Reports (replica_key worker_id) (Value.worker_assignment w) k out d
unfolding replicate_worker put_worker_replica
replicate_worker-Holds digest fuel world c k worker_id w primary =
    store_on_chain-Holds world c k (replica_key worker_id) (Value.worker_assignment w) primary
