-- ===== src/Results/Reports.antt =====
-- The reports of `_replicate` of storage/result_service.py.
use distributed_chord_infras.Results.{replica_key, replicate_result, put_result_replica}
use distributed_chord_infras.Common.{String, ℕ, ◌≡◌}
use distributed_chord_infras.Network.{World, Cluster, ok}
use distributed_chord_infras.Records.{ResultRecord, NodeRef, Value}
use distributed_chord_infras.Replication.{Replicated}
use distributed_chord_infras.Replication.Held.{Keeps}
use distributed_chord_infras.Replication.Write.{Reports, store_on_chain-Holds, IsTargets}

-- Over any network the replication of a result returns a report. Each process that the report names
-- as written holds the result under the replicas' key; the targets are the
-- processes behind the primary in the chain that is found, and each is named once, as written or as
-- failed; and the state is COMPLETE exactly where the primary and those written make
-- up the quorum. No process loses the result under a key at which it held it.
pub replicate_result-Holds :
    (digest : String → ℕ) (fuel : ℕ) (world : World) (self : String) (c : Cluster) (k : ℕ)
    (task_id : String) (r : ResultRecord) (primary : NodeRef)
    → (out : Replicated) × (d : Cluster) × (replicate_result digest fuel world self k task_id r
          primary c
        ≡ (ok out, d))
      × Keeps (Value.result_details r) c d
      × IsTargets world c k primary out.replica_targets
      × Reports (replica_key task_id) (Value.result_details r) k out d
unfolding replicate_result put_result_replica
replicate_result-Holds digest fuel world self c k task_id r primary =
    store_on_chain-Holds world c k (replica_key task_id) (Value.result_details r) primary
