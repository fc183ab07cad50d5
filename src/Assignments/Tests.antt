-- ===== src/Assignments/Tests.antt =====
-- The list of a worker in the ring of two processes, over a network that loses some calls.
use distributed_chord_infras.Assignments.{append}
use distributed_chord_infras.Ring.{sha1_id}
use distributed_chord_infras.Node
use distributed_chord_infras.Text.{strip}
use distributed_chord_infras.Common.Dict
use distributed_chord_infras.Assignments.{
  build_worker_key, Changed, replicate_worker, without, append_local, remove_local, appended_record,
}
use distributed_chord_infras.Network.{reply_lost, delivered, Cluster, World, set_node, ok}
use distributed_chord_infras.Assignments.Local.{
  listed, Lists, Replicates, append_local-Lists, remove_local-Lists,
}
use distributed_chord_infras.Common.{
  String, ℕ, if◌then◌else◌, ◌∷◌, [], ◌%◌, some, ◌==◌, ◌≡◌, elem, false, true, refl, arith, ◌≢◌,
}
use distributed_chord_infras.Node.{ChordNode}
use distributed_chord_infras.Records.{NodeRef, WorkerRecord, Value}
use distributed_chord_infras.Replication.{Replicated}
use distributed_chord_infras.Lookup.Samples.{
  first, pair, always, always-IsReliable, second, pair-IsStable, each,
}
use distributed_chord_infras.Replication.Held.{Keeps}
use distributed_chord_infras.Replication.Write.{Reports, IsTargets}
use distributed_chord_infras.Assignments.Lists.{Distinct, added}
use distributed_chord_infras.Assignments.Reports.{replicate_worker-Holds}
use distributed_chord_infras.Network.Nodes.{set_node_self}
use distributed_chord_infras.Lookup.Stable.{IsOwner}
use distributed_chord_infras.Assignments.Routed.{append-Lists}

-- Every third call is lost after it has taken effect.
abbrev lossy : World
lossy call address = if call % 3 == 1 then reply_lost else delivered

abbrev primary : NodeRef
primary = record { id = 10; address = "h:1" }

abbrev sample : WorkerRecord
sample = record {
  schema_version = 1;
  worker_id = "w";
  tasks = "t" ∷ "u" ∷ [];
  created_at = 3;
  updated_at = 4;
  version = 2;
}

abbrev digest : String → ℕ
digest s = 7

-- The first process lists two tasks.
abbrev holder : ChordNode
holder = Node.put "worker:w" (Value.worker_assignment sample) first

abbrev ring : Cluster
ring = set_node "h:1" holder pair

replicate_worker-Holds_example :
    (out : Replicated) × (d : Cluster) × (replicate_worker digest 3 lossy 3 "w" sample primary pair
      ≡ (ok out, d))
    × Keeps (Value.worker_assignment sample) pair d
    × IsTargets lossy pair 3 primary out.replica_targets
    × Reports "worker:w" (Value.worker_assignment sample) 3 out d
replicate_worker-Holds_example = replicate_worker-Holds digest 3 lossy pair 3 "w" sample primary

append_local-Lists_example :
    (out : Changed) × (d : Cluster) × (append_local digest 3 lossy 3 "h:1" "w" "v"
        (some primary)
        9
        ring
      ≡ (ok out, d))
    × (out.tasks ≡ "t" ∷ "u" ∷ "v" ∷ [])
    × Lists "worker:w" ("t" ∷ "u" ∷ "v" ∷ []) d "h:1"
    × Replicates "w" 3
        (appended_record "w" (some sample) ("t" ∷ "u" ∷ "v" ∷ []) 9)
        out.replication
        d
    × (elem "v" ("t" ∷ "u" ∷ "v" ∷ []) ≡ true)
    × (Distinct ("t" ∷ "u" ∷ []) → Distinct ("t" ∷ "u" ∷ "v" ∷ []))
unfolding build_worker_key Node.put Node.get Node.save_to_disk Dict.insert Dict.lookup strip
append_local-Lists_example =
    append_local-Lists digest 3 lossy 3 "h:1" "worker:w" "w" primary ring holder
      (set_node_self "h:1" holder pair) "v" 9 refl

remove_local-Lists_example :
    (out : Changed) × (d : Cluster) × (remove_local digest 3 lossy 3 "h:1" "w" "t"
        (some primary)
        9
        ring
      ≡ (ok out, d))
    × (out.tasks ≡ "u" ∷ [])
    × Lists "worker:w" ("u" ∷ []) d "h:1"
    × (elem "t" ("u" ∷ []) ≡ false)
    × (Distinct ("t" ∷ "u" ∷ []) → Distinct ("u" ∷ []))
unfolding build_worker_key Node.put Node.get Node.save_to_disk Dict.insert Dict.lookup strip without
remove_local-Lists_example =
    remove_local-Lists digest 3 lossy 3 "h:1" "worker:w" "w" primary ring holder
      (set_node_self "h:1" holder pair) "t" 9 refl

append-Lists_example :
    (r : NodeRef) × (o : ChordNode) × (out : Changed) × (d : Cluster) × IsOwner pair.nodes 7 r
    × (pair.nodes r.address ≡ some o)
    × (append digest 256 always 3 "h:2" "w" "v" 9 pair ≡ (ok out, d))
    × (out.tasks ≡ added "v" (listed "worker:w" o))
    × Lists "worker:w" (added "v" (listed "worker:w" o)) d r.address
unfolding build_worker_key strip sha1_id
append-Lists_example =
    append-Lists digest always 256 always-IsReliable (omega arith) 3 "worker:w" "w" "v" 9 refl refl
      pair "h:2" second pair-IsStable refl
      (each (λ a o. ◌≢◌ {A = ℕ} 7 o.node_id) (omega arith) (omega arith))
