-- ===== src/Results/Reads.antt =====
-- A read of a result changes nothing, whatever the network does.
use distributed_chord_infras.Node
use distributed_chord_infras.Common.{none, some, String, ℕ, ◌≡◌, Option, refl}
use distributed_chord_infras.Lookup.{here, find_successor}
use distributed_chord_infras.Network.{World, Cluster, lift, try_except, pure, reads}
use distributed_chord_infras.Results.{
  get_result, get_result_replica, read_result_replicas, build_result_key, replica_key,
}
use distributed_chord_infras.Tasks.{owner_for_key, get_on_node}
use distributed_chord_infras.Records.{NodeRef, Value}
use distributed_chord_infras.Transport.Quiet.{
  >>=-IsQuiet, IsQuiet, try_except-IsQuiet, request-IsQuiet,
}
use distributed_chord_infras.Tasks.Reads.{here-IsQuiet, find_successor-IsQuiet, get_on_node-IsQuiet}
use distributed_chord_infras.Ring.{sha1_id}
use distributed_chord_infras.Replication.Reads.{chain_read-IsQuiet}

module _ (digest : String → ℕ) (fuel : ℕ) (world : World) (self : String) (k : ℕ) where
  read_result_replicas-IsQuiet :
      (task_id : String) (r : NodeRef) (value : Option Value)
      → IsQuiet (read_result_replicas digest fuel world self k task_id r value)
  unfolding read_result_replicas get_result_replica
  read_result_replicas-IsQuiet task_id r (some v) c = refl
  read_result_replicas-IsQuiet task_id r none c =
      chain_read-IsQuiet world k r (λ s. get_result_replica world s.address task_id)
        (λ s.
          request-IsQuiet world s.address (reads (Node.get (replica_key task_id))) (λ n c. refl))
        c

-- Over any network a read of a result changes no process, whether it returns or raises, and whether
-- it ends at the primary or at a replica.
pub get_result-IsQuiet :
    (digest : String → ℕ) (fuel : ℕ) (world : World) (self : String) (k : ℕ) (task_id : String)
    (c : Cluster)
    → (get_result digest fuel world self k task_id c).1.nodes ≡ c.nodes
unfolding get_result owner_for_key
get_result-IsQuiet digest fuel world self k task_id =
    >>=-IsQuiet (lift (build_result_key task_id)) _ (λ d. refl)
      (λ key.
        >>=-IsQuiet (here self (λ n. find_successor fuel world n (sha1_id digest key))) _
          (here-IsQuiet self (λ n. find_successor fuel world n (sha1_id digest key))
            (λ n. find_successor-IsQuiet fuel world n (sha1_id digest key)))
          (λ r.
            >>=-IsQuiet (try_except (get_on_node digest fuel world self k r key) (λ _. pure none)) _
              (try_except-IsQuiet (get_on_node digest fuel world self k r key) (λ _. pure none)
                (get_on_node-IsQuiet digest fuel world self k r key) (λ e d. refl))
              (λ value.
                >>=-IsQuiet (read_result_replicas digest fuel world self k task_id r value) _
                  (read_result_replicas-IsQuiet digest fuel world self k task_id r value)
                  (λ found d. refl))))
