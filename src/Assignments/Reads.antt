-- ===== src/Assignments/Reads.antt =====
-- A read of the list of a worker changes nothing, whatever the network does.
use distributed_chord_infras.Node
use distributed_chord_infras.Lookup.{here, find_successor}
use distributed_chord_infras.Assignments
use distributed_chord_infras.Assignments.{replica_key}
use distributed_chord_infras.Replication.Reads.{get_successor_chain-IsQuiet, first_answer-IsQuiet}
use distributed_chord_infras.Tasks.Reads.{here-IsQuiet, find_successor-IsQuiet, get_on_node-IsQuiet}
use distributed_chord_infras.Transport.Quiet.{
  >>=-IsQuiet, IsQuiet, try_except-IsQuiet, request-IsQuiet,
}
use distributed_chord_infras.Common.{String, ℕ, Option, some, drop, none, refl}
use distributed_chord_infras.Network.{World, lift, pure, reads, try_except}
use distributed_chord_infras.Tasks.{owner_for_key, get_on_node}
use distributed_chord_infras.Assignments.{
  worker_or_replica, get_worker_replica, build_worker_key, as_worker,
}
use distributed_chord_infras.Records.{NodeRef, WorkerRecord}
use distributed_chord_infras.Replication.{get_successor_chain, first_answer}
use distributed_chord_infras.Ring.{sha1_id}

module _ (digest : String → ℕ) (fuel : ℕ) (world : World) (k : ℕ) where
  worker_or_replica-IsQuiet :
      (worker_id : String) (r : NodeRef) (o : Option WorkerRecord)
      → IsQuiet (worker_or_replica digest fuel world k worker_id r o)
  unfolding worker_or_replica get_worker_replica
  worker_or_replica-IsQuiet worker_id r (some w) = λ c. refl
  worker_or_replica-IsQuiet worker_id r none =
      >>=-IsQuiet (get_successor_chain world k r) _ (get_successor_chain-IsQuiet world k r)
        (λ chain.
          >>=-IsQuiet
            (first_answer (λ s. get_worker_replica world s.address worker_id) (drop 1 chain))
            (λ value. pure (as_worker value))
            (first_answer-IsQuiet (λ s. get_worker_replica world s.address worker_id) (drop 1 chain)
              (λ s.
                request-IsQuiet world s.address (reads (Node.get (replica_key worker_id)))
                  (λ n c. refl)))
            (λ value c. refl))

  pub get-IsQuiet :
      (self worker_id : String) → IsQuiet (Assignments.get digest fuel world k self worker_id)
  unfolding Assignments.get Assignments.owner owner_for_key
  get-IsQuiet self worker_id =
      >>=-IsQuiet (lift (build_worker_key worker_id)) _ (λ d. refl)
        (λ key.
          >>=-IsQuiet (here self (λ n. find_successor fuel world n (sha1_id digest key))) _
            (here-IsQuiet self (λ n. find_successor fuel world n (sha1_id digest key))
              (λ n. find_successor-IsQuiet fuel world n (sha1_id digest key)))
            (λ r.
              >>=-IsQuiet (try_except (get_on_node digest fuel world self k r key) (λ _. pure none))
                _
                (try_except-IsQuiet (get_on_node digest fuel world self k r key) (λ _. pure none)
                  (get_on_node-IsQuiet digest fuel world self k r key) (λ e d. refl))
                (λ value.
                  >>=-IsQuiet (worker_or_replica digest fuel world k worker_id r (as_worker value))
                    _ (worker_or_replica-IsQuiet worker_id r (as_worker value)) (λ found d. refl))))
