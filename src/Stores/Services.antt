-- ===== src/Stores/Services.antt =====
-- The operations of storage/result_service.py keep what holds of all values stored, over any network.
use distributed_chord_infras.Node
use distributed_chord_infras.Results
use distributed_chord_infras.Network.{pure, lift, reads, local, try_except, World}
use distributed_chord_infras.Common.{String, ℕ, Option, some, none, drop}
use distributed_chord_infras.Stores.Values.{Stored, IfThere, put-IsHandling, get-IsHandling}
use distributed_chord_infras.Stores.Kept.{
  Keeps, Plain, then-Keeps, lift-Keeps, chain-Keeps, first_answer-Keeps, owner-Keeps,
  each_replica-Keeps, caught-Keeps, put_on_node-Keeps, get_on_node-Keeps,
}
use distributed_chord_infras.Transport.Kept.{request-IsKeeping, >>=-IsKeeping, try_except-IsKeeping}
use distributed_chord_infras.Records.{Value, ResultRecord, NodeRef}
use distributed_chord_infras.Results.{
  as_result, get_result, put_result, read_result_replicas, get_result_replica, replicate_result,
  put_result_replica, validate_result_record, build_result_key,
}
use distributed_chord_infras.Replication.Write.{store_on_chain, store_at}
use distributed_chord_infras.Replication.{get_successor_chain, each_replica, caught}
use distributed_chord_infras.Tasks.{owner_for_key, put_on_node, get_on_node}

module _ (Fits : Value → Type 0) where
  abbrev pub IfRecord : Option ResultRecord → Type 0
  IfRecord none = Unit
  IfRecord (some r) = Fits (Value.result_details r)

  as_result-Fits :
      (o : Option Value)
      → IfThere Fits o
      → IfRecord (elim o as (λ _. Option ResultRecord) [ none ↦ none | some v ↦ as_result v ])
  as_result-Fits none fits = tt
  as_result-Fits (some (Value.result_details r)) fits = fits
  as_result-Fits (some (Value.task r)) fits = tt
  as_result-Fits (some (Value.worker_assignment r)) fits = tt
  as_result-Fits (some (Value.job r)) fits = tt
  as_result-Fits (some (Value.other r)) fits = tt

  module _ (digest : String → ℕ) (fuel : ℕ) (world : World) (self : String) (k : ℕ) where
    pub store_on_chain-Keeps :
        (key : String) (v : Value) (primary : NodeRef)
        → Fits v
        → Keeps Fits (Plain Fits) (store_on_chain world k key v primary)
    store_on_chain-Keeps key v primary fits =
        then-Keeps Fits (get_successor_chain world k primary) _ (Plain Fits)
          (chain-Keeps Fits digest fuel world self k primary)
          (λ chain.
            then-Keeps Fits (each_replica (λ r. caught (store_at world key v r)) (drop 1 chain)) _
              (Plain Fits)
              (each_replica-Keeps Fits (λ r. caught (store_at world key v r)) (drop 1 chain)
                (λ r. caught-Keeps Fits (store_at world key v r) (
                  request-IsKeeping (Stored Fits) (Plain Fits) world r.address
                    (local r.address (λ n. (tt, Node.put key v n)))
                    (put-IsHandling Fits r.address key v tt fits))))
              (λ found c inv. (inv, tt)))

    pub put_result-Keeps :
        (task_id : String) (r : ResultRecord)
        → Fits (Value.result_details r)
        → Keeps Fits (Plain Fits) (put_result digest fuel world self k task_id r)
    unfolding put_result replicate_result put_result_replica
    put_result-Keeps task_id r fits =
        let P = Plain Fits in
        then-Keeps Fits (lift (validate_result_record r)) _ P
          (lift-Keeps Fits (validate_result_record r))
          (λ _.
            then-Keeps Fits (lift (build_result_key task_id)) _ P
              (lift-Keeps Fits (build_result_key task_id))
              (λ key.
                then-Keeps Fits (owner_for_key digest fuel world self k key) _ P
                  (owner-Keeps Fits digest fuel world self k key)
                  (λ primary.
                    then-Keeps Fits
                      (put_on_node digest fuel world self k primary key (Value.result_details r)) _
                      P
                      (put_on_node-Keeps Fits digest fuel world self k primary key
                        (Value.result_details r) fits)
                      (λ _.
                        then-Keeps Fits
                          (store_on_chain world k (Results.replica_key task_id)
                            (Value.result_details r) primary)
                          _ P
                          (store_on_chain-Keeps (Results.replica_key task_id)
                            (Value.result_details r) primary fits)
                          (λ replication c inv. (inv, tt))))))

    read_replicas-Keeps :
        (task_id : String) (r : NodeRef) (value : Option Value)
        → IfThere Fits value
        → Keeps Fits (IfThere Fits) (read_result_replicas digest fuel world self k task_id r value)
    unfolding read_result_replicas get_result_replica
    read_replicas-Keeps task_id r (some v) fits = λ c inv. (inv, fits)
    read_replicas-Keeps task_id r none fits =
        then-Keeps Fits (get_successor_chain world k r) _ (IfThere Fits)
          (chain-Keeps Fits digest fuel world self k r)
          (λ chain.
            first_answer-Keeps Fits (λ s. get_result_replica world s.address task_id) (drop 1 chain)
              (λ s.
                request-IsKeeping (Stored Fits) (IfThere Fits) world s.address
                  (reads (Node.get (Results.replica_key task_id)))
                  (get-IsHandling Fits s.address (Results.replica_key task_id))))

    pub get_result-Keeps :
        (task_id : String) → Keeps Fits IfRecord (get_result digest fuel world self k task_id)
    unfolding get_result
    get_result-Keeps task_id =
        then-Keeps Fits (lift (build_result_key task_id)) _ IfRecord
          (lift-Keeps Fits (build_result_key task_id))
          (λ key.
            then-Keeps Fits (owner_for_key digest fuel world self k key) _ IfRecord
              (owner-Keeps Fits digest fuel world self k key)
              (λ r.
                >>=-IsKeeping (Stored Fits) (IfThere Fits) IfRecord
                  (try_except (get_on_node digest fuel world self k r key) (λ _. pure none)) _
                  (try_except-IsKeeping (Stored Fits) (IfThere Fits)
                    (get_on_node digest fuel world self k r key) (λ _. pure none)
                    (get_on_node-Keeps Fits digest fuel world self k r key) (λ e c inv. (inv, tt)))
                  (λ value fits.
                    >>=-IsKeeping (Stored Fits) (IfThere Fits) IfRecord
                      (read_result_replicas digest fuel world self k task_id r value) _
                      (read_replicas-Keeps task_id r value fits)
                      (λ found fits' c inv. (inv, as_result-Fits found fits')))))
