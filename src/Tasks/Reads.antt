-- ===== src/Tasks/Reads.antt =====
-- The reads of storage/task_service.py change nothing, whatever the network does.
use distributed_chord_infras.Node
use distributed_chord_infras.Transport
use distributed_chord_infras.Lookup.{here, find_successor}
use distributed_chord_infras.Common.{
  String, ℕ, Option-cases, suc, Bool-cases, inl, Option, inr, refl, true, ◌==◌, zero, none, some,
  Bool, ◌≡◌, if◌then◌else◌, false,
}
use distributed_chord_infras.Network.{World, Action, pure, try_except, reads, Cluster, lift}
use distributed_chord_infras.Node.{ChordNode, successor, closest_preceding_node}
use distributed_chord_infras.Replication.{read_from_replicas}
use distributed_chord_infras.Transport.Quiet.{
  IsQuiet, >>=-IsQuiet, try_except-IsQuiet, request-IsQuiet,
}
use distributed_chord_infras.Records.{NodeRef, Value}
use distributed_chord_infras.Ring.{in_range, sha1_id}
use distributed_chord_infras.Transport.{request}
use distributed_chord_infras.Tasks.{get_task, owner_for_key, get_on_node, fall_back_read, as_value}
use distributed_chord_infras.Schema.{build_task_key}
use distributed_chord_infras.Replication.Reads.{read_from_replicas-IsQuiet}

-- A lookup over any network, with any fuel, changes no process.
pub find_successor-IsQuiet :
    (fuel : ℕ) (world : World) (n : ChordNode) (key_id : ℕ)
    → IsQuiet (find_successor fuel world n key_id)
unfolding find_successor
find_successor-IsQuiet zero world n key_id c = refl
find_successor-IsQuiet (suc fuel) world n key_id c =
    elim (Bool-cases (in_range key_id n.node_id (successor n).id true)) [
      | inl between ↦ rw between refl
      | inr beyond ↦ elim (Bool-cases ((closest_preceding_node n key_id).id == n.node_id)) [
        | inl own ↦ rw beyond (rw own refl)
        | inr other ↦ rw beyond (
            rw other (
              try_except-IsQuiet
                (request world (closest_preceding_node n key_id).address
                  (λ o. find_successor fuel world o key_id))
                (λ _. pure (successor n))
                (request-IsQuiet world (closest_preceding_node n key_id).address
                  (λ o. find_successor fuel world o key_id)
                  (λ o. find_successor-IsQuiet fuel world o key_id))
                (λ e d. refl) c))
      ]
    ]

pub here-IsQuiet :
    {A : Type 0} (self : String) (body : ChordNode → Action A)
    → ((n : ChordNode) → IsQuiet (body n))
    → IsQuiet (here self body)
here-IsQuiet self body quiet c = elim (Option-cases (c.nodes self)) [
  | inl gone ↦ rw (gone, here) refl
  | inr (n, live) ↦ rw (live, here) (quiet n c)
]

module _ (digest : String → ℕ) (fuel : ℕ) (world : World) (self : String) (k : ℕ) where
  pub get_on_node-IsQuiet :
      (r : NodeRef) (key : String) → IsQuiet (get_on_node digest fuel world self k r key)
  unfolding get_on_node Transport.get
  get_on_node-IsQuiet r key =
      here-IsQuiet self
        (λ n.
          if r.id == n.node_id then pure (Node.get key n) else Transport.get world r.address key)
        local_or_remote
    where
      local_or_remote :
          (n : ChordNode)
          → IsQuiet (
              if r.id == n.node_id
              then pure (Node.get key n)
              else Transport.get world r.address key)
      local_or_remote n c = elim (Bool-cases (r.id == n.node_id)) [
        | inl mine ↦ rw mine refl
        | inr theirs ↦
            rw theirs (request-IsQuiet world r.address (reads (Node.get key)) (λ o d. refl) c)
      ]

  fall_back_read-IsQuiet :
      (allowed : Bool) (r : NodeRef) (key : String) (value : Option Value)
      → IsQuiet (fall_back_read digest fuel world self k allowed r key value)
  unfolding fall_back_read
  fall_back_read-IsQuiet allowed r key (some v) c = refl
  fall_back_read-IsQuiet false r key none c = refl
  fall_back_read-IsQuiet true r key none c =
      >>=-IsQuiet (read_from_replicas world k key r) (λ t. pure (as_value t))
        (read_from_replicas-IsQuiet world k r key) (λ t d. refl) c

-- Over any network a read of a task changes no process, whether it returns or raises, and whether
-- it ends at the primary or at a replica.
pub get_task-IsQuiet :
    (digest : String → ℕ) (fuel : ℕ) (world : World) (self : String) (k : ℕ) (task_id : String)
    (allow_replica_read : Bool) (c : Cluster)
    → (get_task digest fuel world self k task_id allow_replica_read c).1.nodes ≡ c.nodes
unfolding get_task owner_for_key
get_task-IsQuiet digest fuel world self k task_id allowed =
    >>=-IsQuiet (lift (build_task_key task_id)) _ (λ d. refl)
      (λ key.
        >>=-IsQuiet (here self (λ n. find_successor fuel world n (sha1_id digest key))) _
          (here-IsQuiet self (λ n. find_successor fuel world n (sha1_id digest key))
            (λ n. find_successor-IsQuiet fuel world n (sha1_id digest key)))
          (λ r.
            >>=-IsQuiet (try_except (get_on_node digest fuel world self k r key) (λ _. pure none)) _
              (try_except-IsQuiet (get_on_node digest fuel world self k r key) (λ _. pure none)
                (get_on_node-IsQuiet digest fuel world self k r key) (λ e d. refl))
              (λ value.
                >>=-IsQuiet (fall_back_read digest fuel world self k allowed r key value) _
                  (fall_back_read-IsQuiet digest fuel world self k allowed r key value)
                  (λ found d. refl))))
