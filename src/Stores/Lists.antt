-- ===== src/Stores/Lists.antt =====
-- The operations of storage/worker_assignment.py keep what holds of all values stored, over any
-- network, where it holds of every worker list.
use distributed_chord_infras.Node
use distributed_chord_infras.Transport
use distributed_chord_infras.Assignments
use distributed_chord_infras.Lookup.{here}
use distributed_chord_infras.Network.{
  ◌>>◌, pure, lift, reads, local, try_except, raise, World, Action, Error,
}
use distributed_chord_infras.Common.{
  String, ℕ, Option, some, none, [], ◌∷◌, Bool, if◌then◌else◌, ◌==◌, elem, suc, true, false, zero,
  ◌++◌, drop, refl,
}
use distributed_chord_infras.Stores.Values.{Stored, put-IsHandling}
use distributed_chord_infras.Stores.Kept.{
  Keeps, Plain, then-Keeps, lift-Keeps, owner-Keeps, transport_put-Keeps, chain-Keeps,
}
use distributed_chord_infras.Transport.Kept.{
  here-IsKeeping, request-IsKeeping, try_except-IsKeeping, IsQuiet-IsKeeping,
}
use distributed_chord_infras.Records.{Value, WorkerRecord, NodeRef}
use distributed_chord_infras.Node.{ChordNode}
use distributed_chord_infras.Assignments.{
  append_local, append_remote, append_worker_assignment, build_worker_key, primary_or_owner,
  remove_from, remove_local, remove_remote, write_local, replicate_worker, append_retries,
  as_worker, bump, put_worker_replica, tasks_of, without, appended_record, worker_or_replica,
  get_worker_replica,
}
use distributed_chord_infras.Text.{is_empty}
use distributed_chord_infras.Replication.Write.{store_on_chain}
use distributed_chord_infras.Stores.Services.{store_on_chain-Keeps}
use distributed_chord_infras.Tasks.{get_on_node}
use distributed_chord_infras.Replication.{get_successor_chain, first_answer}
use distributed_chord_infras.Transport.Quiet.{try_except-IsQuiet, request-IsQuiet}
use distributed_chord_infras.Tasks.Reads.{get_on_node-IsQuiet}
use distributed_chord_infras.Replication.Reads.{first_answer-IsQuiet}

module _ (Fits : Value → Type 0) (list_fits : (w : WorkerRecord) → Fits (Value.worker_assignment w))
    (digest : String → ℕ) (fuel : ℕ) (world : World) (k : ℕ) where
  abbrev Keeping : {A : Type 0} → Action A → Type 0
  Keeping {A} body = Keeps Fits (Plain Fits {A = A}) body

  if-Keeping :
      {A : Type 0} (b : Bool) (x y : Action A)
      → Keeping x
      → Keeping y
      → Keeping (if b then x else y)
  if-Keeping true x y p q = p
  if-Keeping false x y p q = q

  on_here-Keeping :
      {A : Type 0} (self : String) (body : ChordNode → Action A)
      → ((n : ChordNode) → Keeping (body n))
      → Keeping (here self body)
  on_here-Keeping self body keeps =
      here-IsKeeping (Stored Fits) (Plain Fits) self body (λ n c live inv. keeps n c inv)

  find-Keeping : (self key : String) → Keeping (Assignments.owner digest fuel world k self key)
  unfolding Assignments.owner
  find-Keeping self key = owner-Keeps Fits digest fuel world self k key

  write_local-Keeping :
      (self key worker_id : String) (w : WorkerRecord) (primary : NodeRef)
      → Keeping (write_local digest fuel world k self key worker_id w primary)
  unfolding write_local replicate_worker put_worker_replica
  write_local-Keeping self key worker_id w primary =
      let v = Value.worker_assignment w in
      then-Keeps Fits (here self (local self λ n. (tt, Node.put key v n))) _ (Plain Fits)
        (here-IsKeeping (Stored Fits) (Plain Fits) self (local self λ n. (tt, Node.put key v n))
          (put-IsHandling Fits self key v tt (list_fits w)))
        (λ _.
          then-Keeps Fits (store_on_chain world k (Assignments.replica_key worker_id) v primary) _
            (Plain Fits)
            (store_on_chain-Keeps Fits digest fuel world self k (Assignments.replica_key worker_id)
              v primary (list_fits w))
            (λ replication c inv. (inv, tt)))

  given-Keeping :
      (self key : String) (o : Option NodeRef)
      → Keeping (primary_or_owner digest fuel world k self key o)
  unfolding primary_or_owner
  given-Keeping self key none = find-Keeping self key
  given-Keeping self key (some p) = λ c inv. (inv, tt)

  append_local-Keeping :
      (self worker_id task_id : String) (o : Option NodeRef) (now : ℕ)
      → Keeping (append_local digest fuel world k self worker_id task_id o now)
  unfolding append_local
  append_local-Keeping self worker_id task_id o now =
      then-Keeps Fits (lift (build_worker_key worker_id)) _ (Plain Fits)
        (lift-Keeps Fits (build_worker_key worker_id))
        (λ key.
          then-Keeps Fits (primary_or_owner digest fuel world k self key o) _ (Plain Fits)
            (given-Keeping self key o)
            (λ primary.
              then-Keeps Fits (here self (reads (Node.get key))) _ (Plain Fits)
                (on_here-Keeping self (reads (Node.get key)) (λ n c inv. (inv, tt)))
                (λ value.
                  if-Keeping (elem task_id (tasks_of (as_worker value))) _ _ (λ c inv. (inv, tt))
                    (write_local-Keeping self key worker_id
                      (appended_record worker_id (as_worker value)
                        (tasks_of (as_worker value) ++ (task_id ∷ [])) now)
                      primary))))

  remove_from-Keeping :
      (self key worker_id task_id : String) (primary : NodeRef) (now : ℕ) (o : Option WorkerRecord)
      → Keeping (remove_from digest fuel world k self key worker_id task_id primary now o)
  unfolding remove_from
  remove_from-Keeping self key worker_id task_id primary now none = λ c inv. (inv, tt)
  remove_from-Keeping self key worker_id task_id primary now (some w) =
      if-Keeping (elem task_id w.tasks) _ _
        (write_local-Keeping self key worker_id (bump w (without task_id w.tasks) now) primary)
        (λ c inv. (inv, tt))

  remove_local-Keeping :
      (self worker_id task_id : String) (o : Option NodeRef) (now : ℕ)
      → Keeping (remove_local digest fuel world k self worker_id task_id o now)
  unfolding remove_local
  remove_local-Keeping self worker_id task_id o now =
      then-Keeps Fits (lift (build_worker_key worker_id)) _ (Plain Fits)
        (lift-Keeps Fits (build_worker_key worker_id))
        (λ key.
          then-Keeps Fits (primary_or_owner digest fuel world k self key o) _ (Plain Fits)
            (given-Keeping self key o)
            (λ primary.
              then-Keeps Fits (here self (reads (Node.get key))) _ (Plain Fits)
                (on_here-Keeping self (reads (Node.get key)) (λ n c inv. (inv, tt)))
                (λ value.
                  remove_from-Keeping self key worker_id task_id primary now (as_worker value))))

  call_append-Keeping :
      (address worker_id task_id : String) (now : ℕ)
      → Keeping (append_worker_assignment digest fuel world k address worker_id task_id now)
  unfolding append_worker_assignment
  call_append-Keeping address worker_id task_id now =
      request-IsKeeping (Stored Fits) (Plain Fits) world address _ (λ n c live inv.
        if-Keeping (is_empty task_id) (raise Error.validation) _ (λ d i. i)
          (append_local-Keeping address worker_id task_id none now) c inv)

  append_remote-Keeping :
      (n : ℕ) (self key worker_id task_id : String) (p : NodeRef) (now : ℕ)
      → Keeping (append_remote digest fuel world k n self key worker_id task_id p now)
  unfolding append_remote
  append_remote-Keeping zero self key worker_id task_id p now =
      call_append-Keeping p.address worker_id task_id now
  append_remote-Keeping (suc n) self key worker_id task_id p now =
      try_except-IsKeeping (Stored Fits) (Plain Fits)
        (append_worker_assignment digest fuel world k p.address worker_id task_id now) _
        (call_append-Keeping p.address worker_id task_id now)
        (λ e.
          then-Keeps Fits (Assignments.owner digest fuel world k self key) _ (Plain Fits)
            (find-Keeping self key) (λ q. append_remote-Keeping n self key worker_id task_id q now))

  pub append-Keeps :
      (self worker_id task_id : String) (now : ℕ)
      → Keeps Fits (Plain Fits) (Assignments.append digest fuel world k self worker_id task_id now)
  unfolding Assignments.append
  append-Keeps self worker_id task_id now =
      then-Keeps Fits (lift (build_worker_key worker_id)) _ (Plain Fits)
        (lift-Keeps Fits (build_worker_key worker_id))
        (λ key.
          then-Keeps Fits (Assignments.owner digest fuel world k self key) _ (Plain Fits)
            (find-Keeping self key)
            (λ p. on_here-Keeping self _ (λ n.
              if-Keeping (p.id == n.node_id) _ _
                (append_local-Keeping self worker_id task_id (some p) now)
                (append_remote-Keeping append_retries self key worker_id task_id p now))))

  remove_remote-Keeping :
      (self key task_id : String) (p : NodeRef) (now : ℕ) (o : Option WorkerRecord)
      → Keeping (remove_remote digest fuel world k key task_id p now o)
  unfolding remove_remote Transport.put
  remove_remote-Keeping self key task_id p now none = λ c inv. (inv, tt)
  remove_remote-Keeping self key task_id p now (some w) =
      let v = Value.worker_assignment (bump w (without task_id w.tasks) now) in
      if-Keeping (elem task_id w.tasks) _ _
        (then-Keeps Fits
          (try_except (Transport.put world p.address key v >> pure tt) (λ _. pure tt)) _
          (Plain Fits)
          (try_except-IsKeeping (Stored Fits) (Plain Fits)
            (Transport.put world p.address key v >> pure tt) (λ _. pure tt)
            (then-Keeps Fits (Transport.put world p.address key v) (λ _. pure tt) (Plain Fits)
              (transport_put-Keeps Fits digest fuel world self k p.address key v
                (list_fits (bump w (without task_id w.tasks) now)))
              (λ _ c inv. (inv, tt)))
            (λ e c inv. (inv, tt)))
          (λ _ c inv. (inv, tt)))
        (λ c inv. (inv, tt))

  pub remove-Keeps :
      (self worker_id task_id : String) (now : ℕ)
      → Keeps Fits (Plain Fits) (Assignments.remove digest fuel world k self worker_id task_id now)
  unfolding Assignments.remove Transport.get
  remove-Keeps self worker_id task_id now =
      then-Keeps Fits (lift (build_worker_key worker_id)) _ (Plain Fits)
        (lift-Keeps Fits (build_worker_key worker_id))
        (λ key.
          then-Keeps Fits (Assignments.owner digest fuel world k self key) _ (Plain Fits)
            (find-Keeping self key)
            (λ p. on_here-Keeping self _ (λ n.
              if-Keeping (p.id == n.node_id) _ _
                (remove_local-Keeping self worker_id task_id (some p) now)
                (then-Keeps Fits (try_except (Transport.get world p.address key) (λ _. pure none)) _
                  (Plain Fits)
                  (try_except-IsKeeping (Stored Fits) (Plain Fits)
                    (Transport.get world p.address key) (λ _. pure none)
                    (request-IsKeeping (Stored Fits) (Plain Fits) world p.address
                      (reads (Node.get key)) (λ n c live inv. (inv, tt)))
                    (λ e c inv. (inv, tt)))
                  (λ value. remove_remote-Keeping self key task_id p now (as_worker value))))))

  worker_or_replica-Keeping :
      (worker_id : String) (p : NodeRef) (o : Option WorkerRecord)
      → Keeping (worker_or_replica digest fuel world k worker_id p o)
  unfolding worker_or_replica get_worker_replica
  worker_or_replica-Keeping worker_id p (some w) = λ c inv. (inv, tt)
  worker_or_replica-Keeping worker_id p none =
      then-Keeps Fits (get_successor_chain world k p) _ (Plain Fits)
        (chain-Keeps Fits digest fuel world p.address k p)
        (λ chain.
          then-Keeps Fits
            (first_answer (λ r. get_worker_replica world r.address worker_id) (drop 1 chain)) _
            (Plain Fits)
            (IsQuiet-IsKeeping (Stored Fits) _ (
              first_answer-IsQuiet (λ r. get_worker_replica world r.address worker_id)
                (drop 1 chain)
                (λ r.
                  request-IsQuiet world r.address
                    (reads (Node.get (Assignments.replica_key worker_id))) (λ n c. refl))))
            (λ value c inv. (inv, tt)))

  pub get-Keeps :
      (self worker_id : String)
      → Keeps Fits (Plain Fits) (Assignments.get digest fuel world k self worker_id)
  unfolding Assignments.get
  get-Keeps self worker_id =
      then-Keeps Fits (lift (build_worker_key worker_id)) _ (Plain Fits)
        (lift-Keeps Fits (build_worker_key worker_id))
        (λ key.
          then-Keeps Fits (Assignments.owner digest fuel world k self key) _ (Plain Fits)
            (find-Keeping self key)
            (λ p.
              then-Keeps Fits
                (try_except (get_on_node digest fuel world self k p key) (λ _. pure none)) _
                (Plain Fits)
                (IsQuiet-IsKeeping (Stored Fits) _ (
                  try_except-IsQuiet (get_on_node digest fuel world self k p key) (λ _. pure none)
                    (get_on_node-IsQuiet digest fuel world self k p key) (λ e c. refl)))
                (λ value.
                  then-Keeps Fits
                    (worker_or_replica digest fuel world k worker_id p (as_worker value)) _
                    (Plain Fits) (worker_or_replica-Keeping worker_id p (as_worker value))
                    (λ found c inv. (inv, tt)))))
