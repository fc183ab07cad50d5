-- ===== src/Replication/Reads.antt =====
-- The reads of storage/replication.py change no process, whatever the network does.
use distributed_chord_infras.Common.{none, some, Option, ℕ, List, ◌∷◌, String, ap, drop, [], refl}
use distributed_chord_infras.Network.{World, Action, ◌>>=◌, try_except, pure, reads}
use distributed_chord_infras.Replication.{
  first_answer, read_from_replicas, get_successor_chain, get_task_replica, get_replica_local,
}
use distributed_chord_infras.Records.{NodeRef}
use distributed_chord_infras.Transport.Quiet.{
  IsQuiet, >>=-IsQuiet, request-IsQuiet, try_except-IsQuiet,
}
use distributed_chord_infras.Replication.Chain.{get_successor_chain-IsChain}

pub found-IsQuiet :
    {A B : Type 0} (o : Option A) (absent : Action B) (present : A → Action B)
    → IsQuiet absent
    → ((a : A) → IsQuiet (present a))
    → IsQuiet (elim o as (λ _. Action B) [ none ↦ absent | some a ↦ present a ])
found-IsQuiet none absent present quiet _ = quiet
found-IsQuiet (some a) absent present _ quiet = quiet a

pub first_answer-IsQuiet :
    {A : Type 0} (ask : NodeRef → Action (Option A)) (rs : List NodeRef)
    → ((r : NodeRef) → IsQuiet (ask r))
    → IsQuiet (first_answer ask rs)
unfolding first_answer
first_answer-IsQuiet ask [] quiet = λ c. refl
first_answer-IsQuiet ask (r ∷ rs) quiet =
    >>=-IsQuiet (try_except (ask r) (λ _. pure none))
      (λ value. elim value [ none ↦ first_answer ask rs | some a ↦ pure (some a) ])
      (try_except-IsQuiet (ask r) (λ _. pure none) (quiet r) (λ e c. refl))
      (λ value.
        found-IsQuiet value (first_answer ask rs) (λ a. pure (some a))
          (first_answer-IsQuiet ask rs quiet) (λ a c. refl))

module _ (world : World) (k : ℕ) (primary : NodeRef) where
  pub get_successor_chain-IsQuiet : IsQuiet (get_successor_chain world k primary)
  get_successor_chain-IsQuiet c =
      let (rs, l, e, _, _, _) = get_successor_chain-IsChain world c k primary in
      ap (λ x. x.1.nodes) e

  -- A read from the replicas of the chain.
  pub chain_read-IsQuiet :
      {A : Type 0} (ask : NodeRef → Action (Option A))
      → ((r : NodeRef) → IsQuiet (ask r))
      → IsQuiet (get_successor_chain world k primary >>= λ chain. first_answer ask (drop 1 chain))
  chain_read-IsQuiet ask quiet =
      >>=-IsQuiet (get_successor_chain world k primary) (λ chain. first_answer ask (drop 1 chain))
        get_successor_chain-IsQuiet (λ chain. first_answer-IsQuiet ask (drop 1 chain) quiet)

  pub read_from_replicas-IsQuiet : (key : String) → IsQuiet (read_from_replicas world k key primary)
  unfolding read_from_replicas get_task_replica
  read_from_replicas-IsQuiet key =
      chain_read-IsQuiet (λ r. get_task_replica world r.address key)
        (λ r. request-IsQuiet world r.address (reads (get_replica_local key)) (λ n c. refl))
