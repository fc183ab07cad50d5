-- ===== src/Lookup.antt =====
-- `find_successor` of chord/node.py with the handler `/chord/find_successor` of chord/server.py,
-- and the routed endpoints `/put`, `/get` and `/del` of chord/server.py. A lookup that goes from
-- process to process takes fuel, one unit for each process.
pub mod Stable
pub mod Progress
pub mod Owner
pub mod OwnId
pub mod Writes
pub mod Routed
pub mod Samples
mod Tests
use distributed_chord_infras.Common.{
  ℕ, zero, suc, String, Bool, true, false, Option, none, some, ◌==◌, if◌then◌else◌,
}
use distributed_chord_infras.Ring.{sha1_id, in_range}
use distributed_chord_infras.Records.{NodeRef, Value}
use distributed_chord_infras.Node
use distributed_chord_infras.Node.{ChordNode, successor, closest_preceding_node}
use distributed_chord_infras.Transport
use distributed_chord_infras.Transport.{request, retry}
use distributed_chord_infras.Network.{
  Error, Result, ok, err, World, Cluster, Action, pure, raise, lift, try_except, ◌>>=◌, ◌>>◌,
  set_node,
}

-- A remote call that raises falls back on the successor.
unfoldable pub find_successor : ℕ → World → ChordNode → ℕ → Action NodeRef
find_successor zero world n key_id = raise Error.out_of_fuel
find_successor (suc fuel) world n key_id =
    if in_range key_id n.node_id (successor n).id true
    then pure (successor n)
    else if (closest_preceding_node n key_id).id == n.node_id
    then pure (successor n)
    else try_except
        (request world (closest_preceding_node n key_id).address
          (λ node. find_successor fuel world node key_id))
        (λ _. pure (successor n))

-- `ROUTED_RETRIES`
abbrev pub routed_retries : ℕ
routed_retries = 2

-- The process that runs at an address, as its own methods see it.
abbrev pub here : {A : Type 0} → String → (ChordNode → Action A) → Action A
here self body c = elim (c.nodes self) [ none ↦ (err Error.unreachable, c) | some n ↦ body n c ]

module _ (digest : String → ℕ) (fuel : ℕ) (world : World) (self : String) where
  -- One attempt of `routed_put`, in the process at `self`: the id of the node that stored the value.
  unfoldable pub put_attempt : String → Value → Action ℕ
  put_attempt key value = do
    responsible ← here self (λ n. find_successor fuel world n (sha1_id digest key))
    here self λ n.
        if responsible.id == n.node_id
        then (λ c. (ok n.node_id, set_node self (Node.put key value n) c))
        else (Transport.put world responsible.address key value >> pure responsible.id)

  -- One attempt of `routed_get`: none is the response 404.
  unfoldable pub get_attempt : String → Action (Option Value)
  get_attempt key = do
    responsible ← here self (λ n. find_successor fuel world n (sha1_id digest key))
    here self λ n.
        if responsible.id == n.node_id
        then pure (Node.get key n)
        else Transport.get world responsible.address key

  -- One attempt of `routed_delete`.
  unfoldable pub delete_attempt : String → Action Bool
  delete_attempt key = do
    responsible ← here self (λ n. find_successor fuel world n (sha1_id digest key))
    here self λ n.
        if responsible.id == n.node_id
        then (λ c. (ok (Node.delete key n).0, set_node self (Node.delete key n).1 c))
        else (Transport.delete world responsible.address key >> pure true)

  unfoldable pub routed_put : String → Value → Action ℕ
  routed_put key value = retry routed_retries (put_attempt key value)

  unfoldable pub routed_get : String → Action (Option Value)
  routed_get key = retry routed_retries (get_attempt key)

  unfoldable pub routed_delete : String → Action Bool
  routed_delete key = retry routed_retries (delete_attempt key)
