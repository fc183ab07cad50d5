-- ===== src/Transport.antt =====
-- chord/transport.py: one HTTP call, the retry wrapper, and the calls of `HttpTransport` that need
-- no routing. Each names the handler of chord/server.py that it reaches.
pub mod Delivery
pub mod Calls
pub mod Reads
pub mod Quiet
pub mod Ends
pub mod Kept
use distributed_chord_infras.Common.Dict.{Dict}
use distributed_chord_infras.Common.{ℕ, zero, suc, ◌+◌, String, Bool, true, Option, none, some}
use distributed_chord_infras.Records.{NodeRef, Value}
use distributed_chord_infras.Node
use distributed_chord_infras.Node.{ChordNode, State, Metrics}
use distributed_chord_infras.Network.{
  Error, Result, ok, err, delivered, dropped, reply_lost, World, Cluster, Action, pure, raise, lift,
  try_except, ◌>>=◌, tick, local, reads, set_node,
}
use distributed_chord_infras.Records.Dynamic.{Json}

-- `RPC_RETRIES`
abbrev pub rpc_retries : ℕ
rpc_retries = 3

-- The process at the address answers, with its own result as the response.
abbrev pub answer : {A : Type 0} → (ChordNode → Action A) → Option ChordNode → Action (Result A)
answer handler none = raise Error.unreachable
answer handler (some n) = λ c. let (r, c') = handler n c in (ok r, c')

-- `requests.request`: it raises where no response arrives.
unfoldable pub call : {A : Type 0} → World → String → (ChordNode → Action A) → Action (Result A)
call world address handler c =
    let attempt = answer handler (c.nodes address) (tick c) in
    elim (world c.calls address) [
      | delivered ↦ attempt
      | dropped ↦ (err Error.unreachable, tick c)
      | reply_lost ↦ (err Error.unreachable, attempt.1)
    ]

-- `body`, and up to so many attempts more while it raises. The last exception is raised again.
unfoldable pub retry : {A : Type 0} → ℕ → Action A → Action A
retry zero body = body
retry (suc n) body = try_except body (λ _. retry n body)

-- `_request`, and `raise_for_status` on the response.
unfoldable pub request : {A : Type 0} → World → String → (ChordNode → Action A) → Action A
unfolding call retry
request world address handler = retry rpc_retries (call world address handler) >>= lift

-- `json=None` sends no body, and a handler that reads one answers 415.
abbrev pub with_body : {A : Type 0} → Value → (ChordNode → Action A) → ChordNode → Action A
with_body value handler n = elim (Node.stored (some value)) [
  | none ↦ raise Error.no_body
  | some v ↦ handler n
]

module _ (world : World) (address : String) where
  unfoldable pub get_predecessor : Action (Option NodeRef)
  unfolding request
  get_predecessor = request world address (reads λ n. n.predecessor)

  unfoldable pub notify : NodeRef → Action Unit
  unfolding request Node.notify
  notify candidate = request world address (local address λ n. (tt, Node.notify candidate n))

  unfoldable pub ping : Action Bool
  unfolding request
  ping = request world address (reads λ n. true)

  unfoldable pub update_predecessor : NodeRef → Action Unit
  unfolding request
  update_predecessor new_pred =
      request world address (local address λ n. (tt, record n { predecessor = some new_pred }))

  unfoldable pub update_successor : NodeRef → Action Unit
  unfolding request Node.set_successor
  update_successor new_succ =
      request world address (local address λ n. (tt, Node.set_successor new_succ n))

  unfoldable pub put : String → Value → Action Bool
  unfolding request Node.put
  put key value =
      request world address (with_body value (local address λ n. (true, Node.put key value n)))

  unfoldable pub get : String → Action (Option Value)
  unfolding request Node.get
  get key = request world address (reads (Node.get key))

  unfoldable pub delete : String → Action Bool
  unfolding request Node.delete
  delete key = request world address (local address (Node.delete key))

  unfoldable pub bulk_put : Dict Value → Action Unit
  unfolding request Node.bulk_put
  bulk_put items = request world address (local address λ n. (tt, Node.bulk_put items n))

  unfoldable pub get_metrics : Action Metrics
  unfolding request Node.metrics
  get_metrics = request world address (reads Node.metrics)

  unfoldable pub get_state : Action State
  unfolding request Node.state
  get_state = request world address (reads Node.state)
