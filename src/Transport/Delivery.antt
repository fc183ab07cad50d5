-- ===== src/Transport/Delivery.antt =====
-- The retry wrapper of chord/transport.py, and what a call does when the network delivers it.
use distributed_chord_infras.Common.{ℕ, zero, suc, String, ◌≡◌, refl, some, Option, none, ◌+◌}
use distributed_chord_infras.Node.{ChordNode}
use distributed_chord_infras.Network.{
  Result, ok, delivered, World, Cluster, Action, tick, local, reads, set_node, err, Error,
}
use distributed_chord_infras.Transport.{call, retry, request, rpc_retries}

-- A network that delivers every call.
abbrev pub IsReliable : World → Type 0
IsReliable world = (n : ℕ) (address : String) → world n address ≡ delivered

module _ {A : Type 0} (world : World) (address : String) (handler : ChordNode → Action A)
    (c : Cluster) (r : Result A) (c' : Cluster) where
  call_delivered :
      (n : ChordNode)
      → world c.calls address ≡ delivered
      → c.nodes address ≡ some n
      → handler n (tick c) ≡ (r, c')
      → call world address handler c ≡ (ok r, c')
  unfolding call
  call_delivered n reached live e = rw (reached, live, call) (rw e refl)

pub retry_ok :
    {A : Type 0} (n : ℕ) (body : Action A) (c : Cluster) (a : A) (c' : Cluster)
    → body c ≡ (ok a, c')
    → retry n body c ≡ (ok a, c')
unfolding retry
retry_ok zero body c a c' e = e
retry_ok (suc n) body c a c' e = rw e refl

-- A delivered call to a live process is the handler, run once.
pub request_delivered :
    {A : Type 0} (world : World) (address : String) (handler : ChordNode → Action A) (c : Cluster)
    (n : ChordNode) (r : Result A) (c' : Cluster)
    → IsReliable world
    → c.nodes address ≡ some n
    → handler n (tick c) ≡ (r, c')
    → request world address handler c ≡ (r, c')
unfolding request
request_delivered world address handler c n r c' reliable live e =
    rw
      (retry_ok rpc_retries (call world address handler) c r c'
        (call_delivered world address handler c r c' n (reliable c.calls address) live e))
      refl

module _ (world : World) (reliable : IsReliable world) (address : String) (c : Cluster) where
  -- A delivered call that changes the state of the process it reaches.
  pub local_delivered :
      {A : Type 0} (f : ChordNode → A × ChordNode) (n : ChordNode)
      → c.nodes address ≡ some n
      → request world address (local address f) c ≡ (ok (f n).0, set_node address (f n).1 (tick c))
  local_delivered f n live =
      request_delivered world address (local address f) c n (ok (f n).0)
        (set_node address (f n).1 (tick c)) reliable live refl

  pub reads_delivered :
      {A : Type 0} (f : ChordNode → A) (n : ChordNode)
      → c.nodes address ≡ some n
      → request world address (reads f) c ≡ (ok (f n), tick c)
  reads_delivered f n live =
      request_delivered world address (reads f) c n (ok (f n)) (tick c) reliable live refl

module _ {A : Type 0} (world : World) (reliable : IsReliable world) (address : String)
    (handler : ChordNode → Action A) (nodes : String → Option ChordNode)
    (dead : nodes address ≡ none) where
  abbrev at : ℕ → Cluster
  at k = record { nodes = nodes; calls = k }

  call_absent : (k : ℕ) → call world address handler (at k) ≡ (err Error.unreachable, at (k + 1))
  unfolding call
  call_absent k = rw (reliable k address, call) (rw dead refl)

  retry_absent :
      (n k : ℕ)
      → (l : ℕ) × (retry n (call world address handler) (at k) ≡ (err Error.unreachable, at l))
  unfolding retry
  retry_absent zero k = (k + 1, call_absent k)
  retry_absent (suc n) k = let (l, e) = retry_absent n (k + 1) in (l, rw (call_absent k) e)

  -- A call to an address at which no process runs raises after all its attempts.
  pub request_absent :
      (k : ℕ) → (l : ℕ) × (request world address handler (at k) ≡ (err Error.unreachable, at l))
  unfolding request
  request_absent k = let (l, e) = retry_absent rpc_retries k in (l, rw e refl)
