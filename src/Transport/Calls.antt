-- ===== src/Transport/Calls.antt =====
-- Each call of `HttpTransport` in chord/transport.py, delivered to a live process.
use distributed_chord_infras.Node
use distributed_chord_infras.Transport
use distributed_chord_infras.Network.{
  World, Cluster, ok, set_node, tick, err, Error, reads, Action, local,
}
use distributed_chord_infras.Transport.Delivery.{
  IsReliable, local_delivered, reads_delivered, request_absent,
}
use distributed_chord_infras.Common.{String, ◌≡◌, some, true, Option, none, ℕ, Bool, refl, ap, ◌∙◌}
use distributed_chord_infras.Node.{ChordNode, stored}
use distributed_chord_infras.Common.Dict.{Dict}
use distributed_chord_infras.Records.{NodeRef, Value}
use distributed_chord_infras.Transport.{with_body, request}

with_body_lem :
    {A : Type 0} (value : Value) (handler : ChordNode → Action A)
    → stored (some value) ≡ some value
    → with_body value handler ≡ handler
with_body_lem value handler body = rw (body, with_body) refl

module _ (world : World) (reliable : IsReliable world) (address : String) (c : Cluster)
    (n : ChordNode) (live : c.nodes address ≡ some n) where
  pub get_predecessor_lem : Transport.get_predecessor world address c ≡ (ok n.predecessor, tick c)
  unfolding Transport.get_predecessor
  get_predecessor_lem = reads_delivered world reliable address c (λ o. o.predecessor) n live

  pub ping_lem : Transport.ping world address c ≡ (ok true, tick c)
  unfolding Transport.ping
  ping_lem = reads_delivered world reliable address c (λ o. true) n live

  pub get_lem : (key : String) → Transport.get world address key c ≡ (ok (Node.get key n), tick c)
  unfolding Transport.get
  get_lem key = reads_delivered world reliable address c (Node.get key) n live

  pub get_state_lem : Transport.get_state world address c ≡ (ok (Node.state n), tick c)
  unfolding Transport.get_state
  get_state_lem = reads_delivered world reliable address c Node.state n live

  pub notify_lem :
      (candidate : NodeRef)
      → Transport.notify world address candidate c
        ≡ (ok tt, set_node address (Node.notify candidate n) (tick c))
  unfolding Transport.notify
  notify_lem candidate =
      local_delivered world reliable address c (λ o. (tt, Node.notify candidate o)) n live

  pub update_predecessor_lem :
      (r : NodeRef)
      → Transport.update_predecessor world address r c
        ≡ (ok tt, set_node address (record n { predecessor = some r }) (tick c))
  unfolding Transport.update_predecessor
  update_predecessor_lem r =
      local_delivered world reliable address c (λ o. (tt, record o { predecessor = some r })) n live

  pub update_successor_lem :
      (r : NodeRef)
      → Transport.update_successor world address r c
        ≡ (ok tt, set_node address (Node.set_successor r n) (tick c))
  unfolding Transport.update_successor
  update_successor_lem r =
      local_delivered world reliable address c (λ o. (tt, Node.set_successor r o)) n live

  pub put_lem :
      (key : String) (value : Value)
      → stored (some value) ≡ some value
      → Transport.put world address key value c
        ≡ (ok true, set_node address (Node.put key value n) (tick c))
  unfolding Transport.put
  put_lem key value body =
      let store : ChordNode → Action Bool = local address (λ o. (true, Node.put key value o)) in
      ap (λ h. request world address h c) (with_body_lem value store body)
      ∙ local_delivered world reliable address c (λ o. (true, Node.put key value o)) n live

  pub bulk_put_lem :
      (items : Dict Value)
      → Transport.bulk_put world address items c
        ≡ (ok tt, set_node address (Node.bulk_put items n) (tick c))
  unfolding Transport.bulk_put
  bulk_put_lem items =
      local_delivered world reliable address c (λ o. (tt, Node.bulk_put items o)) n live

module _ (world : World) (reliable : IsReliable world) (address : String)
    (nodes : String → Option ChordNode) (dead : nodes address ≡ none) (k : ℕ) where
  pub ping_absent :
      (l : ℕ) × (Transport.ping world address (record { nodes = nodes; calls = k })
        ≡ (err Error.unreachable, record { nodes = nodes; calls = l }))
  unfolding Transport.ping
  ping_absent = request_absent world reliable address (reads λ o. true) nodes dead k

  pub get_predecessor_absent :
      (l : ℕ) × (Transport.get_predecessor world address (record { nodes = nodes; calls = k })
        ≡ (err Error.unreachable, record { nodes = nodes; calls = l }))
  unfolding Transport.get_predecessor
  get_predecessor_absent =
      request_absent world reliable address (reads λ o. o.predecessor) nodes dead k
