-- ===== src/Maintenance/Leaving.antt =====
-- The handover of a process that leaves, `leave` of chord/node.py.
use distributed_chord_infras.Node
use distributed_chord_infras.Common.Dict
use distributed_chord_infras.Common.Dict.{Dict}
use distributed_chord_infras.Network.{World, set_node, Cluster, ok, tick}
use distributed_chord_infras.Maintenance.{leave, relink, send_data}
use distributed_chord_infras.Transport.Delivery.{IsReliable}
use distributed_chord_infras.Records.{Value, NodeRef}
use distributed_chord_infras.Node.{ChordNode, successor, set_successor}
use distributed_chord_infras.Common.{
  String, ◌≡◌, Bool-cases, some, inl, ℕ, ◌≢◌, inr, ap, refl, sym, ◌+◌, ◌∙◌, [], ◌∷◌,
}
use distributed_chord_infras.Network.Nodes.{
  set_node_self, set_node_other, set_node_same, set_node_twice,
}
use distributed_chord_infras.Transport.Calls.{
  update_predecessor_lem, update_successor_lem, bulk_put_lem,
}
use distributed_chord_infras.Maintenance.Joining.{str_ne}
use distributed_chord_infras.Lookup.{here}
use distributed_chord_infras.Lookup.Owner.{not_eq}

bulk_put-data_store :
    (items : Dict Value) (s : ChordNode)
    → (Node.bulk_put items s).data_store ≡ Dict.update items s.data_store
unfolding Node.bulk_put
bulk_put-data_store items s = elim (Bool-cases s.persistent) [
  | inl kept ↦ rw kept refl
  | inr lost ↦ rw lost refl
]

module _ (world : World) (reliable : IsReliable world) (r : NodeRef) (s : ChordNode) (c : Cluster)
    (at : c.nodes r.address ≡ some s) where
  send_data_lem :
      (d : Dict Value)
      → (s' : ChordNode) × (k : ℕ) × (send_data world r d c
          ≡ (ok tt, record (set_node r.address s' c) { calls = k }))
        × (s'.data_store ≡ Dict.update d s.data_store)
  unfolding set_node Dict.update
  send_data_lem [] = (s, c.calls, ap (λ x. (ok tt, x)) (sym (set_node_same r.address s c at)), refl)
  send_data_lem ((k, v) ∷ d) = (
    Node.bulk_put ((k, v) ∷ d) s,
    c.calls + 1,
    rw (bulk_put_lem world reliable r.address c s at ((k, v) ∷ d)) refl,
    bulk_put-data_store ((k, v) ∷ d) s,
  )

  relink_lem :
      (p : NodeRef) (q : ChordNode)
      → p.address ≢ r.address
      → c.nodes p.address ≡ some q
      → relink world r (some p) c ≡ (
        ok tt,
        record (set_node p.address
            (set_successor r q)
            (set_node r.address (record s { predecessor = some p }) c)) { calls = c.calls + 1 + 1 },
      )
  unfolding set_node
  relink_lem p q apart there =
      let s' : ChordNode = record s { predecessor = some p } in
      rw (update_predecessor_lem world reliable r.address c s at p) (
        rw
          (update_successor_lem world reliable p.address (set_node r.address s' (tick c)) q
            (set_node_other r.address s' (tick c) p.address (str_ne apart) ∙ there) r)
          refl)

-- Over a network that delivers every call, a process with a successor and a predecessor that leaves
-- hands its whole store to the successor, gives the successor its own predecessor, and gives the
-- predecessor its own successor.
pub leave_hands_over :
    (world : World) (self : String) (c : Cluster) (n s q : ChordNode) (p : NodeRef)
    → IsReliable world
    → c.nodes self ≡ some n
    → (successor n).id ≢ n.node_id
    → n.predecessor ≡ some p
    → p.address ≢ (successor n).address
    → c.nodes (successor n).address ≡ some s
    → c.nodes p.address ≡ some q
    → (s' : ChordNode) × (k : ℕ) × (leave world self c ≡ (
      ok tt,
      record (set_node p.address
          (set_successor (successor n) q)
          (set_node (successor n).address s' c)) { calls = k },
    ))
      × (s'.data_store ≡ Dict.update n.data_store s.data_store)
      × (s'.predecessor ≡ some p)
unfolding leave set_node
leave_hands_over world self c n s q p reliable live other pred apart at there =
    let r = successor n in
    let (s1, k, sent, stored) = send_data_lem world reliable r s c at n.data_store in
    let c1 : Cluster = record (set_node r.address s1 c) { calls = k } in
    let s2 : ChordNode = record s1 { predecessor = some p } in
    let linked =
      relink_lem world reliable r s1 c1 (set_node_self r.address s1 c) p q apart
        (set_node_other r.address s1 c p.address (str_ne apart) ∙ there) in
    (
      s2,
      k + 1 + 1,
      rw (live, here) (rw (not_eq other) (rw sent (ap (λ o. relink world r o c1) pred ∙ linked)))
          ∙ (λ i. (
            ok tt,
            record (set_node p.address (set_successor r q) (set_node_twice r.address s2 s1 c i)) {
              calls = k + 1 + 1;
            },
          )),
      stored,
      refl,
    )
