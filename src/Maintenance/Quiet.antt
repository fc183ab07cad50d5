-- ===== src/Maintenance/Quiet.antt =====
-- One round of `stabilize` of chord/node.py over a network that delivers every call.
use distributed_chord_infras.Node
use distributed_chord_infras.Network.{World, Cluster, set_node, ok, tick}
use distributed_chord_infras.Transport.Delivery.{IsReliable}
use distributed_chord_infras.Common.{
  String, ◌≡◌, some, ◌+◌, refl, ◌≢◌, ℕ, false, arith, sym, ◌∙◌, ap,
}
use distributed_chord_infras.Node.{ChordNode, successor, self_ref}
use distributed_chord_infras.Maintenance.{ask_and_notify, adopt, stabilize}
use distributed_chord_infras.Transport.Calls.{get_predecessor_lem, notify_lem}
use distributed_chord_infras.Network.Nodes.{set_node_self, set_node_same}
use distributed_chord_infras.Lookup.{here}
use distributed_chord_infras.Records.{NodeRef}
use distributed_chord_infras.Ring.{in_range}
use distributed_chord_infras.Lookup.Owner.{not_eq}

module _ (world : World) (reliable : IsReliable world) (self : String) (c : Cluster)
    (n s : ChordNode) (live : c.nodes self ≡ some n)
    (succ_live : c.nodes (successor n).address ≡ some s) where
  -- The calls of a round, given what becomes of the process and whom it notifies.
  ask_and_notify_lem :
      (n' o : ChordNode)
      → adopt s.predecessor n.node_id n ≡ n'
      → (set_node self n' c).nodes (successor n').address ≡ some o
      → ask_and_notify world self n c ≡ (
        ok tt,
        record (set_node (successor n').address (Node.notify (self_ref n) o) (set_node self n' c)) {
          calls = c.calls + 1 + 1;
        },
      )
  unfolding ask_and_notify set_node
  ask_and_notify_lem n' o adopted at =
      rw (get_predecessor_lem world reliable (successor n).address c s succ_live) (
        rw (live, here)
          (rw adopted (
            rw (set_node_self self n' (tick c), here)
              (rw
                (notify_lem world reliable (successor n').address (set_node self n' (tick c)) o at
                  (self_ref n))
                refl))))

  -- A round beside another process, where no call fails.
  pub stabilize_round :
      (n' o : ChordNode)
      → (successor n).id ≢ n.node_id
      → adopt s.predecessor n.node_id n ≡ n'
      → (set_node self n' c).nodes (successor n').address ≡ some o
      → stabilize world self c ≡ (
        ok tt,
        record (set_node (successor n').address (Node.notify (self_ref n) o) (set_node self n' c)) {
          calls = c.calls + 1 + 1;
        },
      )
  unfolding stabilize
  stabilize_round n' o other adopted at =
      rw (live, here) (rw (not_eq other) (rw (ask_and_notify_lem n' o adopted at) refl))

-- A successor whose predecessor is the process itself is kept.
in_range_first : (a b : ℕ) → b ≢ a → in_range a a b false ≡ false
unfolding in_range
in_range_first a b other = ground arith

adopt_self :
    (n : ChordNode) → (successor n).id ≢ n.node_id → adopt (some (self_ref n)) n.node_id n ≡ n
unfolding adopt
adopt_self n other = rw (in_range_first n.node_id (successor n).id other) refl

notify_known :
    (r : NodeRef) (s : ChordNode) → s.predecessor ≡ some r → s.node_id ≢ r.id → Node.notify r s ≡ s
unfolding Node.notify
notify_known r s known other = rw (known, in_range_first r.id s.node_id other) refl

-- Over a network that delivers every call, a round of a process whose successor already knows it as
-- its predecessor changes no process.
pub stabilize_quiet :
    (world : World) (self : String) (c : Cluster) (n s : ChordNode)
    → IsReliable world
    → c.nodes self ≡ some n
    → c.nodes (successor n).address ≡ some s
    → s.node_id ≡ (successor n).id
    → (successor n).id ≢ n.node_id
    → s.predecessor ≡ some (self_ref n)
    → stabilize world self c ≡ (ok tt, record c { calls = c.calls + 2 })
stabilize_quiet world self c n s reliable live succ_live same other known =
    let unwritten = set_node_same self n c live in
    let keeps = notify_known (self_ref n) s known (λ e. other (sym same ∙ e)) in
    let adopted = ap (λ p. adopt p n.node_id n) known ∙ adopt_self n other in
    let at = ap (λ x. x.nodes (successor n).address) unwritten ∙ succ_live in
    stabilize_round world reliable self c n s live succ_live n s other adopted at
    ∙ (λ i. (
      ok tt,
      record (set_node (successor n).address (keeps i) (unwritten i)) { calls = c.calls + 1 + 1 },
    ))
    ∙ (λ i. (
      ok tt,
      record (set_node_same (successor n).address s c succ_live i) { calls = two c.calls i },
    ))
  where
    two : (k : ℕ) → k + 1 + 1 ≡ k + 2
    two k = omega arith
