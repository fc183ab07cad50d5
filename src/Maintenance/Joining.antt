-- ===== src/Maintenance/Joining.antt =====
-- How a process that has joined is taken into the ring, by `stabilize` of chord/node.py.
use distributed_chord_infras.Node
use distributed_chord_infras.Network.{Cluster, World, set_node, ok, ◌>>◌}
use distributed_chord_infras.Common.{
  String, ℕ, ◌≢◌, false, some, str_eq, ◌≡◌, arith, true, ◌+◌, eq_iff, none, ap, refl, ◌∙◌, sym,
}
use distributed_chord_infras.Ring.{in_range}
use distributed_chord_infras.Node.{ChordNode, set_successor, self_ref, successor}
use distributed_chord_infras.Transport.Delivery.{IsReliable}
use distributed_chord_infras.Maintenance.{stabilize, adopt}
use distributed_chord_infras.Records.{NodeRef}
use distributed_chord_infras.Network.Nodes.{set_node_other, set_node_same, set_node_self}
use distributed_chord_infras.Maintenance.Quiet.{stabilize_round}

not_back : (j n s : ℕ) → in_range j n s false ≡ true → n ≢ s → j ≢ s → in_range n j s false ≡ false
unfolding in_range
not_back j n s between ne ne' = ground arith

pub str_ne : {a b : String} → a ≢ b → str_eq a b ≡ false
str_ne {a} {b} ne = ground (arith, eq_iff a b)

adopt_not :
    (r : NodeRef) (s n : ChordNode)
    → s.predecessor ≡ some r
    → in_range r.id n.node_id (successor n).id false ≡ false
    → adopt s.predecessor n.node_id n ≡ n
unfolding adopt
adopt_not r s n known far = rw known (rw far refl)

adopt_between :
    (r : NodeRef) (n : ChordNode)
    → in_range r.id n.node_id (successor n).id false ≡ true
    → adopt (some r) n.node_id n ≡ set_successor r n
unfolding adopt
adopt_between r n near = rw near refl

notify_between :
    (r p : NodeRef) (s : ChordNode)
    → s.predecessor ≡ some p
    → in_range r.id p.id s.node_id false ≡ true
    → Node.notify r s ≡ record s { predecessor = some r }
unfolding Node.notify
notify_between r p s known near = rw known (rw near refl)

notify_first :
    (r : NodeRef) (s : ChordNode)
    → s.predecessor ≡ none
    → Node.notify r s ≡ record s { predecessor = some r }
unfolding Node.notify
notify_first r s unknown = rw unknown refl

pub successor-set_successor : (r : NodeRef) (n : ChordNode) → successor (set_successor r n) ≡ r
unfolding set_successor successor
successor-set_successor r n = refl

-- A process `j` stands between `n` and its successor `s`, knows `s`, and is not known yet.
pub record IsJoining (c : Cluster) (a_n a_j a_s : String) (n j s : ChordNode) : Type 0 where
  pub live_n : c.nodes a_n ≡ some n
  pub live_j : c.nodes a_j ≡ some j
  pub live_s : c.nodes a_s ≡ some s
  pub apart_nj : a_n ≢ a_j
  pub apart_ns : a_n ≢ a_s
  pub apart_js : a_j ≢ a_s
  pub address_n : n.address ≡ a_n
  pub address_j : j.address ≡ a_j
  pub between : in_range j.node_id n.node_id s.node_id false ≡ true
  pub ids_ns : n.node_id ≢ s.node_id
  pub ids_js : j.node_id ≢ s.node_id
  pub succ_n : successor n ≡ record { id = s.node_id; address = a_s }
  pub succ_j : successor j ≡ record { id = s.node_id; address = a_s }
  pub pred_s : s.predecessor ≡ some (self_ref n)
  pub pred_j : j.predecessor ≡ none

module _ (world : World) (reliable : IsReliable world) (c : Cluster) (a_n a_j a_s : String)
    (n j s : ChordNode) (h : IsJoining c a_n a_j a_s n j s) where
  abbrev told : ChordNode
  told = record s { predecessor = some (self_ref j) }

  abbrev after_one : Cluster
  after_one = record (set_node a_s told c) { calls = c.calls + 1 + 1 }

  -- The round of `j`: `s` takes `j` for its predecessor.
  round_of_joining : stabilize world a_j c ≡ (ok tt, after_one)
  round_of_joining =
      let at_s = ap (λ r. r.address) h.succ_j in
      let same = set_node_same a_j j c h.live_j in
      let reached = ap c.nodes at_s ∙ h.live_s in
      stabilize_round world reliable a_j c j s h.live_j reached j s
        (λ e. h.ids_js (sym e ∙ ap (λ r. r.id) h.succ_j))
        (adopt_not (self_ref n) s j h.pred_s (
          rw (ap (λ r. r.id) h.succ_j)
            (not_back j.node_id n.node_id s.node_id h.between h.ids_ns h.ids_js)))
        (ap (λ x. x.nodes (successor j).address) same ∙ reached)
      ∙ (λ i. (
        ok tt,
        record (set_node (at_s i) (notify_between (self_ref j) (self_ref n) s h.pred_s h.between i)
            (same i)) { calls = c.calls + 1 + 1 },
      ))

  abbrev linked : ChordNode
  linked = set_successor (self_ref j) n

  abbrev known : ChordNode
  known = record j { predecessor = some (self_ref n) }

  abbrev after_two : Cluster
  after_two = record (set_node a_j known (set_node a_n linked after_one)) {
    calls = c.calls + 1 + 1 + 1 + 1;
  }

  -- The round of `n`: it finds `j` behind `s`, and tells it.
  round_of_predecessor : stabilize world a_n after_one ≡ (ok tt, after_two)
  round_of_predecessor =
      let there = set_node_other a_s told c in
      let live : after_one.nodes a_n ≡ some n = there a_n (str_ne h.apart_ns) ∙ h.live_n in
      let live_j : after_one.nodes a_j ≡ some j = there a_j (str_ne h.apart_js) ∙ h.live_j in
      let at_s = ap (λ r. r.address) h.succ_n in
      let reached : after_one.nodes (successor n).address ≡ some told =
        ap after_one.nodes at_s ∙ set_node_self a_s told c in
      let at_j = ap (λ r. r.address) (successor-set_successor (self_ref j) n) ∙ h.address_j in
      stabilize_round world reliable a_n after_one n told live reached linked j
        (λ e. h.ids_ns (sym e ∙ ap (λ r. r.id) h.succ_n))
        (adopt_between (self_ref j) n (rw (ap (λ r. r.id) h.succ_n) h.between))
        (ap (set_node a_n linked after_one).nodes at_j
          ∙ set_node_other a_n linked after_one a_j (str_ne (λ e. h.apart_nj (sym e)))
          ∙ live_j)
      ∙ (λ i. (
        ok tt,
        record (set_node (at_j i) (notify_first (self_ref n) j h.pred_j i)
            (set_node a_n linked after_one)) { calls = c.calls + 1 + 1 + 1 + 1 },
      ))

-- Three processes run at different addresses: `s`, `n` with the successor `s`, and `j`, which has
-- joined with the successor `s` and has no predecessor yet. The predecessor of `s` is `n`, the
-- identifiers of `n` and of `j` are not that of `s`, and that of `j` is between those of `n` and `s`.
-- Over a network that delivers every call, one round of `j` and then one of `n` complete the ring:
-- the successor of `n` is `j`, the predecessor of `j` is `n`, that of `s` is `j`, and nothing else
-- of the three has changed.
pub stabilize_joins :
    (world : World) (c : Cluster) (a_n a_j a_s : String) (n j s : ChordNode)
    → IsReliable world
    → IsJoining c a_n a_j a_s n j s
    → (c' : Cluster) × ((stabilize world a_j >> stabilize world a_n) c ≡ (ok tt, c'))
      × (c'.nodes a_n ≡ some (set_successor (self_ref j) n))
      × (c'.nodes a_j ≡ some (record j { predecessor = some (self_ref n) }))
      × (c'.nodes a_s ≡ some (record s { predecessor = some (self_ref j) }))
stabilize_joins world c a_n a_j a_s n j s reliable h =
    let one = after_one world reliable c a_n a_j a_s n j s h in
    let two = after_two world reliable c a_n a_j a_s n j s h in
    let link = linked world reliable c a_n a_j a_s n j s h in
    let know = known world reliable c a_n a_j a_s n j s h in
    let first = round_of_joining world reliable c a_n a_j a_s n j s h in
    let second = round_of_predecessor world reliable c a_n a_j a_s n j s h in
    (
      two,
      rw first second,
      set_node_other a_j know (set_node a_n link one) a_n (str_ne h.apart_nj)
          ∙ set_node_self a_n link one,
      set_node_self a_j know (set_node a_n link one),
      set_node_other a_j know (set_node a_n link one) a_s (str_ne (λ e. h.apart_js (sym e)))
          ∙ set_node_other a_n link one a_s (str_ne (λ e. h.apart_ns (sym e)))
          ∙ set_node_self a_s (told world reliable c a_n a_j a_s n j s h) c,
    )
