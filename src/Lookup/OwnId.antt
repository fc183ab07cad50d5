-- ===== src/Lookup/OwnId.antt =====
-- The lookup of a process's own identifier, in `find_successor` of chord/node.py.
use distributed_chord_infras.Node.{closest_preceding_node, successor, ChordNode}
use distributed_chord_infras.Lookup.{find_successor}
use distributed_chord_infras.Ring.{in_range, m}
use distributed_chord_infras.Network.{World, Cluster, ok}
use distributed_chord_infras.Common.{
  ℕ, false, ◌≡◌, ◌≢◌, String, true, arith, some, suc, ◌<◌, ◌^◌, ==_iff, refl,
}
use distributed_chord_infras.Lookup.Stable.{IsOwner}

own_not_in_range : (n s : ℕ) → s ≢ n → in_range n n s true ≡ false
unfolding in_range
own_not_in_range n s other = ground arith

in_range_whole : (x a : ℕ) → in_range x a a false ≡ true
unfolding in_range
in_range_whole x a = ground arith

closest_preceding_node-own :
    (n : ChordNode)
    → (n.fingers 7).node_id ≡ n.node_id
    → (closest_preceding_node n n.node_id).id ≡ n.node_id
unfolding closest_preceding_node
closest_preceding_node-own n last = rw (in_range_whole (n.fingers 7).node_id n.node_id) last

find_successor_back :
    (fuel : ℕ) (world : World) (n : ChordNode) (key_id : ℕ) (c : Cluster)
    → in_range key_id n.node_id (n.fingers 0).node_id true ≡ false
    → (closest_preceding_node n key_id).id ≡ n.node_id
    → find_successor (suc fuel) world n key_id c ≡ (ok (successor n), c)
unfolding find_successor successor
find_successor_back fuel world n key_id c miss own = rw (miss, (==_iff _ _).1 own) refl

-- A process that has others beside it, and whose last finger is itself, answers a lookup of its
-- own identifier with its successor, though it owns the identifier itself.
pub find_successor-own_id :
    (world : World) (fuel : ℕ) (c : Cluster) (a : String) (n : ChordNode)
    → c.nodes a ≡ some n
    → n.node_id < 2 ^ m
    → (n.fingers 0).node_id < 2 ^ m
    → (n.fingers 0).node_id ≢ n.node_id
    → (n.fingers 7).node_id ≡ n.node_id
    → (find_successor (suc fuel) world n n.node_id c ≡ (ok (successor n), c))
      × (¬ IsOwner c.nodes n.node_id (successor n))
unfolding successor
find_successor-own_id world fuel c a n live hn hs other last = (
  find_successor_back fuel world n n.node_id c
      (own_not_in_range n.node_id (n.fingers 0).node_id other) (closest_preceding_node-own n last),
  λ owns. let near = owns.1 a n live in absurd (omega arith),
)
