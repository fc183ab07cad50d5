-- ===== src/Lookup/Progress.antt =====
-- The scan of the finger table, `_closest_preceding_node` of chord/node.py.
use distributed_chord_infras.Common.{
  ℕ, zero, suc, ◌^◌, ◌<◌, ◌≡◌, ◌≢◌, refl, true, false, inl, inr, Bool-cases, arith,
}
use distributed_chord_infras.Ring.{m, in_range, clockwise}
use distributed_chord_infras.Ring.Interval.{in_range_open}
use distributed_chord_infras.Node.{ChordNode, finger_ref, closest_below, closest_preceding_node}

-- Where some finger lies before the key, the scan returns such a finger.
pub closest_below_found :
    (k : ℕ) (n : ChordNode) (key_id i : ℕ)
    → i < k
    → in_range (n.fingers i).node_id n.node_id key_id false ≡ true
    → (j : ℕ) × (j < k)
      × (closest_below k n key_id ≡ finger_ref (n.fingers j))
      × (in_range (n.fingers j).node_id n.node_id key_id false ≡ true)
unfolding closest_below
closest_below_found zero n key_id i lt found = elim lt [ ]
closest_below_found (suc k) n key_id i lt found =
    elim (Bool-cases (in_range (n.fingers k).node_id n.node_id key_id false)) [
      | inl hit ↦ (k, omega arith, rw hit refl, hit)
      | inr miss ↦
          let (j, below, closest, hit) = closest_below_found k n key_id i (ground arith) found in
          (j, omega arith, rw miss closest, hit)
    ]

-- If the successor lies strictly before the key, the chosen finger does too, and is nearer to the
-- key than the node itself.
pub closest_preceding_node-progress :
    (n : ChordNode) (key_id : ℕ)
    → key_id < 2 ^ m
    → n.node_id < 2 ^ m
    → ((i : ℕ) → i < m → (n.fingers i).node_id < 2 ^ m)
    → n.node_id ≢ key_id
    → 0 < clockwise n.node_id (n.fingers 0).node_id
    → clockwise n.node_id (n.fingers 0).node_id < clockwise n.node_id key_id
    → (j : ℕ) × (j < m)
      × (closest_preceding_node n key_id ≡ finger_ref (n.fingers j))
      × (0 < clockwise n.node_id (n.fingers j).node_id)
      × (clockwise n.node_id (n.fingers j).node_id < clockwise n.node_id key_id)
unfolding closest_preceding_node
closest_preceding_node-progress n key_id hk hn hf ne pos before =
    let (j, below, closest, hit) = closest_below_found m n key_id 0 (omega arith) (
      (in_range_open (n.fingers 0).node_id n.node_id key_id (hf 0 (omega arith)) hn hk ne).1
        (pos, before)) in
    let (p, q) =
      (in_range_open (n.fingers j).node_id n.node_id key_id (hf j below) hn hk ne).0 hit in
    (j, below, closest, p, q)
