-- ===== src/Lookup/Stable.antt =====
-- A ring at rest, and the node that owns an identifier.
use distributed_chord_infras.Common.{ℕ, ◌^◌, ◌≤◌, ◌<◌, String, ◌≡◌, ◌≢◌, ◌⊎◌, some, Option}
use distributed_chord_infras.Ring.{m, clockwise}
use distributed_chord_infras.Records.{NodeRef}
use distributed_chord_infras.Node.{ChordNode, finger_ref}

abbrev pub Nodes : Type 0
Nodes = String → Option ChordNode

-- A live process with the identifier of the reference runs at its address.
abbrev pub IsLive : Nodes → NodeRef → Type 0
IsLive nodes r = (n : ChordNode) × (nodes r.address ≡ some n) × (n.node_id ≡ r.id)

-- Every process has an identifier of the ring and knows its own address, its fingers refer to live
-- processes, and no live process lies strictly between it and its successor. A process that is its
-- own successor is alone.
pub record IsStable (nodes : Nodes) : Type 0 where
  pub ids : (a : String) (n : ChordNode) → nodes a ≡ some n → n.node_id < 2 ^ m
  pub addresses : (a : String) (n : ChordNode) → nodes a ≡ some n → n.address ≡ a
  pub distinct :
      (a b : String) (n o : ChordNode)
      → nodes a ≡ some n
      → nodes b ≡ some o
      → n.node_id ≡ o.node_id
      → a ≡ b
  pub fingers_live :
      (a : String) (n : ChordNode) (i : ℕ)
      → nodes a ≡ some n
      → i < m
      → IsLive nodes (finger_ref (n.fingers i))
  pub nothing_between :
      (a b : String) (n o : ChordNode)
      → nodes a ≡ some n
      → nodes b ≡ some o
      → (o.node_id ≡ n.node_id)
        ⊎ ((n.fingers 0).node_id ≢ n.node_id)
          × (clockwise n.node_id (n.fingers 0).node_id ≤ clockwise n.node_id o.node_id)

-- The owner of an identifier: a live process such that no live process is met earlier on the
-- clockwise way from the identifier.
abbrev pub IsOwner : Nodes → ℕ → NodeRef → Type 0
IsOwner nodes key_id r =
    IsLive nodes r
    × ((a : String) (o : ChordNode)
        → nodes a ≡ some o
        → clockwise key_id r.id ≤ clockwise key_id o.node_id)
