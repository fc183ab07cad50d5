-- ===== src/Lookup/Owner.antt =====
-- A lookup in a ring at rest returns the owner of the key.
use distributed_chord_infras.Common.{
  ℕ, ◌^◌, ◌≤◌, ◌<◌, ◌≡◌, ◌≢◌, ◌⊎◌, arith, String, some, true, zero, suc, Bool-cases, inl, inr,
  false, refl, ◌==◌, ap, ◌∙◌, sym,
}
use native.Mathlib.Decide.{ℕ_discrete}
use distributed_chord_infras.Ring.{m, clockwise, in_range}
use distributed_chord_infras.Records.{NodeRef}
use distributed_chord_infras.Transport.Delivery.{request_delivered}
use distributed_chord_infras.Node.{
  FingerEntry, ChordNode, successor, closest_preceding_node, finger_ref,
}
use distributed_chord_infras.Network.{ok, World, Cluster, tick}
use distributed_chord_infras.Transport.Delivery.{IsReliable}
use distributed_chord_infras.Lookup.{find_successor}
use distributed_chord_infras.Lookup.Stable.{IsOwner, Nodes, IsStable}
use distributed_chord_infras.Ring.Interval.{in_range_closed}
use distributed_chord_infras.Lookup.Progress.{closest_preceding_node-progress}

-- The arithmetic of the first branch: nothing lives between the key and the successor.
owner_of_between :
    (n s k o : ℕ)
    → n < 2 ^ m
    → s < 2 ^ m
    → k < 2 ^ m
    → o < 2 ^ m
    → (o ≡ n) ⊎ (s ≢ n) × (clockwise n s ≤ clockwise n o)
    → (k ≢ n) ⊎ (s ≡ n)
    → in_range k n s true ≡ true
    → clockwise k s ≤ clockwise k o
owner_of_between n s k o hn hs hk ho gap start hit = elim (ℕ_discrete n s) [
  | yes alone ↦ omega arith
  | no other ↦ let way = (in_range_closed k n s hk hn hs other).0 hit in omega arith
]

past_successor :
    (n s k : ℕ)
    → n < 2 ^ m
    → s < 2 ^ m
    → k < 2 ^ m
    → (k ≢ n) ⊎ (s ≡ n)
    → in_range k n s true ≡ false
    → (n ≢ k) × (0 < clockwise n s) × (clockwise n s < clockwise n k)
unfolding in_range
past_successor n s k hn hs hk start miss = ground arith

pub not_eq : {a b : ℕ} → a ≢ b → (a == b) ≡ false
not_eq ne = ground arith

module _ (world : World) (reliable : IsReliable world) where
  -- What a lookup returns: the owner, with only the number of calls changed.
  abbrev Finds : ℕ → ChordNode → ℕ → Cluster → Type 0
  Finds fuel n key_id c =
      (r : NodeRef) × (k : ℕ) × (find_successor fuel world n key_id c
        ≡ (ok r, record c { calls = k }))
      × IsOwner c.nodes key_id r

  -- The fingers of a ring at rest have identifiers of the ring.
  finger-lt :
      (nodes : Nodes) (a : String) (n : ChordNode) (i : ℕ)
      → IsStable nodes
      → nodes a ≡ some n
      → i < m
      → (n.fingers i).node_id < 2 ^ m
  finger-lt nodes a n i stable live lt =
      let (o, at, same) = stable.fingers_live a n i live lt in
      let bound = stable.ids (n.fingers i).node_address o at in omega arith

  IsOwner-here :
      (c : Cluster) (a : String) (n : ChordNode) (key_id : ℕ)
      → IsStable c.nodes
      → c.nodes a ≡ some n
      → key_id < 2 ^ m
      → (key_id ≢ n.node_id) ⊎ ((n.fingers 0).node_id ≡ n.node_id)
      → in_range key_id n.node_id (n.fingers 0).node_id true ≡ true
      → IsOwner c.nodes key_id (successor n)
  unfolding successor
  IsOwner-here c a n key_id stable live hk start hit = (
    stable.fingers_live a n 0 live (omega arith),
    λ b o at.
        owner_of_between n.node_id (n.fingers 0).node_id key_id o.node_id (stable.ids a n live)
          (finger-lt c.nodes a n 0 stable live (omega arith)) hk (stable.ids b o at)
          (stable.nothing_between a b n o live at) start hit,
  )

  -- Where the key lies past the successor, the scan finds a finger that is nearer to the key.
  far :
      (nodes : Nodes) (a : String) (n : ChordNode) (key_id : ℕ)
      → IsStable nodes
      → nodes a ≡ some n
      → key_id < 2 ^ m
      → (key_id ≢ n.node_id) ⊎ ((n.fingers 0).node_id ≡ n.node_id)
      → in_range key_id n.node_id (n.fingers 0).node_id true ≡ false
      → (j : ℕ) × (j < m)
        × (closest_preceding_node n key_id ≡ finger_ref (n.fingers j))
        × (0 < clockwise n.node_id (n.fingers j).node_id)
        × (clockwise n.node_id (n.fingers j).node_id < clockwise n.node_id key_id)
  far nodes a n key_id stable live hk start miss =
      let hn = stable.ids a n live in
      let hs = finger-lt nodes a n 0 stable live (omega arith) in
      let (ne, pos, before) =
        past_successor n.node_id (n.fingers 0).node_id key_id hn hs hk start miss in
      closest_preceding_node-progress n key_id hk hn (λ i lt. finger-lt nodes a n i stable live lt)
        ne pos before

  -- One hop: the lookup is the remote call to the chosen finger.
  find_successor_hop :
      (fuel : ℕ) (c c' : Cluster) (n : ChordNode) (key_id : ℕ) (f : FingerEntry) (o : ChordNode)
      (r : NodeRef)
      → in_range key_id n.node_id (n.fingers 0).node_id true ≡ false
      → closest_preceding_node n key_id ≡ finger_ref f
      → f.node_id ≢ n.node_id
      → c.nodes f.node_address ≡ some o
      → find_successor fuel world o key_id (tick c) ≡ (ok r, c')
      → find_successor (suc fuel) world n key_id c ≡ (ok r, c')
  unfolding find_successor successor
  find_successor_hop fuel c c' n key_id f o r miss closest other at found =
      rw (miss, closest, not_eq other)
        (rw
          (request_delivered world f.node_address (λ node. find_successor fuel world node key_id) c
            o (ok r) c' reliable at found)
          refl)

  find_successor_near :
      (fuel : ℕ) (c : Cluster) (n : ChordNode) (key_id : ℕ)
      → in_range key_id n.node_id (n.fingers 0).node_id true ≡ true
      → find_successor (suc fuel) world n key_id c ≡ (ok (successor n), c)
  unfolding find_successor successor
  find_successor_near fuel c n key_id hit = rw hit refl

  find_successor-Finds :
      (fuel : ℕ) (c : Cluster) (a : String) (n : ChordNode) (key_id : ℕ)
      → IsStable c.nodes
      → c.nodes a ≡ some n
      → key_id < 2 ^ m
      → (key_id ≢ n.node_id) ⊎ ((n.fingers 0).node_id ≡ n.node_id)
      → clockwise n.node_id key_id < fuel
      → Finds fuel n key_id c
  find_successor-Finds zero c a n key_id stable live hk start enough = absurd (omega arith)
  find_successor-Finds (suc fuel) c a n key_id stable live hk start enough =
      elim (Bool-cases (in_range key_id n.node_id (n.fingers 0).node_id true)) [
        | inl hit ↦ (
          successor n,
          c.calls,
          find_successor_near fuel c n key_id hit,
          IsOwner-here c a n key_id stable live hk start hit,
        )
        | inr miss ↦
            let (j, below, closest, pos, nearer) =
              far c.nodes a n key_id stable live hk start miss in
            let (o, at, same) = stable.fingers_live a n j live below in
            let hn = stable.ids a n live in
            let ho = stable.ids (n.fingers j).node_address o at in
            let (r, k, found, owns) =
              find_successor-Finds fuel (tick c) (n.fingers j).node_address o key_id stable at hk
                (inl (omega arith)) (omega arith) in
            (
              r,
              k,
              find_successor_hop fuel c (record c { calls = k }) n key_id (n.fingers j) o r miss
                  closest (omega arith) at found,
              owns,
            )
      ]

-- In a ring at rest and over a network that delivers every call, a lookup that any process starts
-- for any identifier but its own returns the owner of the identifier and changes no process: with
-- one unit of fuel for each identifier of the ring it always ends.
pub find_successor-IsOwner :
    (world : World) (fuel : ℕ) (c : Cluster) (a : String) (n : ChordNode) (key_id : ℕ)
    → IsReliable world
    → IsStable c.nodes
    → c.nodes a ≡ some n
    → key_id < 2 ^ m
    → (key_id ≢ n.node_id) ⊎ ((n.fingers 0).node_id ≡ n.node_id)
    → 2 ^ m ≤ fuel
    → (r : NodeRef) × (k : ℕ) × (find_successor fuel world n key_id c
        ≡ (ok r, record c { calls = k }))
      × IsOwner c.nodes key_id r
find_successor-IsOwner world fuel c a n key_id reliable stable live hk start enough =
    find_successor-Finds world reliable fuel c a n key_id stable live hk start (omega arith)

-- The owner of an identifier is one process.
pub IsOwner-unique :
    (nodes : Nodes) (key_id : ℕ) (r s : NodeRef)
    → IsStable nodes
    → key_id < 2 ^ m
    → IsOwner nodes key_id r
    → IsOwner nodes key_id s
    → (r.id ≡ s.id) × (r.address ≡ s.address)
IsOwner-unique nodes key_id r s stable hk ((o, at, same), first) ((p, bt, same'), first') =
    let near = first s.address p bt in
    let near' = first' r.address o at in
    let ho = stable.ids r.address o at in
    let hp = stable.ids s.address p bt in
    let e : r.id ≡ s.id = omega arith in
    (e, stable.distinct r.address s.address o p at bt (omega arith))

-- In a ring at rest and over a network that delivers every call, two lookups of a key return the
-- same node whichever process starts them, if the identifier of the key is not that of one of these
-- two processes and the fuel is at least 2 ^ m.
pub find_successor-agree :
    (world : World) (fuel : ℕ) (c : Cluster) (a b : String) (n o : ChordNode) (key_id : ℕ)
    → IsReliable world
    → IsStable c.nodes
    → c.nodes a ≡ some n
    → c.nodes b ≡ some o
    → key_id < 2 ^ m
    → key_id ≢ n.node_id
    → key_id ≢ o.node_id
    → 2 ^ m ≤ fuel
    → (find_successor fuel world n key_id c).0 ≡ (find_successor fuel world o key_id c).0
find_successor-agree world fuel c a b n o key_id reliable stable live live' hk ne ne' enough =
    let (r, k, found, owns) =
      find_successor-IsOwner world fuel c a n key_id reliable stable live hk (inl ne) enough in
    let (s, l, found', owns') =
      find_successor-IsOwner world fuel c b o key_id reliable stable live' hk (inl ne') enough in
    let (id, address) = IsOwner-unique c.nodes key_id r s stable hk owns owns' in
    ap (λ x. x.0) found ∙ same_ref r s id address ∙ ap (λ x. x.0) (sym found')
  where
    same_ref : (r s : NodeRef) → r.id ≡ s.id → r.address ≡ s.address → ok r ≡ ok s
    same_ref r s p q = λ i. ok (record { id = p i; address = q i })
