-- ===== src/Lookup/Writes.antt =====
-- A ring at rest stays at rest when a process writes to its store.
use distributed_chord_infras.Node
use distributed_chord_infras.Node.{ChordNode, finger_ref}
use distributed_chord_infras.Network.{Cluster, set_node}
use distributed_chord_infras.Common.{
  String, ◌≡◌, some, Bool-cases, str_eq, inl, inr, arith, sym, ℕ, eq_iff, ◌∙◌, ap, subst, refl,
}
use distributed_chord_infras.Lookup.Stable.{IsStable, IsLive, IsOwner}
use distributed_chord_infras.Records.{NodeRef, Value}

-- What a write to the store of a process leaves alone.
pub record SamePointers (n o : ChordNode) : Type 0 where
  pub node_id : n.node_id ≡ o.node_id
  pub address : n.address ≡ o.address
  pub fingers : n.fingers ≡ o.fingers

pub put-SamePointers :
    (key : String) (value : Value) (n : ChordNode) → SamePointers (Node.put key value n) n
unfolding Node.put
put-SamePointers key value n = ground arith

module _ (c : Cluster) (a : String) (n n' : ChordNode) (live : c.nodes a ≡ some n)
    (same : SamePointers n' n) where
  -- A process after the write, and the process that it was.
  pub was :
      (b : String) (o : ChordNode)
      → (set_node a n' c).nodes b ≡ some o
      → (o' : ChordNode) × (c.nodes b ≡ some o') × SamePointers o o'
  unfolding set_node
  was b o at = elim (Bool-cases (str_eq b a)) [
    | inl here ↦
        let found : some n' ≡ some o = rw here at at in
        let e : n' ≡ o = cc in (n, ground (arith, eq_iff b a), subst (λ x. SamePointers x n) e same)
    | inr there ↦ (o, rw there at at, record { node_id = refl; address = refl; fingers = refl })
  ]

  -- A process before the write, and what it has become.
  pub becomes :
      (b : String) (o : ChordNode)
      → c.nodes b ≡ some o
      → (o' : ChordNode) × ((set_node a n' c).nodes b ≡ some o') × (o'.node_id ≡ o.node_id)
  unfolding set_node
  becomes b o at = elim (Bool-cases (str_eq b a)) [
    | inl here ↦
        let found : some n ≡ some o = sym live ∙ ap c.nodes (sym ((eq_iff b a).0 here)) ∙ at in
        let e : n ≡ o = cc in (n', rw here refl, same.node_id ∙ ap (λ x. x.node_id) e)
    | inr there ↦ (o, rw there at, refl)
  ]

  still-IsLive : (r : NodeRef) → IsLive c.nodes r → IsLive (set_node a n' c).nodes r
  still-IsLive r (o, at, e) = let (o', at', e') = becomes r.address o at in (o', at', e' ∙ e)

  -- A write to a store keeps the ring at rest.
  pub set_node-IsStable : IsStable c.nodes → IsStable (set_node a n' c).nodes
  set_node-IsStable stable = record {
    ids = λ b o at. let (p, before, e) = was b o at in rw e.node_id (stable.ids b p before);
    addresses =
        λ b o at. let (p, before, e) = was b o at in e.address ∙ stable.addresses b p before;
    distinct = λ b d o q at at' eq.
        let (p, before, e) = was b o at in
        let (p', before', e') = was d q at' in
        stable.distinct b d p p' before before' (sym e.node_id ∙ eq ∙ e'.node_id);
    fingers_live = λ b o i at lt.
        let (p, before, e) = was b o at in
        subst (λ f. IsLive (set_node a n' c).nodes (finger_ref (f i))) (sym e.fingers)
          (still-IsLive (finger_ref (p.fingers i)) (stable.fingers_live b p i before lt));
    nothing_between = λ b d o q at at'.
        let (p, before, e) = was b o at in
        let (p', before', e') = was d q at' in
        rw (e.node_id, e.fingers, e'.node_id) (stable.nothing_between b d p p' before before');
  }

  pub set_node-IsOwner :
      (key_id : ℕ) (r : NodeRef)
      → IsOwner c.nodes key_id r
      → IsOwner (set_node a n' c).nodes key_id r
  set_node-IsOwner key_id r (at, first) = (
    still-IsLive r at,
    λ b o live'. let (p, before, e) = was b o live' in rw e.node_id (first b p before),
  )
