-- ===== src/Replication/Held.antt =====
-- What the writes of the replica handlers leave behind, over any network.
use distributed_chord_infras.Node
use distributed_chord_infras.Common.Dict
use distributed_chord_infras.Network.Ends.{Post, Post-handle, Post-and_then, IsCaught}
use distributed_chord_infras.Common.{
  String, ℕ, ◌≡◌, if◌then◌else◌, some, Bool-cases, str_eq, ◌∙◌, inl, inr, refl, eq_iff, sym, ap,
  arith, Option, none,
}
use distributed_chord_infras.Records.{Value, NodeRef}
use distributed_chord_infras.Node.{ChordNode}
use distributed_chord_infras.Network.{
  Cluster, Error, Result, set_node, World, Action, local, ◌>>◌, pure,
}
use distributed_chord_infras.Network.Nodes.{set_node_self, set_node_other}
use distributed_chord_infras.Common.Dict.{str_eq_refl, dict_laws}
use distributed_chord_infras.Replication.{caught}
use distributed_chord_infras.Transport.{request}
use distributed_chord_infras.Transport.Ends.{request-Post}

-- The process at the address holds the value under the key.
abbrev pub Holds : String → Value → Cluster → String → Type 0
Holds key v c a = (n : ChordNode) × (c.nodes a ≡ some n) × (Dict.lookup key n.data_store ≡ some v)

-- No process loses the value under any key.
abbrev pub Keeps : Value → Cluster → Cluster → Type 0
Keeps v c d = (key a : String) → Holds key v c a → Holds key v d a

pub Keeps-trans : (v : Value) (c d e : Cluster) → Keeps v c d → Keeps v d e → Keeps v c e
Keeps-trans v c d e first rest key a h = rest key a (first key a h)

pub Keeps-calls : (v : Value) (c : Cluster) (k : ℕ) → Keeps v c (record c { calls = k })
Keeps-calls v c k key a h = h

-- The ends of an action that keeps the value.
abbrev pub Ends :
    {A : Type 0}
    → Value
    → (Error → Type 0)
    → (A → Cluster → Type 0)
    → Cluster
    → Result A × Cluster
    → Type 0
Ends v E Q c out = Post (Keeps v) (Keeps-trans v) E Q c out

pub lookup-put :
    (k key : String) (v : Value) (n : ChordNode)
    → Dict.lookup k (Node.put key v n).data_store
      ≡ (if str_eq key k then some v else Dict.lookup k n.data_store)
unfolding Node.put
lookup-put k key v n = elim (Bool-cases n.persistent) [
  | inl kept ↦ rw kept (simp dict_laws)
  | inr lost ↦ rw lost (simp dict_laws)
]

pub put-Holds :
    (address key : String) (v : Value) (n : ChordNode) (c : Cluster)
    → Holds key v (set_node address (Node.put key v n) c) address
put-Holds address key v n c = (
  Node.put key v n,
  set_node_self address _ c,
  lookup-put key key v n ∙ rw (str_eq_refl key) refl,
)

-- A write of the value loses it nowhere.
pub put-Keeps :
    (address key : String) (v : Value) (n : ChordNode) (c : Cluster)
    → c.nodes address ≡ some n
    → Keeps v c (set_node address (Node.put key v n) c)
put-Keeps address key v n c live k a (o, at, held) = elim (Bool-cases (str_eq a address)) [
  | inr other ↦ (o, set_node_other address _ c a other ∙ at, held)
  | inl same ↦
      let here : a ≡ address = (eq_iff a address).0 same in
      let found : some o ≡ some n = sym at ∙ ap c.nodes here ∙ live in
      let e : o ≡ n = cc in
      let old : Dict.lookup k n.data_store ≡ some v =
        ap (λ (m : ChordNode). Dict.lookup k m.data_store) (sym e) ∙ held in
      (
        Node.put key v n,
        ap (set_node address (Node.put key v n) c).nodes here ∙ set_node_self address _ c,
        lookup-put k key v n ∙ either old,
      )
]
  where
    either :
        Dict.lookup k n.data_store ≡ some v
        → (if str_eq key k then some v else Dict.lookup k n.data_store) ≡ some v
    either old = ground arith

-- A replica handler that stores the value, delivered or not.
pub store_at-Ends :
    (world : World) (address key : String) (v : Value) (c : Cluster)
    → Ends v IsCaught
        (λ _ d. Holds key v d address)
        c
        (request world address (local address (λ n. (tt, Node.put key v n))) c)
store_at-Ends world address key v =
    request-Post (Keeps v) (Keeps-trans v) (Keeps-calls v) world address
      (local address (λ n. (tt, Node.put key v n))) (λ _ d. Holds key v d address)
      (λ n c live. (put-Keeps address key v n c live, put-Holds address key v n c))

-- None where the process at the replica's address holds the value.
abbrev pub Reported : String → Value → NodeRef → Option Error → Cluster → Type 0
Reported key v replica none d = Holds key v d replica.address
Reported key v replica (some e) d = Unit

abbrev pub Never : Error → Type 0
Never e = ⊥

-- An attempt whose error is caught.
pub caught-Ends :
    (key : String) (v : Value) (replica : NodeRef) (body : Action Unit) (c : Cluster)
    → Ends v IsCaught (λ _ d. Holds key v d replica.address) c (body c)
    → Ends v Never (Reported key v replica) c (caught body c)
unfolding caught
caught-Ends key v replica body c ends =
    Post-handle (Keeps v) (Keeps-trans v) Never (Reported key v replica) c ((body >> pure none) c).0
      ((body >> pure none) c).1 (λ e. pure (some e))
      (Post-and_then (Keeps v) (Keeps-trans v) IsCaught (λ _ d. Holds key v d replica.address)
        (Reported key v replica) c (body c).0 (body c).1 (λ _. pure none) ends
        (λ _ q. ((λ k a h. h), q)))
      (λ e. ((λ k a h. h), tt))
