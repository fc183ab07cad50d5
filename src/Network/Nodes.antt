-- ===== src/Network/Nodes.antt =====
-- Reading a process after one was written.
use mathlib.Core.Path.{fun_ext}
use distributed_chord_infras.Common.{
  String, str_eq, ◌≡◌, false, some, refl, if◌then◌else◌, Bool-cases, inl, sym, ap, eq_iff, ◌∙◌, inr,
}
use distributed_chord_infras.Node.{ChordNode}
use distributed_chord_infras.Network.{Cluster, set_node}
use distributed_chord_infras.Common.Dict.{str_eq_refl}

module _ (address : String) (n : ChordNode) (c : Cluster) where
  pub set_node_self : (set_node address n c).nodes address ≡ some n
  unfolding set_node
  set_node_self = rw (str_eq_refl address) refl

  pub set_node_other :
      (b : String) → str_eq b address ≡ false → (set_node address n c).nodes b ≡ c.nodes b
  unfolding set_node
  set_node_other b other = rw other refl

  -- Writing back what is there changes nothing.
  pub set_node_same : c.nodes address ≡ some n → set_node address n c ≡ c
  unfolding set_node
  set_node_same live = λ i. record { nodes = fun_ext same i; calls = c.calls }
    where
      same : (b : String) → (if str_eq b address then some n else c.nodes b) ≡ c.nodes b
      same b = elim (Bool-cases (str_eq b address)) [
        | inl here ↦ rw here (sym (ap c.nodes ((eq_iff b address).0 here) ∙ live))
        | inr there ↦ rw there refl
      ]

-- Of two writes to one process the later stays.
pub set_node_twice :
    (address : String) (n o : ChordNode) (c : Cluster)
    → set_node address n (set_node address o c) ≡ set_node address n c
unfolding set_node
set_node_twice address n o c = λ i. record { nodes = fun_ext same i; calls = c.calls }
  where
    same :
        (b : String)
        → (if str_eq b address then some n else if str_eq b address then some o else c.nodes b)
          ≡ (if str_eq b address then some n else c.nodes b)
    same b = elim (Bool-cases (str_eq b address)) [
      | inl here ↦ rw here refl
      | inr there ↦ rw there refl
    ]
