-- ===== src/Node/Laws.antt =====
-- What the methods of `ChordNode` in chord/node.py guarantee about one node.
use distributed_chord_infras.Node
use distributed_chord_infras.Common.Dict
use distributed_chord_infras.Node.{ChordNode, save_to_disk, stored}
use distributed_chord_infras.Records.{NodeRef, Value}
use distributed_chord_infras.Common.{
  String, ℕ, ◌≡◌, some, true, ◌<◌, arith, ◌^◌, ◌≢◌, ◌⊎◌, ◌≤◌, false, Bool-cases, inl, inr, refl,
  Option-cases, ◌∙◌, ap,
}
use distributed_chord_infras.Common.Dict.{Dict}
use distributed_chord_infras.Ring.{m, clockwise, in_range}
use distributed_chord_infras.Ring.Interval.{in_range_open}
use distributed_chord_infras.Records.Dynamic.{Json}

further :
    (r p n : ℕ)
    → r < 2 ^ m
    → p < 2 ^ m
    → n < 2 ^ m
    → p ≢ n
    → in_range r p n false ≡ false
    → (r ≡ n) ⊎ (clockwise p n ≤ clockwise r n)
unfolding in_range
further r p n hr hp hn ne beyond = ground arith

-- A candidate strictly between the predecessor and the node becomes the predecessor and is nearer
-- to the node; any other candidate leaves the node as it is.
pub notify_nearer :
    (candidate p : NodeRef) (n : ChordNode)
    → n.predecessor ≡ some p
    → candidate.id < 2 ^ m
    → p.id < 2 ^ m
    → n.node_id < 2 ^ m
    → p.id ≢ n.node_id
    → ((Node.notify candidate n ≡ record n { predecessor = some candidate })
        × (clockwise candidate.id n.node_id < clockwise p.id n.node_id))
      ⊎ ((Node.notify candidate n ≡ n)
          × ((candidate.id ≡ n.node_id)
              ⊎ (clockwise p.id n.node_id ≤ clockwise candidate.id n.node_id)))
unfolding Node.notify
notify_nearer r p n pred hr hp hn ne = elim (Bool-cases (in_range r.id p.id n.node_id false)) [
  | inl between ↦
      let way = (in_range_open r.id p.id n.node_id hr hp hn ne).0 between in
      inl (rw pred (rw between refl), omega arith)
  | inr beyond ↦ inr (rw pred (rw beyond refl), further r.id p.id n.node_id hr hp hn ne beyond)
]

-- The file of a node that can write holds the store.
abbrev pub IsSaved : ChordNode → Type 0
IsSaved n = (n.persistent ≡ true) × (n.snapshot ≡ some n.data_store)

-- A value is null, or `get` gives it back.
pub null-cases : (v : Value) → (v ≡ Value.other Json.null) ⊎ (stored (some v) ≡ some v)
null-cases (Value.other Json.null) = inl refl
null-cases (Value.other (Json.boolean b)) = inr refl
null-cases (Value.other (Json.integer n)) = inr refl
null-cases (Value.other (Json.text s)) = inr refl
null-cases (Value.other (Json.array s)) = inr refl
null-cases (Value.other (Json.object s)) = inr refl
null-cases (Value.task t) = inr refl
null-cases (Value.result_details r) = inr refl
null-cases (Value.worker_assignment w) = inr refl
null-cases (Value.job j) = inr refl

-- What a deletion does, by what is stored under the key.
pub delete-cases :
    (key : String) (n : ChordNode)
    → (Node.delete key n ≡ (false, n))
      ⊎ ((Dict.lookup key n.data_store ≡ some (Value.other Json.null))
          × (Node.delete key n ≡ (false, record n { data_store = Dict.remove key n.data_store })))
      ⊎ (Node.delete key n
          ≡ (true, save_to_disk (record n { data_store = Dict.remove key n.data_store })))
unfolding Node.delete
delete-cases key n = elim (Option-cases (Dict.lookup key n.data_store)) [
  | inl gone ↦ inl (rw (gone, Node.delete) refl)
  | inr (v, at) ↦ elim (null-cases v) [
    | inl null ↦ let at' = at ∙ ap (λ x. some x) null in inr (inl (at', rw (at', Node.delete) refl))
    | inr value ↦ inr (inr (rw (at, Node.delete) (rw value refl)))
  ]
]

delete-IsSaved :
    (key : String) (n : ChordNode)
    → IsSaved n
    → Dict.lookup key n.data_store ≢ some (Value.other Json.null)
    → IsSaved (Node.delete key n).1
unfolding save_to_disk
delete-IsSaved key n saved present = elim (delete-cases key n) [
  | inl e ↦ rw e saved
  | inr (inl (at, e)) ↦ absurd (present at)
  | inr (inr e) ↦ rw e (ground (arith, saved))
]

-- `put` and `bulk_put` keep the file equal to the store, `delete` does so for a key under which no
-- null is stored, and a process that starts from the file of such a node has the node's store.
pub IsSaved-recovers :
    (digest : String → ℕ) (key : String) (value : Value) (items : Dict Value) (n : ChordNode)
    → IsSaved n
    → Dict.lookup key n.data_store ≢ some (Value.other Json.null)
    → IsSaved (Node.put key value n)
      × IsSaved (Node.delete key n).1
      × IsSaved (Node.bulk_put items n)
      × ((Node.new_node digest n.address (some n.node_id) n.persistent n.snapshot).data_store
          ≡ n.data_store)
unfolding Node.put Node.bulk_put Node.new_node
IsSaved-recovers digest key value items n saved present =
    (ground arith, delete-IsSaved key n saved present, ground arith, ground arith)
