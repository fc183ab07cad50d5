-- ===== src/Stores/Values.antt =====
-- What holds of every value that the processes store, over the calls of the result service in
-- storage/result_service.py.
use distributed_chord_infras.Node
use distributed_chord_infras.Common.Dict
use distributed_chord_infras.Common.Dict.{Dict}
use distributed_chord_infras.Common.{
  String, Option, some, none, [], ◌∷◌, All, Bool-cases, Bool, str_eq, inl, ◌≡◌, inr, subst,
}
use distributed_chord_infras.Records.{Value}
use distributed_chord_infras.Node.{ChordNode, save_to_disk}
use distributed_chord_infras.Transport.Kept.{IsHandling}
use distributed_chord_infras.Network.{set_node, Cluster, local, reads}
use distributed_chord_infras.Records.Dynamic.{Json}
use distributed_chord_infras.Node.Laws.{delete-cases}

module _ {V : Type 0} (Fits : V → Type 0) where
  abbrev pub AllFit : Dict V → Type 0
  AllFit d = All (λ e. Fits e.1) d

  -- The value, where there is one.
  abbrev pub IfThere : Option V → Type 0
  IfThere none = Unit
  IfThere (some v) = Fits v

  lookup-AllFit : (k : String) (d : Dict V) → AllFit d → IfThere (Dict.lookup k d)
  unfolding Dict.lookup
  lookup-AllFit k [] all = tt
  lookup-AllFit k ((j, v) ∷ d) (fits, all) = elim (Bool-cases (str_eq j k)) [
    | inl same ↦ rw same fits
    | inr other ↦ rw other (lookup-AllFit k d all)
  ]

  insert-AllFit : (k : String) (v : V) (d : Dict V) → Fits v → AllFit d → AllFit (Dict.insert k v d)
  unfolding Dict.insert
  insert-AllFit k v [] fits all = (fits, tt)
  insert-AllFit k v ((j, w) ∷ d) fits (first, all) = elim (Bool-cases (str_eq j k)) [
    | inl same ↦ rw same (fits, all)
    | inr other ↦ rw other (first, insert-AllFit k v d fits all)
  ]

  remove-AllFit : (k : String) (d : Dict V) → AllFit d → AllFit (Dict.remove k d)
  unfolding Dict.remove
  remove-AllFit k [] all = tt
  remove-AllFit k ((j, w) ∷ d) (first, all) = elim (Bool-cases (str_eq j k)) [
    | inl same ↦ rw same (remove-AllFit k d all)
    | inr other ↦ rw other (first, remove-AllFit k d all)
  ]

module _ (Fits : Value → Type 0) where
  -- Every process stores only values that fit.
  abbrev pub Stored : (String → Option ChordNode) → Type 0
  Stored nodes = (a : String) (n : ChordNode) → nodes a ≡ some n → AllFit Fits n.data_store

  pub set_node-Stored :
      (a : String) (n : ChordNode) (c : Cluster)
      → AllFit Fits n.data_store
      → Stored c.nodes
      → Stored (set_node a n c).nodes
  unfolding set_node
  set_node-Stored a n c fits all b o at = elim (Bool-cases (str_eq b a)) [
    | inl same ↦
        let found : some n ≡ some o = rw same at at in
        let e : n ≡ o = cc in subst (λ (x : ChordNode). AllFit Fits x.data_store) e fits
    | inr other ↦ let before : c.nodes b ≡ some o = rw other at at in all b o before
  ]

  put-AllFit :
      (k : String) (v : Value) (n : ChordNode)
      → Fits v
      → AllFit Fits n.data_store
      → AllFit Fits (Node.put k v n).data_store
  unfolding Node.put
  put-AllFit k v n fits all = elim (Bool-cases n.persistent) [
    | inl e ↦ rw e (insert-AllFit Fits k v n.data_store fits all)
    | inr e ↦ rw e (insert-AllFit Fits k v n.data_store fits all)
  ]

  delete-AllFit :
      (k : String) (n : ChordNode)
      → AllFit Fits n.data_store
      → AllFit Fits (Node.delete k n).1.data_store
  unfolding save_to_disk
  delete-AllFit k n all = elim (delete-cases k n) [
    | inl e ↦ rw e all
    | inr (inl (at, e)) ↦ rw e (remove-AllFit Fits k n.data_store all)
    | inr (inr e) ↦ elim (Bool-cases n.persistent) [
      | inl kept ↦ rw e (rw kept (remove-AllFit Fits k n.data_store all))
      | inr lost ↦ rw e (rw lost (remove-AllFit Fits k n.data_store all))
    ]
  ]

  pub get-IfThere :
      (k : String) (n : ChordNode) → AllFit Fits n.data_store → IfThere Fits (Node.get k n)
  unfolding Node.get
  get-IfThere k n all = go (Dict.lookup k n.data_store) (lookup-AllFit Fits k n.data_store all)
    where
      go : (o : Option Value) → IfThere Fits o → IfThere Fits (Node.stored o)
      go none fits = tt
      go (some (Value.task t)) fits = fits
      go (some (Value.result_details t)) fits = fits
      go (some (Value.worker_assignment t)) fits = fits
      go (some (Value.job t)) fits = fits
      go (some (Value.other Json.null)) fits = tt
      go (some (Value.other (Json.boolean b))) fits = fits
      go (some (Value.other (Json.integer b))) fits = fits
      go (some (Value.other (Json.text b))) fits = fits
      go (some (Value.other (Json.array b))) fits = fits
      go (some (Value.other (Json.object b))) fits = fits

  abbrev pub Any : {A : Type 0} → A → Type 0
  Any a = Unit

  -- The handlers of a process.
  pub put-IsHandling :
      {A : Type 0} (address k : String) (v : Value) (a : A)
      → Fits v
      → IsHandling Stored (Any {A = A}) address (local address λ n. (a, Node.put k v n))
  put-IsHandling address k v a fits n c live all = (
    set_node-Stored address (Node.put k v n) c (put-AllFit k v n fits (all address n live)) all,
    tt,
  )

  pub delete-IsHandling :
      {A : Type 0} (address k : String) (f : Bool → A)
      → IsHandling Stored
          (Any {A = A})
          address
          (local address λ n. (f (Node.delete k n).0, (Node.delete k n).1))
  delete-IsHandling address k f n c live all = (
    set_node-Stored address (Node.delete k n).1 c (delete-AllFit k n (all address n live)) all,
    tt,
  )

  pub get-IsHandling :
      (address k : String) → IsHandling Stored (IfThere Fits) address (reads (Node.get k))
  get-IsHandling address k n c live all = (all, get-IfThere k n (all address n live))
