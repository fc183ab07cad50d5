-- ===== src/Node.antt =====
-- `class ChordNode` of chord/node.py: the state of one node and the methods that make no remote
-- call. The disk snapshot is a field: `snapshot` is the file's content, `persistent` tells that the
-- path is set and can be written. The list of M fingers is a function of the index; an entry is
-- made only by `_init_fingers`, which fills it, so no entry holds None.
pub mod Laws
mod Tests
use distributed_chord_infras.Common.Dict
use distributed_chord_infras.Common.Dict.{Dict}
use distributed_chord_infras.Common.{
  ℕ, zero, suc, ◌+◌, ◌%◌, ◌^◌, String, Bool, true, false, ◌||◌, Option, none, some, List, [], ◌∷◌,
  ◌==◌, str_eq, if◌then◌else◌, map,
}
use distributed_chord_infras.Ring.{m, sha1_id, in_range}
use distributed_chord_infras.Records.{NodeRef, Value}
use distributed_chord_infras.Records.Dynamic.{Json}

pub record FingerEntry : Type 0 where
  pub start : ℕ
  pub node_id : ℕ
  pub node_address : String

pub record ChordNode : Type 0 where
  pub address : String
  pub node_id : ℕ
  pub predecessor : Option NodeRef
  pub fingers : ℕ → FingerEntry
  pub data_store : Dict Value
  pub jobs_completed : ℕ
  pub jobs_failed : ℕ
  pub pred_fail_count : ℕ
  pub persistent : Bool
  pub snapshot : Option (Dict Value)

abbrev pub self_ref : ChordNode → NodeRef
self_ref n = record { id = n.node_id; address = n.address }

abbrev pub finger_ref : FingerEntry → NodeRef
finger_ref f = record { id = f.node_id; address = f.node_address }

-- `_init_fingers`
unfoldable pub init_fingers : String → ℕ → ℕ → FingerEntry
init_fingers address node_id i = record {
  start = (node_id + 2 ^ i) % 2 ^ m;
  node_id = node_id;
  node_address = address;
}

-- `_load_from_disk`
unfoldable pub load_from_disk : ChordNode → ChordNode
load_from_disk n =
    if n.persistent
    then elim n.snapshot [ none ↦ n | some stored ↦ record n { data_store = stored } ]
    else n

-- `_save_to_disk`: a failed write is logged and leaves the file as it was.
unfoldable pub save_to_disk : ChordNode → ChordNode
save_to_disk n = if n.persistent then record n { snapshot = some n.data_store } else n

-- `__init__`, with the disk that the process finds.
unfoldable pub new_node : (String → ℕ) → String → Option ℕ → Bool → Option (Dict Value) → ChordNode
unfolding init_fingers load_from_disk
new_node digest address given persistent snapshot =
    let node_id : ℕ = elim given [ none ↦ sha1_id digest address | some n ↦ n ] in
    load_from_disk (record {
      address = address;
      node_id = node_id;
      predecessor = none;
      fingers = init_fingers address node_id;
      data_store = [];
      jobs_completed = 0;
      jobs_failed = 0;
      pred_fail_count = 0;
      persistent = persistent;
      snapshot = snapshot;
    })

-- The property `successor`, and its setter.
unfoldable pub successor : ChordNode → NodeRef
successor n = finger_ref (n.fingers 0)

-- `fingers[i].node_id, fingers[i].node_address = ...`
unfoldable pub set_finger : ℕ → NodeRef → ChordNode → ChordNode
set_finger i r n = record n {
  fingers = λ j.
      if j == i
      then record { start = (n.fingers j).start; node_id = r.id; node_address = r.address }
      else n.fingers j;
}

unfoldable pub set_successor : NodeRef → ChordNode → ChordNode
unfolding set_finger
set_successor r n = set_finger 0 r n

-- The loop of `_closest_preceding_node` over the fingers below an index, downwards.
unfoldable pub closest_below : ℕ → ChordNode → ℕ → NodeRef
closest_below zero n key_id = self_ref n
closest_below (suc i) n key_id =
    let rest = closest_below i n key_id in
    if in_range (n.fingers i).node_id n.node_id key_id false then finger_ref (n.fingers i) else rest

-- `_closest_preceding_node`
unfoldable pub closest_preceding_node : ChordNode → ℕ → NodeRef
unfolding closest_below
closest_preceding_node n key_id = closest_below m n key_id

-- `notify`
unfoldable pub notify : NodeRef → ChordNode → ChordNode
notify candidate n = elim n.predecessor [
  | none ↦ record n { predecessor = some candidate }
  | some p ↦
      if in_range candidate.id p.id n.node_id false
      then record n { predecessor = some candidate }
      else n
]

-- `put`, `get`, `delete` and `bulk_put`
unfoldable pub put : String → Value → ChordNode → ChordNode
unfolding save_to_disk
put key value n = save_to_disk (record n { data_store = Dict.insert key value n.data_store })

-- `dict.get`: a stored null looks like a missing key.
abbrev pub stored : Option Value → Option Value
stored none = none
stored (some (Value.other Json.null)) = none
stored (some v) = some v

unfoldable pub get : String → ChordNode → Option Value
get key n = stored (Dict.lookup key n.data_store)

-- `pop(key, None) is not None`: a stored null is taken out, but it counts as not removed and the
-- file is not written.
unfoldable pub delete : String → ChordNode → Bool × ChordNode
unfolding save_to_disk
delete key n = elim (Dict.lookup key n.data_store) [
  | none ↦ (false, n)
  | some v ↦
      let popped = record n { data_store = Dict.remove key n.data_store } in
      elim (stored (some v)) [ none ↦ (false, popped) | some w ↦ (true, save_to_disk popped) ]
]

unfoldable pub bulk_put : Dict Value → ChordNode → ChordNode
unfolding save_to_disk
bulk_put items n = save_to_disk (record n { data_store = Dict.update items n.data_store })

-- `status in ("pending", "claimed", "running")`, which `ACTIVE_STATUSES` of chord/job.py lists too.
abbrev pub is_active : String → Bool
is_active s = str_eq s "pending" || str_eq s "claimed" || str_eq s "running"

unfoldable pub counts : Value → Bool
counts (Value.job j) = is_active j.status
counts (Value.task t) = is_active t.status
counts (Value.result_details r) = is_active r.status
counts _ = false

unfoldable pub queue_depth : Dict Value → ℕ
unfolding counts
queue_depth [] = 0
queue_depth ((k, v) ∷ d) = (if counts v then 1 else 0) + queue_depth d

pub record Metrics : Type 0 where
  pub node_id : ℕ
  pub address : String
  pub queue_depth : ℕ
  pub jobs_completed : ℕ
  pub jobs_failed : ℕ

-- `metrics`
unfoldable pub metrics : ChordNode → Metrics
unfolding queue_depth
metrics n = record {
  node_id = n.node_id;
  address = n.address;
  queue_depth = queue_depth n.data_store;
  jobs_completed = n.jobs_completed;
  jobs_failed = n.jobs_failed;
}

pub record State : Type 0 where
  pub node_id : ℕ
  pub address : String
  pub successor : NodeRef
  pub predecessor : Option NodeRef
  pub fingers : ℕ → FingerEntry
  pub data_keys : List String

-- `state`
unfoldable pub state : ChordNode → State
unfolding successor
state n = record {
  node_id = n.node_id;
  address = n.address;
  successor = successor n;
  predecessor = n.predecessor;
  fingers = n.fingers;
  data_keys = map (λ e. e.0) n.data_store;
}
