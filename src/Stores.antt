-- ===== src/Stores.antt =====
-- The calls that chord/recovery.py and the endpoints of chord/server.py make of the result service
-- and of the assignment service, over any state `S`, and the implementation by the processes.
pub mod Values
pub mod Kept
pub mod Services
pub mod Lists
use distributed_chord_infras.Results
use distributed_chord_infras.Assignments
use distributed_chord_infras.Common.Dict.{Dict}
use distributed_chord_infras.Common.{String, ℕ, Option, List, [], some, none}
use distributed_chord_infras.Network.{Result, World, Cluster, ok, err}
use distributed_chord_infras.Node.{ChordNode}
use distributed_chord_infras.Records.{ResultRecord, Value}

pub record Stores (S : Type 0) : Type 0 where
  pub get : String → S → Result (Option ResultRecord) × S
  pub put : String → ResultRecord → S → Result Unit × S
  pub delete : String → S → Result Unit × S
  pub assigned : String → S → Result (List String) × S
  pub append : (worker_id task_id : String) (now : ℕ) → S → Result Unit × S
  pub unassign : (worker_id task_id : String) (now : ℕ) → S → Result Unit × S
  pub local_values : S → Dict Value

-- The result, where only an exception matters.
abbrev pub ignored : {A : Type 0} → Result A × Cluster → Result Unit × Cluster
ignored (ok a, c) = (ok tt, c)
ignored (err e, c) = (err e, c)

abbrev pub data_of : Option ChordNode → Dict Value
data_of none = []
data_of (some n) = n.data_store

-- Both services in the process at `self`, with their replication.
unfoldable pub chord_stores : (String → ℕ) → ℕ → World → String → ℕ → Stores Cluster
chord_stores digest fuel world self k = record {
  get = Results.get_result digest fuel world self k;
  put = λ task_id r c. ignored (Results.put_result digest fuel world self k task_id r c);
  delete = λ task_id c. ignored (Results.delete_result digest fuel world self k task_id c);
  assigned = Assignments.get digest fuel world k self;
  append = λ w t now c. ignored (Assignments.append digest fuel world k self w t now c);
  unassign = λ w t now c. ignored (Assignments.remove digest fuel world k self w t now c);
  local_values = λ c. data_of (c.nodes self);
}
