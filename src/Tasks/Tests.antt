-- ===== src/Tasks/Tests.antt =====
-- A query on a node that stores three tasks.
use distributed_chord_infras.Network.{delivered, dropped, World}
use distributed_chord_infras.Tasks.Query.{tasks, query_local_tasks-take}
use distributed_chord_infras.Common.Dict
use distributed_chord_infras.Node.{ChordNode}
use distributed_chord_infras.Common.{
  String, some, ◌∷◌, [], none, false, ◌≡◌, refl, take, max, filter, ℕ, if◌then◌else◌, suc, true,
  ◌%◌, ◌==◌,
}
use distributed_chord_infras.Records.{Value, TaskRecord}
use distributed_chord_infras.Tasks.Query.{query_local_tasks, query_entries, selected}
use distributed_chord_infras.Lookup.Samples.{node, finger, pair}
use distributed_chord_infras.Records.Dynamic.{Json, pos}
use distributed_chord_infras.Tasks.{get_task}
use distributed_chord_infras.Tasks.Reads.{get_task-IsQuiet}

abbrev sample : String → String → TaskRecord
sample task_id status = record {
  schema_version = 1;
  task_id = task_id;
  job_id = "j";
  type = "train";
  payload = Json.object "";
  priority = Json.integer (pos 0);
  status = status;
  result = Json.null;
  error = Json.null;
  created_at = 3;
  updated_at = 3;
  version = 1;
  deleted = false;
  placement = record {
    primary_node = record { id = 10; address = "h:1" };
    replication_factor = 3;
    replica_nodes = [];
  };
}

abbrev stored_tasks : Dict.Dict Value
stored_tasks =
    ("task:a", Value.task (sample "a" "REGISTERED"))
    ∷ ("task:b", Value.task (sample "b" "DELETED"))
    ∷ ("task:c", Value.task (sample "c" "RUNNING"))
    ∷ []

abbrev holder : ChordNode
holder = record (node "h:1" 10 (λ i. finger 10 "h:1")) { data_store = stored_tasks }

query_local_tasks-take_example :
    query_local_tasks (some "j") none false 2 holder
    ≡ take (max 1 2) (filter (selected (some "j") none false) (tasks stored_tasks))
query_local_tasks-take_example = query_local_tasks-take (some "j") none false 2 holder

query_zero : query_local_tasks none none false 0 holder ≡ sample "a" "REGISTERED" ∷ []
unfolding query_local_tasks query_entries
query_zero = refl

-- The identifier of a key is the number of its characters.
abbrev digest : String → ℕ
digest String.[] = 0
digest (String.◌∷◌ c s) = suc (digest s)

-- Every third call is lost.
abbrev lossy : World
lossy call address = if call % 3 == 1 then dropped else delivered

get_task-IsQuiet_example : (get_task digest 256 lossy "h:1" 3 "a" true pair).1.nodes ≡ pair.nodes
get_task-IsQuiet_example = get_task-IsQuiet digest 256 lossy "h:1" 3 "a" true pair
