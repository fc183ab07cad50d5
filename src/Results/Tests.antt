-- ===== src/Results/Tests.antt =====
-- A result of one task in the ring of two processes.
use distributed_chord_infras.Network.{delivered, dropped, World, Cluster, ok}
use distributed_chord_infras.Results.{ResultInput, get_result, replicate_result}
use distributed_chord_infras.Common.{
  String, if◌then◌else◌, some, ℕ, none, suc, ◌%◌, ◌≡◌, ◌==◌, true, false, [],
}
use distributed_chord_infras.Lookup.Samples.{pair}
use distributed_chord_infras.Records.Dynamic.{Json}
use distributed_chord_infras.Replication.Held.{Keeps}
use distributed_chord_infras.Results.Reads.{get_result-IsQuiet}
use distributed_chord_infras.Records.{NodeRef, ResultRecord, Value}
use distributed_chord_infras.Replication.{Replicated}
use distributed_chord_infras.Replication.Write.{IsTargets, Reports}
use distributed_chord_infras.Results.Reports.{replicate_result-Holds}

abbrev wanted : ResultInput
wanted = record {
  task_id = "a";
  task_type = "SCRIPT";
  path = some "job.py";
  script = none;
  worker_id = "w";
  assigned_by = "user";
  status = "PENDING";
  result = Json.null;
  attempt_count = 0;
  max_attempts = 3;
  last_failure_reason = none;
  retry_on_failure = true;
  recovery_history = none;
  recovery_status = none;
  retry_at = none;
  timed_out = false;
}

-- The identifier of a key is the number of its characters.
abbrev digest : String → ℕ
digest String.[] = 0
digest (String.◌∷◌ c s) = suc (digest s)

-- Every third call is lost.
abbrev lossy : World
lossy call address = if call % 3 == 1 then dropped else delivered

get_result-IsQuiet_example : (get_result digest 256 lossy "h:1" 3 "a" pair).1.nodes ≡ pair.nodes
get_result-IsQuiet_example = get_result-IsQuiet digest 256 lossy "h:1" 3 "a" pair

abbrev one : NodeRef
one = record { id = 10; address = "h:1" }

abbrev sample : ResultRecord
sample = record {
  schema_version = 1;
  task_id = "a";
  task_type = "SCRIPT";
  path = "job.py";
  script = "";
  status = "PENDING";
  worker_id = "w";
  assigned_by = "user";
  result = Json.null;
  worker_result = none;
  created_at = 1;
  updated_at = 1;
  attempt_count = some 1;
  max_attempts = some 3;
  last_failure_reason = none;
  retry_on_failure = some false;
  recovery_history = [];
  recovery_status = none;
  retry_at = none;
  timed_out = false;
}

replicate_result-Holds_example :
    (out : Replicated) × (d : Cluster) × (replicate_result digest 3 lossy "h:1" 3 "a" sample one
        pair
      ≡ (ok out, d))
    × Keeps (Value.result_details sample) pair d
    × IsTargets lossy pair 3 one out.replica_targets
    × Reports "result:a" (Value.result_details sample) 3 out d
replicate_result-Holds_example = replicate_result-Holds digest 3 lossy "h:1" pair 3 "a" sample one
