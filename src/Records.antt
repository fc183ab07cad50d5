-- ===== src/Records.antt =====
-- The JSON objects that the program stores: the task records of storage/schema.py, the result
-- records of storage/result_record.py, the assignment records of storage/worker_assignment.py and
-- the jobs of chord/job.py. A date is a number of seconds; the text of `utc_now_iso` stands for it.
pub mod Dynamic
use distributed_chord_infras.Common.{ℕ, String, Bool, Option, List}
use Dynamic.{Json}

-- A reference to a node, `{"id": ..., "address": ...}`.
pub record NodeRef : Type 0 where
  pub id : ℕ
  pub address : String

pub record Placement : Type 0 where
  pub primary_node : NodeRef
  pub replication_factor : ℕ
  pub replica_nodes : List NodeRef

-- A value under `task:<task_id>`.
pub record TaskRecord : Type 0 where
  pub schema_version : ℕ
  pub task_id : String
  pub job_id : String
  pub type : String
  pub payload : Json
  pub priority : Json
  pub status : String
  pub result : Json
  pub error : Json
  pub created_at : ℕ
  pub updated_at : ℕ
  pub version : ℕ
  pub deleted : Bool
  pub placement : Placement

-- A value under `result:<task_id>`. A field that records of an earlier phase lack is an `Option`.
pub record ResultRecord : Type 0 where
  pub schema_version : ℕ
  pub task_id : String
  pub task_type : String
  pub path : String
  pub script : String
  pub status : String
  pub worker_id : String
  pub assigned_by : String
  pub result : Json
  pub worker_result : Option Json
  pub created_at : ℕ
  pub updated_at : ℕ
  pub attempt_count : Option ℕ
  pub max_attempts : Option ℕ
  pub last_failure_reason : Option String
  pub retry_on_failure : Option Bool
  pub recovery_history : List String
  pub recovery_status : Option String
  pub retry_at : Option ℕ
  pub timed_out : Bool

-- A value under `worker:<worker_id>`.
pub record WorkerRecord : Type 0 where
  pub schema_version : ℕ
  pub worker_id : String
  pub tasks : List String
  pub created_at : ℕ
  pub updated_at : ℕ
  pub version : ℕ

-- A value under `job:<job_id>`.
pub record Job : Type 0 where
  pub job_id : String
  pub type : String
  pub payload : Json
  pub status : String
  pub created_at : ℕ
  pub claimed_by : Option String
  pub started_at : Option ℕ
  pub finished_at : Option ℕ
  pub result : Json
  pub error : Option String
  pub retry_count : Option ℕ

-- What a node stores under a key: an object by its `kind`, a job, or any other value that is not an
-- object with a status. Of the other values the code reads nothing but whether they are null.
pub data Value : Type 0 where
  task : TaskRecord → Value
  result_details : ResultRecord → Value
  worker_assignment : WorkerRecord → Value
  job : Job → Value
  other : Json → Value
