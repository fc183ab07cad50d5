-- ===== src/Schema/Tests.antt =====
-- One task record, its updates, and its key.
use distributed_chord_infras.Records.{TaskRecord}
use distributed_chord_infras.Schema.{update_task_record}
use distributed_chord_infras.Schema.Laws.{IsValid, update_task_record-IsValid}
use distributed_chord_infras.Records.Dynamic.{Json, pos}
use distributed_chord_infras.Common.{[], ◌∷◌, ◌≡◌, ◌+◌, false, refl}

abbrev sample : TaskRecord
sample = record {
  schema_version = 1;
  task_id = "t";
  job_id = "j";
  type = "train";
  payload = Json.object "";
  priority = Json.integer (pos 0);
  status = "REGISTERED";
  result = Json.null;
  error = Json.null;
  created_at = 3;
  updated_at = 3;
  version = 1;
  deleted = false;
  placement = record {
    primary_node = record { id = 10; address = "h:1" };
    replication_factor = 3;
    replica_nodes = [];
  };
}

abbrev cancelled : TaskRecord
cancelled = record sample { status = "CANCELLED"; updated_at = 4; version = 2 }

update_task_record-IsValid_example :
    IsValid cancelled
    × (cancelled.version ≡ sample.version + 1)
    × (cancelled.updated_at ≡ 4)
    × (cancelled.task_id ≡ sample.task_id)
    × (cancelled.job_id ≡ sample.job_id)
    × (cancelled.type ≡ sample.type)
    × (cancelled.created_at ≡ sample.created_at)
    × (cancelled.placement ≡ sample.placement)
unfolding update_task_record
update_task_record-IsValid_example =
    update_task_record-IsValid sample cancelled (("status", Json.text "CANCELLED") ∷ []) 4 refl
