-- ===== src/Frontend.antt =====
-- The endpoint /createTask of chord/server.py, over any result and assignment service. A request is given by its fields; an
-- absent text is empty. `now` is the time of the request. The texts of the responses, the logs, the
-- metrics and the test hook PHASE3_FORCE_FAIL are left out.
pub mod Completion
pub mod Accepted
mod Tests
use distributed_chord_infras.Retry.{Outcome}
use distributed_chord_infras.Registry
use distributed_chord_infras.Results
use distributed_chord_infras.Common.{
  String, ℕ, Option, none, false, List, [], ◌∷◌, Bool, if◌then◌else◌, some, elem, not, ◌&&◌, ◌||◌,
  str_eq,
}
use distributed_chord_infras.Network.{Error, Result, ok, err}
use distributed_chord_infras.Results.{ResultInput, build_result_record}
use distributed_chord_infras.Registry.Ranking.{score_all_workers}
use distributed_chord_infras.Registry.{WorkerRegistry, Floats}
use distributed_chord_infras.Retry.{
  Attempt, Run, with_timeout_and_retry, backoff_multiplier, max_retries, initial_backoff_ms,
}
use distributed_chord_infras.Records.Dynamic.{Json}
use distributed_chord_infras.Stores.{Stores}
use distributed_chord_infras.Records.{ResultRecord}
use distributed_chord_infras.Text.{is_empty}

-- What the endpoints keep besides the processes' stores.
pub record Frontend (S : Type 0) : Type 0 where
  pub store : S
  pub registry : WorkerRegistry

-- `{"task_id": ..., "task_details": {...}, "worker_id": ...}`; none where the details are no object.
pub record Details : Type 0 where
  pub task_type : String
  pub path : Option String
  pub script : Option String

pub data Created : Type 0 where
  rejected : Created
  exists_already : (status worker_id assigned_by : String) → Created
  no_workers : Created
  not_persisted : Created
  not_assigned : Created
  accepted : (worker_id assigned_by : String) → Created

-- The record of a new task.
abbrev pub new_input : String → Details → String → String → ResultInput
new_input task_id details worker_id assigned_by = record {
  task_id = task_id;
  task_type = details.task_type;
  path = details.path;
  script = details.script;
  worker_id = worker_id;
  assigned_by = assigned_by;
  status = "PENDING";
  result = Json.null;
  attempt_count = 0;
  max_attempts = 3;
  last_failure_reason = none;
  retry_on_failure = false;
  recovery_history = none;
  recovery_status = none;
  retry_at = none;
  timed_out = false;
}

-- An operation that the retry helper calls.
abbrev pub tried : {A S : Type 0} → Result A × S → Attempt A × S
tried (ok a, s) = (Attempt.done a, s)
tried (err e, s) = (Attempt.failed e, s)

abbrev pub best {ℓ} : {F : Type ℓ} → List (String × F) → Option String
best [] = none
best ((w, s) ∷ l) = some w

-- `auto_spawn` starts a worker and waits for its heartbeat, where it is enabled; its result is the
-- worker's name where it was started.
module _ {S : Type 0} (stores : Stores S) (floats : Floats)
    (auto_spawn : Option (Frontend S → Option String × Frontend S)) where
  abbrev pub with_store : Frontend S → S → Frontend S
  with_store f s = record f { store = s }

  -- The worker in turn where the ranking names none.
  unfoldable pub ranked_or_next : ℕ → Frontend S → Option String × Frontend S
  ranked_or_next now f = elim (best (score_all_workers floats now f.registry)) [
    | some w ↦ (some w, f)
    | none ↦
        let (w, r) = Registry.round_robin_assign now f.registry in (w, record f { registry = r })
  ]

  abbrev pub rank_again : ℕ → Option String × Frontend S → Option String × Frontend S
  rank_again now (none, f) = (none, f)
  rank_again now (some w, f) = ranked_or_next now f

  abbrev pub spawn_if_none :
      ℕ
      → Option (Frontend S → Option String × Frontend S)
      → Option String × Frontend S
      → Option String × Frontend S
  spawn_if_none now o (some w, f) = (some w, f)
  spawn_if_none now none (none, f) = (none, f)
  spawn_if_none now (some spawn) (none, f) = rank_again now (spawn f)

  -- Only an attempt to start a worker ends the request for want of one; else the absent worker, the
  -- empty text, is left to step 2.
  abbrev pub noted_load :
      Option (Frontend S → Option String × Frontend S)
      → Option String × Frontend S
      → Option (String × String) × Frontend S
  noted_load none (none, f) = (some ("", "frontend"), f)
  noted_load (some spawn) (none, f) = (none, f)
  noted_load o (some w, f) =
      (some (w, "frontend"), record f { registry = Registry.note_assignment w f.registry })

  -- Step 1: the worker, and who chose it.
  unfoldable pub choose_worker : String → ℕ → Frontend S → Option (String × String) × Frontend S
  unfolding ranked_or_next
  choose_worker provided_worker now f =
      if is_empty provided_worker
      then noted_load auto_spawn (spawn_if_none now auto_spawn (ranked_or_next now f))
      else (some (provided_worker, "user"), f)

  -- Steps 3 and 4 with their retries.
  unfoldable pub write_record : String → ResultRecord → S → Run S Unit
  write_record task_id r s =
      with_timeout_and_retry backoff_multiplier (λ t. tried (stores.put task_id r t)) max_retries
        initial_backoff_ms s

  unfoldable pub write_assignment : String → String → ℕ → S → Run S Unit
  write_assignment worker_id task_id now s =
      with_timeout_and_retry backoff_multiplier (λ t. tried (stores.append worker_id task_id now t))
        max_retries initial_backoff_ms s

  -- Step 4: a failure takes the record back, as far as the deletion succeeds.
  abbrev pub after_assignment :
      String → String → String → Run S Unit → Frontend S → Created × Frontend S
  after_assignment task_id worker_id assigned_by (Outcome.returned u, slept, s) f =
      (Created.accepted worker_id assigned_by, with_store f s)
  after_assignment task_id worker_id assigned_by (_, slept, s) f =
      (Created.not_assigned, with_store f (stores.delete task_id s).1)

  abbrev pub after_record :
      String → String → String → ℕ → Run S Unit → Frontend S → Created × Frontend S
  after_record task_id worker_id assigned_by now (Outcome.returned u, slept, s) f =
      after_assignment task_id worker_id assigned_by (write_assignment worker_id task_id now s) f
  after_record task_id worker_id assigned_by now (_, slept, s) f =
      (Created.not_persisted, with_store f s)

  -- Step 2: the record.
  abbrev pub after_build :
      String → String → String → ℕ → Result ResultRecord → Frontend S → Created × Frontend S
  after_build task_id worker_id assigned_by now (err e) f = (Created.rejected, f)
  after_build task_id worker_id assigned_by now (ok r) f =
      after_record task_id worker_id assigned_by now (write_record task_id r f.store) f

  abbrev pub after_choice :
      String → Details → ℕ → Option (String × String) × Frontend S → Created × Frontend S
  after_choice task_id details now (none, f) = (Created.no_workers, f)
  after_choice task_id details now (some (worker_id, assigned_by), f) =
      after_build task_id worker_id assigned_by now
        (build_result_record (new_input task_id details worker_id assigned_by) now) f

  -- Step 0: a task that is there is not made again; a failed read counts as none.
  abbrev pub after_read :
      String
      → Details
      → String
      → ℕ
      → Result (Option ResultRecord) × S
      → Frontend S
      → Created × Frontend S
  after_read task_id details provided_worker now (ok (some r), s) f =
      (Created.exists_already r.status r.worker_id r.assigned_by, with_store f s)
  after_read task_id details provided_worker now (_, s) f =
      after_choice task_id details now (choose_worker provided_worker now (with_store f s))

  -- `create_task_v2`
  unfoldable pub create_task :
      String → Option Details → String → ℕ → Frontend S → Created × Frontend S
  unfolding choose_worker write_record write_assignment
  create_task task_id none provided_worker now f = (Created.rejected, f)
  create_task task_id (some details) provided_worker now f =
      if is_empty task_id || not (elem details.task_type Results.valid_task_types)
      then (Created.rejected, f)
      else after_read task_id details provided_worker now (stores.get task_id f.store) f
