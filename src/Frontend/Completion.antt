-- ===== src/Frontend/Completion.antt =====
-- The endpoints /getStatus, /internal/results/<id>/complete and /workers/heartbeat of
-- chord/server.py.
use distributed_chord_infras.Registry
use distributed_chord_infras.Common.{
  String, ℕ, Option, none, [], ◌∷◌, Bool, if◌then◌else◌, some, elem, not, ◌&&◌, str_eq,
}
use distributed_chord_infras.Network.{Error, Result, ok, err}
use distributed_chord_infras.Registry.{WorkerRegistry, Floats}
use distributed_chord_infras.Records.Dynamic.{Json}
use distributed_chord_infras.Stores.{Stores}
use distributed_chord_infras.Records.{ResultRecord}
use distributed_chord_infras.Text.{is_empty}
use distributed_chord_infras.Frontend.{Frontend}

pub data Completed : Type 0 where
  bad_status : Completed
  unknown_task : Completed
  write_failed : Error → Completed
  -- The worker from whose list a thread removes the task three seconds later.
  completed : (cleanup : Option String) → Completed

module _ {S : Type 0} (stores : Stores S) where
  -- `get_status_v2`: the record, of which the response has five fields; none is the response 404.
  unfoldable pub get_status : String → Frontend S → Result (Option ResultRecord) × Frontend S
  get_status task_id f = let (out, s) = stores.get task_id f.store in (out, record f { store = s })

  -- `result_complete`, after the read of the record.
  abbrev pub after_write :
      ResultRecord → String → Result Unit × S → Frontend S → Result Completed × Frontend S
  after_write r status (err e, s) f = (ok (Completed.write_failed e), record f { store = s })
  after_write r status (ok u, s) f = (
    ok (
        Completed.completed (
          if not (is_empty r.worker_id) && str_eq status "SUCCESS"
          then some r.worker_id
          else none)),
    record f {
      store = s;
      registry = Registry.record_completion r.worker_id (str_eq status "SUCCESS") f.registry;
    },
  )

  abbrev pub after_lookup :
      String
      → String
      → Json
      → ℕ
      → Result (Option ResultRecord) × S
      → Frontend S
      → Result Completed × Frontend S
  after_lookup task_id status payload now (err e, s) f = (err e, record f { store = s })
  after_lookup task_id status payload now (ok none, s) f =
      (ok Completed.unknown_task, record f { store = s })
  after_lookup task_id status payload now (ok (some r), s) f =
      after_write r status
        (stores.put task_id (record r { status = status; result = payload; updated_at = now }) s)
        (record f { store = s })

  -- An exception of the read is the response 500.
  unfoldable pub result_complete :
      String → String → Json → ℕ → Frontend S → Result Completed × Frontend S
  result_complete task_id status payload now f =
      if elem status ("SUCCESS" ∷ "FAILURE" ∷ [])
      then after_lookup task_id status payload now (stores.get task_id f.store) f
      else (ok Completed.bad_status, f)

  -- The thread that takes a task out of its worker's list; it logs an exception.
  unfoldable pub cleanup : String → String → ℕ → Frontend S → Frontend S
  cleanup worker_id task_id now f = record f {
    store = (stores.unassign worker_id task_id now f.store).1;
  }

-- `workers_heartbeat`: whether another process uses the name. No name is the response 422.
abbrev pub after_heartbeat :
    {S : Type 0} → Result (Option String × WorkerRegistry) → Frontend S → Result Bool × Frontend S
after_heartbeat (err e) f = (err e, f)
after_heartbeat (ok (collision, r)) f = (ok (Registry.is_some collision), record f { registry = r })

unfoldable pub workers_heartbeat :
    {S : Type 0} → String → ℕ → Option ℕ → String → ℕ → Frontend S → Result Bool × Frontend S
workers_heartbeat worker_id pending_tasks timestamp process_token now f =
    after_heartbeat
      (Registry.record_heartbeat worker_id pending_tasks timestamp process_token now f.registry) f
