-- ===== src/Recovery/Scan.antt =====
-- The detection methods and the scan of `class RecoveryManager` in chord/recovery.py.
use distributed_chord_infras.Common.{map}
use Prim.Native.String.{◌++◌ as text_append}
use distributed_chord_infras.Registry
use distributed_chord_infras.Common.{
  String, ℕ, List, Option, filter, if◌then◌else◌, some, none, not, ◌∷◌, [],
}
use distributed_chord_infras.Records.{ResultRecord}
use distributed_chord_infras.Registry.{WorkerRegistry, get_or, Floats}
use distributed_chord_infras.Network.{Result, ok, Error, err}
use distributed_chord_infras.Stores.{Stores}
use distributed_chord_infras.Recovery.Manager.{
  Manager, emit_event, attempt_recovery, found, safe_put,
}
use distributed_chord_infras.Recovery.{
  is_due, is_failed, is_stuck, is_timed_out, result_records, is_unfinished,
}

module _ {S : Type 0} (stores : Stores S) (floats : Floats)
    (on_no_workers : Option (S → Option String × S)) (describe : Error → String) where
  abbrev attempt : String → Option String → ℕ → Manager S → Manager S
  attempt = attempt_recovery stores floats on_no_workers describe

  abbrev save : ResultRecord → Manager S → Manager S
  save = safe_put stores floats on_no_workers describe

  -- The loops over tasks and records: each attempt ends before the next one begins.
  unfoldable pub attempt_each : Option String → ℕ → List ResultRecord → Manager S → Manager S
  attempt_each failure_type now [] m = m
  attempt_each failure_type now (r ∷ rs) m =
      attempt_each failure_type now rs (attempt r.task_id failure_type now m)

  -- A task of a worker that is gone.
  abbrev pub crashed : String → String → ℕ → Option ResultRecord → Manager S → Manager S
  crashed worker_id task_id now none m = m
  crashed worker_id task_id now (some r) m =
      if is_unfinished r
      then attempt r.task_id (some "worker_crash") now (
          emit_event "worker_crash" task_id worker_id
            (text_append "Worker " (text_append worker_id " crashed")) now m)
      else m

  unfoldable pub crashed_tasks : String → ℕ → List String → Manager S → Manager S
  unfolding emit_event is_unfinished
  crashed_tasks worker_id now [] m = m
  crashed_tasks worker_id now (t ∷ ts) m =
      let (out, s) = stores.get t m.store in
      crashed_tasks worker_id now ts (crashed worker_id t now (found out) (record m { store = s }))

  -- An exception of `assign_svc.get` ends the scan.
  unfoldable pub crashed_workers : ℕ → List String → Manager S → Result Unit × Manager S
  unfolding crashed_tasks
  crashed_workers now [] m = (ok tt, m)
  crashed_workers now (w ∷ ws) m =
      let (out, s) = stores.assigned w m.store in
      elim out [
        | ok ts ↦ crashed_workers now ws (crashed_tasks w now ts (record m { store = s }))
        | err e ↦ (err e, record m { store = s })
      ]

  -- `_detect_worker_crashes`: the workers seen that are not live, here by name.
  unfoldable pub detect_worker_crashes : ℕ → Manager S → Result Unit × Manager S
  unfolding crashed_workers
  detect_worker_crashes now m =
      crashed_workers now
        (filter (λ w. not (Registry.is_live w now m.registry))
          (map (λ e. e.0) (Registry.all_workers now m.registry)))
        m

  -- `_all_ht1_records`, of the process itself.
  unfoldable pub all_ht1_records : Manager S → List ResultRecord
  all_ht1_records m = result_records (stores.local_values m.store)

  -- `_detect_timed_out_tasks`, `_detect_failed_tasks` and `_detect_stuck_tasks`
  unfoldable pub detect_timed_out_tasks : ℕ → Manager S → Manager S
  unfolding attempt_each all_ht1_records
  detect_timed_out_tasks now m =
      attempt_each (some "task_timeout") now (filter is_timed_out (all_ht1_records m)) m

  unfoldable pub detect_failed_tasks : ℕ → Manager S → Manager S
  unfolding attempt_each all_ht1_records
  detect_failed_tasks now m =
      attempt_each (some "task_failure") now (filter is_failed (all_ht1_records m)) m

  unfoldable pub detect_stuck_tasks : ℕ → Manager S → Manager S
  unfolding attempt_each all_ht1_records
  detect_stuck_tasks now m =
      attempt_each (some "worker_crash") now
        (filter (λ r. is_stuck (Registry.is_live r.worker_id now m.registry) r) (all_ht1_records m))
        m

  -- `_retry_waiting_tasks`: the record stops waiting before the attempt. The field
  -- `last_failure_reason` is in every result record, so `get` gives its value, None included.
  unfoldable pub retry_each : ℕ → List ResultRecord → Manager S → Manager S
  retry_each now [] m = m
  retry_each now (r ∷ rs) m = retry_each now rs (
      attempt r.task_id r.last_failure_reason now
        (save (record r { recovery_status = none; retry_at = none; updated_at = now }) m))

  unfoldable pub retry_waiting_tasks : ℕ → Manager S → Manager S
  unfolding retry_each all_ht1_records
  retry_waiting_tasks now m = retry_each now (filter (is_due now) (all_ht1_records m)) m

  -- `_scan`
  unfoldable pub scan : ℕ → Manager S → Result Unit × Manager S
  unfolding detect_worker_crashes detect_timed_out_tasks detect_failed_tasks detect_stuck_tasks
      retry_waiting_tasks
  scan now m =
      let (out, m') = detect_worker_crashes now m in
      elim out [
        | err e ↦ (err e, m')
        | ok _ ↦ (
          ok tt,
          retry_waiting_tasks now
              (detect_stuck_tasks now (detect_failed_tasks now (detect_timed_out_tasks now m'))),
        )
      ]

  -- `trigger`, and a round of `_recovery_loop`: an exception is logged.
  unfoldable pub trigger : ℕ → Manager S → Manager S
  unfolding scan
  trigger now m = (scan now m).1
