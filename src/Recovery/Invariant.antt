-- ===== src/Recovery/Invariant.antt =====
-- What a scan of chord/recovery.py keeps, given that each attempt keeps it.
use distributed_chord_infras.Recovery.Scan.{attempt_each}
use distributed_chord_infras.Registry
use distributed_chord_infras.Registry.{Floats, get_or}
use distributed_chord_infras.Stores.{Stores}
use distributed_chord_infras.Network.{ok, err, Error, Result}
use distributed_chord_infras.Recovery.{
  is_due, result_records, is_failed, is_stuck, is_timed_out, is_unfinished,
}
use distributed_chord_infras.Common.{
  String, ℕ, List, [], ◌∷◌, some, none, Option, All, Bool, filter, Bool-cases, inl, inr, not, map,
}
use distributed_chord_infras.Recovery.Manager.{
  Manager, attempt_recovery, emit_event, found, safe_put,
}
use distributed_chord_infras.Records.{ResultRecord}
use distributed_chord_infras.Recovery.Scan.{
  crashed, crashed_tasks, crashed_workers, retry_each, trigger, scan, detect_worker_crashes,
  detect_timed_out_tasks, detect_failed_tasks, detect_stuck_tasks, retry_waiting_tasks,
  all_ht1_records,
}

All-filter :
    (Good : ResultRecord → Type 0) (p : ResultRecord → Bool) (rs : List ResultRecord)
    → All Good rs
    → All Good (filter p rs)
All-filter Good p [] all = tt
All-filter Good p (r ∷ rs) (good, all) = elim (Bool-cases (p r)) [
  | inl e ↦ rw e (good, All-filter Good p rs all)
  | inr e ↦ rw e (All-filter Good p rs all)
]

-- An invariant of the manager, and what holds of the records that it lists.
pub record IsKept {S : Type 0} (stores : Stores S)
    (attempt : String → Option String → ℕ → Manager S → Manager S) (Good : ResultRecord → Type 0)
    (Inv : Manager S → Type 0) : Type 0 where
  pub attempted :
      (task_id : String) (failure_type : Option String) (now : ℕ) (m : Manager S)
      → Inv m
      → Inv (attempt task_id failure_type now m)
  pub emitted :
      (type task_id worker_id message : String) (now : ℕ) (m : Manager S)
      → Inv m
      → Inv (emit_event type task_id worker_id message now m)
  pub read :
      (task_id : String) (m : Manager S)
      → Inv m
      → Inv (record m { store = (stores.get task_id m.store).1 })
  pub read_list :
      (worker_id : String) (m : Manager S)
      → Inv m
      → Inv (record m { store = (stores.assigned worker_id m.store).1 })
  pub resumed :
      (r : ResultRecord) (now : ℕ) (m : Manager S)
      → Good r
      → Inv m
      → Inv (record m {
        store =
            (stores.put r.task_id
              (record r { recovery_status = none; retry_at = none; updated_at = now })
              m.store).1;
      })
  pub listed : (m : Manager S) → Inv m → All Good (result_records (stores.local_values m.store))

module _ {S : Type 0} (stores : Stores S) (floats : Floats)
    (on_no_workers : Option (S → Option String × S)) (describe : Error → String)
    (Good : ResultRecord → Type 0) (Inv : Manager S → Type 0)
    (kept : IsKept stores (attempt_recovery stores floats on_no_workers describe) Good Inv) where
  each_kept :
      (failure_type : Option String) (now : ℕ) (rs : List ResultRecord) (m : Manager S)
      → Inv m
      → Inv (attempt_each stores floats on_no_workers describe failure_type now rs m)
  unfolding attempt_each
  each_kept failure_type now [] m inv = inv
  each_kept failure_type now (r ∷ rs) m inv =
      each_kept failure_type now rs
        (attempt_recovery stores floats on_no_workers describe r.task_id failure_type now m)
        (kept.attempted r.task_id failure_type now m inv)

  crashed_kept :
      (worker_id task_id : String) (now : ℕ) (o : Option ResultRecord) (m : Manager S)
      → Inv m
      → Inv (crashed stores floats on_no_workers describe worker_id task_id now o m)
  crashed_kept worker_id task_id now none m inv = inv
  crashed_kept worker_id task_id now (some r) m inv = elim (Bool-cases (is_unfinished r)) [
    | inl e ↦ rw e (
        kept.attempted r.task_id (some "worker_crash") now _
          (kept.emitted "worker_crash" task_id worker_id _ now m inv))
    | inr e ↦ rw e inv
  ]

  crashed_tasks_kept :
      (worker_id : String) (now : ℕ) (ts : List String) (m : Manager S)
      → Inv m
      → Inv (crashed_tasks stores floats on_no_workers describe worker_id now ts m)
  unfolding crashed_tasks
  crashed_tasks_kept worker_id now [] m inv = inv
  crashed_tasks_kept worker_id now (t ∷ ts) m inv = crashed_tasks_kept worker_id now ts _ (
      crashed_kept worker_id t now (found (stores.get t m.store).0)
        (record m { store = (stores.get t m.store).1 }) (kept.read t m inv))

  crashed_workers_kept :
      (now : ℕ) (ws : List String) (m : Manager S)
      → Inv m
      → Inv (crashed_workers stores floats on_no_workers describe now ws m).1
  unfolding crashed_workers
  crashed_workers_kept now [] m inv = inv
  crashed_workers_kept now (w ∷ ws) m inv =
      go (stores.assigned w m.store).0 (λ m. crashed_workers_kept now ws m)
    where
      m' : Manager S
      m' = record m { store = (stores.assigned w m.store).1 }

      go :
          (out : Result (List String))
          → ((m : Manager S)
              → Inv m
              → Inv (crashed_workers stores floats on_no_workers describe now ws m).1)
          → Inv
              (elim out as (λ _. Result Unit × Manager S) [
                | ok ts ↦
                    crashed_workers stores floats on_no_workers describe now ws
                      (crashed_tasks stores floats on_no_workers describe w now ts m')
                | err e ↦ (err e, m')
              ]).1
      go (ok ts) ih = ih _ (crashed_tasks_kept w now ts m' (kept.read_list w m inv))
      go (err e) ih = kept.read_list w m inv

  retry_each_kept :
      (now : ℕ) (rs : List ResultRecord) (m : Manager S)
      → All Good rs
      → Inv m
      → Inv (retry_each stores floats on_no_workers describe now rs m)
  unfolding retry_each safe_put
  retry_each_kept now [] m all inv = inv
  retry_each_kept now (r ∷ rs) m (good, all) inv =
      retry_each_kept now rs _ all
        (kept.attempted r.task_id r.last_failure_reason now _ (kept.resumed r now m good inv))

  timed_out_tasks_kept :
      (now : ℕ) (m : Manager S)
      → Inv m
      → Inv (detect_timed_out_tasks stores floats on_no_workers describe now m)
  unfolding detect_timed_out_tasks all_ht1_records
  timed_out_tasks_kept now m inv =
      each_kept (some "task_timeout") now
        (filter is_timed_out (result_records (stores.local_values m.store))) m inv

  failed_tasks_kept :
      (now : ℕ) (m : Manager S)
      → Inv m
      → Inv (detect_failed_tasks stores floats on_no_workers describe now m)
  unfolding detect_failed_tasks all_ht1_records
  failed_tasks_kept now m inv =
      each_kept (some "task_failure") now
        (filter is_failed (result_records (stores.local_values m.store))) m inv

  stuck_tasks_kept :
      (now : ℕ) (m : Manager S)
      → Inv m
      → Inv (detect_stuck_tasks stores floats on_no_workers describe now m)
  unfolding detect_stuck_tasks all_ht1_records
  stuck_tasks_kept now m inv =
      each_kept (some "worker_crash") now
        (filter (λ r. is_stuck (Registry.is_live r.worker_id now m.registry) r)
          (result_records (stores.local_values m.store)))
        m inv

  waiting_tasks_kept :
      (now : ℕ) (m : Manager S)
      → Inv m
      → Inv (retry_waiting_tasks stores floats on_no_workers describe now m)
  unfolding retry_waiting_tasks all_ht1_records
  waiting_tasks_kept now m inv =
      retry_each_kept now (filter (is_due now) (result_records (stores.local_values m.store))) m
        (All-filter Good (is_due now) _ (kept.listed m inv)) inv

  pub trigger_kept :
      (now : ℕ) (m : Manager S) → Inv m → Inv (trigger stores floats on_no_workers describe now m)
  unfolding trigger scan detect_worker_crashes
  trigger_kept now m inv =
      go (crashed_workers stores floats on_no_workers describe now dead m).0
        (crashed_workers_kept now dead m inv)
    where
      dead : List String
      dead =
          filter (λ w. not (Registry.is_live w now m.registry))
            (map (λ e. e.0) (Registry.all_workers now m.registry))

      m' : Manager S
      m' = (crashed_workers stores floats on_no_workers describe now dead m).1

      go :
          (out : Result Unit)
          → Inv m'
          → Inv
              (elim out as (λ _. Result Unit × Manager S) [
                | err e ↦ (err e, m')
                | ok u ↦ (
                  ok tt,
                  retry_waiting_tasks stores floats on_no_workers describe now (
                      detect_stuck_tasks stores floats on_no_workers describe now (
                        detect_failed_tasks stores floats on_no_workers describe now
                          (detect_timed_out_tasks stores floats on_no_workers describe now m'))),
                )
              ]).1
      go (err e) inv = inv
      go (ok u) inv =
          waiting_tasks_kept now _
            (stuck_tasks_kept now _ (failed_tasks_kept now _ (timed_out_tasks_kept now m' inv)))
