-- ===== src/Recovery/Manager.antt =====
-- `_attempt_recovery` and `_execute` of `class RecoveryManager` in chord/recovery.py, over any result
-- and assignment service.
use distributed_chord_infras.Common.{◌++◌, length}
use Prim.Native.String.{◌++◌ as text_append}
use distributed_chord_infras.Registry
use distributed_chord_infras.Common.{ltb}
use distributed_chord_infras.Common.{
  String, ℕ, Bool, List, Option, filter, if◌then◌else◌, some, ◌++◌, leb, none, not, str_eq, ◌+◌,
  ◌∷◌, [], false, ◌&&◌, ◌||◌, elem, ◌-◌, true,
}
use distributed_chord_infras.Records.{ResultRecord}
use distributed_chord_infras.Registry.Ranking.{score_all_workers}
use distributed_chord_infras.Registry.{WorkerRegistry, get_or, Floats}
use distributed_chord_infras.Text.{decimal, is_empty}
use distributed_chord_infras.Activity.{last}
use distributed_chord_infras.Network.{Result, ok, Error, err}
use distributed_chord_infras.Stores.{Stores}
use distributed_chord_infras.Recovery.{
  choose_recovery_path, give_up, others, wait_until, pick_worker, retry_on, failing,
  recovery_wait_seconds, in_words, attempts,
}

-- An entry of the timeline, `_emit_event`.
pub record TimelineEvent : Type 0 where
  pub ts : ℕ
  pub type : String
  pub task_id : String
  pub worker_id : String
  pub message : String

-- The server's state that recovery uses: the processes' stores, the registry, and the fields of the
-- manager. The lists are in the order of their making.
pub record Manager (S : Type 0) : Type 0 where
  pub store : S
  pub registry : WorkerRegistry
  pub events : List TimelineEvent
  pub in_progress : List String
  pub last_spawn_trigger : ℕ

-- `deque(maxlen=100)`
abbrev pub max_events : ℕ
max_events = 100

unfoldable pub emit_event :
    {S : Type 0} → String → String → String → String → ℕ → Manager S → Manager S
emit_event type task_id worker_id message now m = record m {
  events = last max_events (
      m.events
      ++ (record {
        ts = now;
        type = type;
        task_id = task_id;
        worker_id = worker_id;
        message = message;
      }
          ∷ []));
}

-- `get_events`
unfoldable pub get_events : {S : Type 0} → ℕ → Manager S → List TimelineEvent
get_events since m = filter (λ e. leb since e.ts) m.events

-- `_spawn_cooldown_s`
abbrev pub spawn_cooldown_s : ℕ
spawn_cooldown_s = 3

abbrev pub workers_of {ℓ} : {F : Type ℓ} → List (String × F) → List String
workers_of [] = []
workers_of ((w, s) ∷ l) = w ∷ workers_of l

abbrev pub found : {A : Type 0} → Result (Option A) → Option A
found (ok o) = o
found (err e) = none

-- The record waits for a retry, or its task has succeeded.
abbrev pub is_settled : ResultRecord → Bool
is_settled r = str_eq (get_or "" r.recovery_status) "WAITING_FOR_RETRY" || str_eq r.status "SUCCESS"

-- `on_no_workers` starts a worker, whose name is its result where it says `ok`. `describe` is the
-- text of an exception.
module _ {S : Type 0} (stores : Stores S) (floats : Floats)
    (on_no_workers : Option (S → Option String × S)) (describe : Error → String) where
  -- `_safe_put`
  unfoldable pub safe_put : ResultRecord → Manager S → Manager S
  safe_put r m = record m { store = (stores.put r.task_id r m.store).1 }

  abbrev pub with_store : Manager S → S → Manager S
  with_store m s = record m { store = s }

  -- The removal from the list of the old worker, where that is another one.
  abbrev pub freed : String → String → String → ℕ → Manager S → Manager S
  freed task_id old_worker new_worker now m =
      if not (is_empty old_worker) && not (str_eq old_worker new_worker)
      then with_store m (stores.unassign old_worker task_id now m.store).1
      else m

  -- The event after the append to the list of the new worker.
  abbrev pub told : String → String → String → ℕ → Manager S → Result Unit × S → Manager S
  told task_id new_worker path now m (ok u, s) =
      emit_event "retry" task_id new_worker
        (text_append path (text_append " on worker " new_worker)) now (with_store m s)
  told task_id new_worker path now m (err e, s) =
      emit_event "error" task_id new_worker
        (text_append "Failed to assign to "
          (text_append new_worker (text_append ": " (describe e))))
        now (with_store m s)

  -- The last part of a retry: the task moves from the list of its old worker to that of the new one.
  unfoldable pub reassign : String → String → String → String → ℕ → Manager S → Manager S
  unfolding emit_event
  reassign task_id old_worker new_worker path now m =
      let m' = freed task_id old_worker new_worker now m in
      told task_id new_worker path now m' (stores.append new_worker task_id now m'.store)

  abbrev pub waiting : String → String → ResultRecord → ℕ → ℕ → Manager S → Manager S
  waiting reason message r retry_at now m =
      emit_event "wait_retry" r.task_id "" message now (safe_put (wait_until reason retry_at r) m)

  -- A retry, where there is a worker for it.
  unfoldable pub retry_with : String → ResultRecord → ℕ → Option String → Manager S → Manager S
  unfolding safe_put wait_until retry_on reassign
  retry_with path r now none m =
      waiting "WAIT_AND_RETRY (no workers; retry at " "No workers available, waiting for retry" r
        (now + recovery_wait_seconds) now m
  retry_with path r now (some new_worker) m =
      reassign r.task_id r.worker_id new_worker path now (safe_put (retry_on path new_worker r) m)

  -- `_execute`, with the live workers by falling score.
  unfoldable pub execute :
      ResultRecord → String → Option String → List String → Bool → ℕ → Manager S → Manager S
  unfolding give_up safe_put retry_with pick_worker
  execute r path failure_type ws short_wait now m =
      let updated = failing failure_type now r in
      let wait_s = if short_wait then 6 else recovery_wait_seconds in
      if str_eq path "GIVE_UP"
      then emit_event "give_up" r.task_id "" (text_append "Gave up after " (in_words (attempts r)))
          now (safe_put (give_up updated) m)
      else if str_eq path "WAIT_AND_RETRY"
      then waiting "WAIT_AND_RETRY (retry at "
          (text_append "Waiting " (text_append (decimal wait_s) "s before retry")) updated
          (now + wait_s) now m
      else retry_with path updated now
          (pick_worker path r.worker_id ws (Registry.is_live r.worker_id now m.registry)) m

  -- The state after the callback has run.
  abbrev pub started : String → ℕ → Option String × S → Manager S → Bool × Manager S
  started task_id now (none, s) m = (false, record m { last_spawn_trigger = now; store = s })
  started task_id now (some w, s) m = (
    true,
    emit_event "auto_spawn" task_id w
        (text_append "Auto-spawned worker " (text_append w " (no live workers)")) now
        (record m { last_spawn_trigger = now; store = s }),
  )

  abbrev pub spawn_with :
      Option (S → Option String × S) → String → Bool → ℕ → Manager S → Bool × Manager S
  spawn_with none task_id has_workers now m = (false, m)
  spawn_with (some spawn) task_id has_workers now m =
      if not has_workers && leb spawn_cooldown_s (now - m.last_spawn_trigger)
      then started task_id now (spawn m.store) m
      else (false, m)

  -- The start of a worker where none is live, at most once in the cooldown. Whether it succeeded.
  unfoldable pub spawn_worker : String → Bool → ℕ → Manager S → Bool × Manager S
  unfolding emit_event
  spawn_worker task_id has_workers now m = spawn_with on_no_workers task_id has_workers now m

  -- `_attempt_recovery` of a record that was read again.
  unfoldable pub recover_fresh : String → ResultRecord → Option String → ℕ → Manager S → Manager S
  unfolding execute spawn_worker choose_recovery_path
  recover_fresh task_id fresh failure_type now m =
      if is_settled fresh
      then m
      else (let ws = workers_of (score_all_workers floats now m.registry) in
          let has_workers = ltb 0 (length ws) in
          let (just_spawned, m') = spawn_worker task_id has_workers now m in
          execute fresh (choose_recovery_path fresh failure_type has_workers) failure_type ws
            just_spawned now m')

  abbrev pub recover_read : String → Option String → ℕ → Option ResultRecord → Manager S → Manager S
  recover_read task_id failure_type now none m = m
  recover_read task_id failure_type now (some fresh) m =
      recover_fresh task_id fresh failure_type now m

  -- `_attempt_recovery`: the guard against a second attempt at the same task, and a fresh copy of
  -- the record.
  unfoldable pub attempt_recovery : String → Option String → ℕ → Manager S → Manager S
  unfolding recover_fresh
  attempt_recovery task_id failure_type now m =
      if is_empty task_id || elem task_id m.in_progress
      then m
      else (let (out, s) = stores.get task_id m.store in
          let m' =
            recover_read task_id failure_type now (found out)
              (record m { store = s; in_progress = task_id ∷ m.in_progress }) in
          record m' { in_progress = others task_id m'.in_progress })
