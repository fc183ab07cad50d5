-- ===== src/Recovery/Steps.antt =====
-- What one attempt of chord/recovery.py keeps, given that each step keeps it.
use distributed_chord_infras.Recovery.Manager.{started, spawn_with, recover_read}
use distributed_chord_infras.Common.{ltb, length, not, ◌&&◌, ◌-◌}
use distributed_chord_infras.Registry
use distributed_chord_infras.Recovery.Manager.{
  Manager, emit_event, execute, reassign, recover_fresh, retry_with, spawn_worker, safe_put,
  workers_of, spawn_with, is_settled, spawn_cooldown_s, freed, told,
}
use distributed_chord_infras.Registry.Ranking.{score_all_workers}
use distributed_chord_infras.Registry.{Floats}
use distributed_chord_infras.Stores.{Stores}
use distributed_chord_infras.Network.{ok, err, Error, Result}
use distributed_chord_infras.Common.{
  String, ℕ, List, some, none, Option, Bool, true, false, ◌≡◌, ◌⊎◌, inl, inr, ◌<◌, refl, Bool-cases,
  str_eq, arith, leb, eq_iff,
}
use distributed_chord_infras.Records.{ResultRecord}
use distributed_chord_infras.Recovery.{
  choose_recovery_path, retry_or_wait, give_up, failing, attempts, wait_until, limit, retry_on,
  pick_worker,
}
use distributed_chord_infras.Text.{is_empty}

-- The records that recovery makes of a good one are good. A retry is for a record with attempts
-- left.
pub record IsClosed (Good : ResultRecord → Type 0) : Type 0 where
  pub gives_up :
      (failure_type : Option String) (now : ℕ) (r : ResultRecord)
      → Good r
      → Good (give_up (failing failure_type now r))
  pub waits :
      (reason : String) (failure_type : Option String) (now retry_at : ℕ) (r : ResultRecord)
      → Good r
      → Good (wait_until reason retry_at (failing failure_type now r))
  pub retries :
      (path w : String) (failure_type : Option String) (now : ℕ) (r : ResultRecord)
      → Good r
      → attempts r < limit r
      → Good (retry_on path w (failing failure_type now r))

-- Each effect of an attempt keeps the invariant.
pub record IsStepped {S : Type 0} (stores : Stores S)
    (on_no_workers : Option (S → Option String × S)) (Good : ResultRecord → Type 0)
    (Inv : Manager S → Type 0) : Type 0 where
  pub saved :
      (r : ResultRecord) (m : Manager S)
      → Good r
      → Inv m
      → Inv (record m { store = (stores.put r.task_id r m.store).1 })
  pub appended :
      (w t : String) (now : ℕ) (m : Manager S)
      → Inv m
      → Inv (record m { store = (stores.append w t now m.store).1 })
  pub unassigned :
      (w t : String) (now : ℕ) (m : Manager S)
      → Inv m
      → Inv (record m { store = (stores.unassign w t now m.store).1 })
  pub emitted :
      (type task_id worker_id message : String) (now : ℕ) (m : Manager S)
      → Inv m
      → Inv (emit_event type task_id worker_id message now m)
  pub spawned :
      (spawn : S → Option String × S) (now : ℕ) (m : Manager S)
      → on_no_workers ≡ some spawn
      → Inv m
      → Inv (record m { last_spawn_trigger = now; store = (spawn m.store).1 })

retry_or_wait-cases :
    (b : Bool) → (retry_or_wait b ≡ "RETRY_DIFFERENT") ⊎ (retry_or_wait b ≡ "WAIT_AND_RETRY")
retry_or_wait-cases true = inl refl
retry_or_wait-cases false = inr refl

-- Only a record with attempts left is not given up.
pub choose_recovery_path-left :
    (r : ResultRecord) (failure_type : Option String) (b : Bool)
    → (choose_recovery_path r failure_type b ≡ "GIVE_UP") ⊎ (attempts r < limit r)
unfolding choose_recovery_path
choose_recovery_path-left r failure_type b = elim (Bool-cases (leb (limit r) (attempts r))) [
  | inl used ↦ rw used (inl refl)
  | inr left ↦ inr (ground arith)
]

module _ {S : Type 0} (stores : Stores S) (floats : Floats)
    (on_no_workers : Option (S → Option String × S)) (describe : Error → String)
    (Good : ResultRecord → Type 0) (Inv : Manager S → Type 0) (closed : IsClosed Good)
    (stepped : IsStepped stores on_no_workers Good Inv) where
  told_kept :
      (task_id new_worker path : String) (now : ℕ) (m : Manager S) (out : Result Unit × S)
      → Inv (record m { store = out.1 })
      → Inv (told stores floats on_no_workers describe task_id new_worker path now m out)
  told_kept task_id new_worker path now m (ok u, s) inv =
      stepped.emitted "retry" task_id new_worker _ now _ inv
  told_kept task_id new_worker path now m (err e, s) inv =
      stepped.emitted "error" task_id new_worker _ now _ inv

  freed_kept :
      (task_id old_worker new_worker : String) (now : ℕ) (m : Manager S)
      → Inv m
      → Inv (freed stores floats on_no_workers describe task_id old_worker new_worker now m)
  freed_kept task_id old_worker new_worker now m inv =
      elim (Bool-cases (not (is_empty old_worker) && not (str_eq old_worker new_worker))) [
        | inl e ↦ rw e (stepped.unassigned old_worker task_id now m inv)
        | inr e ↦ rw e inv
      ]

  reassign_kept :
      (task_id old_worker new_worker path : String) (now : ℕ) (m : Manager S)
      → Inv m
      → Inv (reassign stores floats on_no_workers describe task_id old_worker new_worker path now m)
  unfolding reassign
  reassign_kept task_id old_worker new_worker path now m inv =
      let m' = freed stores floats on_no_workers describe task_id old_worker new_worker now m in
      told_kept task_id new_worker path now m' (stores.append new_worker task_id now m'.store) (
        stepped.appended new_worker task_id now m'
          (freed_kept task_id old_worker new_worker now m inv))

  retry_with_kept :
      (path : String) (failure_type : Option String) (r : ResultRecord) (now : ℕ)
      (o : Option String) (m : Manager S)
      → Good r
      → attempts r < limit r
      → Inv m
      → Inv (
          retry_with stores floats on_no_workers describe path (failing failure_type now r) now o m)
  unfolding retry_with safe_put
  retry_with_kept path failure_type r now none m good left inv =
      stepped.emitted "wait_retry" r.task_id "" _ now _
        (stepped.saved _ m (closed.waits _ failure_type now _ r good) inv)
  retry_with_kept path failure_type r now (some w) m good left inv =
      reassign_kept r.task_id r.worker_id w path now _
        (stepped.saved _ m (closed.retries path w failure_type now r good left) inv)

  execute_kept :
      (r : ResultRecord) (path : String) (failure_type : Option String) (ws : List String)
      (short_wait : Bool) (now : ℕ) (m : Manager S)
      → Good r
      → (path ≡ "GIVE_UP") ⊎ (attempts r < limit r)
      → Inv m
      → Inv (execute stores floats on_no_workers describe r path failure_type ws short_wait now m)
  unfolding execute safe_put
  execute_kept r path failure_type ws short_wait now m good left inv =
      elim (Bool-cases (str_eq path "GIVE_UP")) [
        | inl e ↦ rw e (
            stepped.emitted "give_up" r.task_id "" _ now _
              (stepped.saved _ m (closed.gives_up failure_type now r good) inv))
        | inr e ↦ elim (Bool-cases (str_eq path "WAIT_AND_RETRY")) [
          | inl e' ↦
              rw (e, e')
                (stepped.emitted "wait_retry" r.task_id "" _ now _
                  (stepped.saved _ m (closed.waits _ failure_type now _ r good) inv))
          | inr e' ↦
              rw (e, e')
                (retry_with_kept path failure_type r now
                  (pick_worker path r.worker_id ws (Registry.is_live r.worker_id now m.registry)) m
                  good (some_left left e) inv)
        ]
      ]
    where
      some_left :
          (path ≡ "GIVE_UP") ⊎ (attempts r < limit r)
          → str_eq path "GIVE_UP" ≡ false
          → attempts r < limit r
      some_left (inl e) other = absurd (ground (arith, eq_iff path "GIVE_UP"))
      some_left (inr lt) other = lt

  started_kept :
      (task_id : String) (now : ℕ) (out : Option String × S) (m : Manager S)
      → Inv (record m { last_spawn_trigger = now; store = out.1 })
      → Inv (started stores floats on_no_workers describe task_id now out m).1
  started_kept task_id now (none, s) m inv = inv
  started_kept task_id now (some w, s) m inv = stepped.emitted "auto_spawn" task_id w _ now _ inv

  spawn_with_kept :
      (o : Option (S → Option String × S)) (task_id : String) (b : Bool) (now : ℕ) (m : Manager S)
      → on_no_workers ≡ o
      → Inv m
      → Inv (spawn_with stores floats on_no_workers describe o task_id b now m).1
  spawn_with_kept none task_id b now m e inv = inv
  spawn_with_kept (some spawn) task_id b now m e inv =
      elim (Bool-cases (not b && leb spawn_cooldown_s (now - m.last_spawn_trigger))) [
        | inl due ↦
            rw due (started_kept task_id now (spawn m.store) m (stepped.spawned spawn now m e inv))
        | inr early ↦ rw early inv
      ]

  spawn_kept :
      (task_id : String) (b : Bool) (now : ℕ) (m : Manager S)
      → Inv m
      → Inv (spawn_worker stores floats on_no_workers describe task_id b now m).1
  unfolding spawn_worker
  spawn_kept task_id b now m inv = spawn_with_kept on_no_workers task_id b now m refl inv

  -- An attempt at a good record that was read keeps the invariant.
  recover_fresh_kept :
      (task_id : String) (r : ResultRecord) (failure_type : Option String) (now : ℕ) (m : Manager S)
      → Good r
      → Inv m
      → Inv (recover_fresh stores floats on_no_workers describe task_id r failure_type now m)
  unfolding recover_fresh
  recover_fresh_kept task_id r failure_type now m good inv = elim (Bool-cases (is_settled r)) [
    | inl e ↦ rw e inv
    | inr e ↦ rw e (
        execute_kept r (choose_recovery_path r failure_type has_workers) failure_type ws
          (spawn_worker stores floats on_no_workers describe task_id has_workers now m).0 now
          (spawn_worker stores floats on_no_workers describe task_id has_workers now m).1 good
          (choose_recovery_path-left r failure_type has_workers)
          (spawn_kept task_id has_workers now m inv))
  ]
    where
      ws : List String
      ws = workers_of (score_all_workers floats now m.registry)

      has_workers : Bool
      has_workers = ltb 0 (length ws)

  pub recover_read_kept :
      (task_id : String) (failure_type : Option String) (now : ℕ) (o : Option ResultRecord)
      (m : Manager S)
      → ((r : ResultRecord) → o ≡ some r → Good r)
      → Inv m
      → Inv (recover_read stores floats on_no_workers describe task_id failure_type now o m)
  recover_read_kept task_id failure_type now none m good inv = inv
  recover_read_kept task_id failure_type now (some r) m good inv =
      recover_fresh_kept task_id r failure_type now m (good r refl) inv
