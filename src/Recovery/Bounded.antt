-- ===== src/Recovery/Bounded.antt =====
-- The number of attempts in chord/recovery.py.
use distributed_chord_infras.Registry.{Floats}
use distributed_chord_infras.Stores.{Stores}
use distributed_chord_infras.Network.{Error}
use distributed_chord_infras.Recovery.Manager.{Manager, attempt_recovery, emit_event, found}
use distributed_chord_infras.Common.{
  String, ℕ, ◌∷◌, some, Option, Bool-cases, ◌||◌, ◌≡◌, ◌≤◌, All, elem, arith, inl, inr,
}
use distributed_chord_infras.Records.{ResultRecord}
use distributed_chord_infras.Recovery.{
  give_up, attempts, wait_until, retry_on, limit, result_records,
}
use distributed_chord_infras.Recovery.Steps.{IsStepped, IsClosed, recover_read_kept}
use distributed_chord_infras.Text.{is_empty}
use distributed_chord_infras.Recovery.Scan.{trigger}
use distributed_chord_infras.Recovery.Invariant.{trigger_kept}

-- A record has no more attempts than its limit.
abbrev pub IsBounded : ResultRecord → Type 0
IsBounded r = attempts r ≤ limit r

-- What a result service keeps that stores only records within their limits: `Fine` holds of its
-- state, what it reads and lists is within its limit, and no call but a write of another record
-- ends it.
pub record IsFine {S : Type 0} (stores : Stores S) (on_no_workers : Option (S → Option String × S))
    (Fine : S → Type 0) : Type 0 where
  pub get_bounded :
      (t : String) (s : S) (r : ResultRecord)
      → Fine s
      → found (stores.get t s).0 ≡ some r
      → IsBounded r
  pub get_fine : (t : String) (s : S) → Fine s → Fine (stores.get t s).1
  pub put_fine :
      (t : String) (r : ResultRecord) (s : S) → IsBounded r → Fine s → Fine (stores.put t r s).1
  pub append_fine : (w t : String) (now : ℕ) (s : S) → Fine s → Fine (stores.append w t now s).1
  pub unassign_fine : (w t : String) (now : ℕ) (s : S) → Fine s → Fine (stores.unassign w t now s).1
  pub assigned_fine : (w : String) (s : S) → Fine s → Fine (stores.assigned w s).1
  pub local_fine : (s : S) → Fine s → All IsBounded (result_records (stores.local_values s))
  pub spawn_fine :
      (spawn : S → Option String × S) (s : S)
      → on_no_workers ≡ some spawn
      → Fine s
      → Fine (spawn s).1

IsBounded-IsClosed : IsClosed IsBounded
unfolding give_up wait_until retry_on
IsBounded-IsClosed = record {
  gives_up = λ f now r good. good;
  waits = λ reason f now t r good. good;
  retries = λ path w f now r good left. omega (arith, left);
}

module _ {S : Type 0} (stores : Stores S) (floats : Floats)
    (on_no_workers : Option (S → Option String × S)) (describe : Error → String) (Fine : S → Type 0)
    (fine : IsFine stores on_no_workers Fine) where
  abbrev Inv : Manager S → Type 0
  Inv m = Fine m.store

  Inv-steps : IsStepped stores on_no_workers IsBounded Inv
  unfolding emit_event
  Inv-steps = record {
    saved = λ q m good inv. fine.put_fine q.task_id q m.store good inv;
    appended = λ w t now m inv. fine.append_fine w t now m.store inv;
    unassigned = λ w t now m inv. fine.unassign_fine w t now m.store inv;
    emitted = λ type t w message now m inv. inv;
    spawned = λ spawn now m e inv. fine.spawn_fine spawn m.store e inv;
  }

  attempt-Inv :
      (task_id : String) (failure_type : Option String) (now : ℕ) (m : Manager S)
      → Inv m
      → Inv (attempt_recovery stores floats on_no_workers describe task_id failure_type now m)
  unfolding attempt_recovery
  attempt-Inv task_id failure_type now m inv =
      elim (Bool-cases (is_empty task_id || elem task_id m.in_progress)) [
        | inl e ↦ rw e inv
        | inr e ↦ rw e (
            recover_read_kept stores floats on_no_workers describe IsBounded Inv IsBounded-IsClosed
              Inv-steps task_id failure_type now (found (stores.get task_id m.store).0)
              (record m {
                store = (stores.get task_id m.store).1;
                in_progress = task_id ∷ m.in_progress;
              })
              (λ q e. fine.get_bounded task_id m.store q inv e) (fine.get_fine task_id m.store inv))
      ]

  -- Where a service holds only records within their limits of attempts, it does so after any scan.
  pub trigger-IsBounded :
      (now : ℕ) (m : Manager S)
      → Fine m.store
      → Fine (trigger stores floats on_no_workers describe now m).store
  unfolding emit_event
  trigger-IsBounded now m =
      trigger_kept stores floats on_no_workers describe IsBounded Inv
        (record {
          attempted = λ t f now m inv. attempt-Inv t f now m inv;
          emitted = λ type t w message now m inv. inv;
          read = λ t m inv. fine.get_fine t m.store inv;
          read_list = λ w m inv. fine.assigned_fine w m.store inv;
          resumed = λ q now m good inv. fine.put_fine q.task_id _ m.store good inv;
          listed = λ m inv. fine.local_fine m.store inv;
        })
        now m
