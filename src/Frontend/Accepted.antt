-- ===== src/Frontend/Accepted.antt =====
-- What a response of /createTask of chord/server.py says of the writes.
use distributed_chord_infras.Results
use distributed_chord_infras.Retry.Calls
use distributed_chord_infras.Frontend.{
  after_read, after_choice, after_build, after_record, after_assignment, create_task, Details,
  write_assignment, write_record, new_input,
}
use distributed_chord_infras.Retry.{
  Outcome, Attempt, Run, with_timeout_and_retry, backoff_multiplier, max_retries,
  initial_backoff_ms,
}
use distributed_chord_infras.Common.{
  String, ℕ, Option, some, none, ◌≡◌, arith, Bool-cases, ◌||◌, not, elem, inl, inr, refl,
}
use distributed_chord_infras.Network.{Result, Error, err, ok}
use distributed_chord_infras.Records.{ResultRecord}
use distributed_chord_infras.Stores.{Stores}
use distributed_chord_infras.Frontend.{Frontend, tried, Created}
use distributed_chord_infras.Registry.{Floats}
use distributed_chord_infras.Results.{build_result_record}
use distributed_chord_infras.Text.{is_empty}
use distributed_chord_infras.Results.Built.{build_result_record-validate}
use distributed_chord_infras.Retry.Calls.{with_timeout_and_retry-Fails}

-- The record of the task that was asked for.
abbrev pub IsRecord : String → String → ResultRecord → Type 0
IsRecord task_id worker_id r =
    (r.task_id ≡ task_id) × (r.status ≡ "PENDING") × (r.worker_id ≡ worker_id)

-- So many failed attempts lead from one state to another.
abbrev pub After : {S : Type 0} → (S → Result Unit × S) → S → S → Type 0
After op s u = (k : ℕ) × Calls.Fails (λ t. tried (op t)) k s u

-- What a response says of the writes; nothing where the task was refused before them.
abbrev pub Says : {S : Type 0} → Stores S → String → ℕ → Frontend S → Created × Frontend S → Type 0
Says {S} stores task_id now f (Created.accepted w by, f') =
    (r : ResultRecord) × (s : S) × (t : S) × (u : S) × IsRecord task_id w r
    × (stores.put task_id r s ≡ (ok tt, t))
    × After (stores.append w task_id now) t u
    × (stores.append w task_id now u ≡ (ok tt, f'.store))
Says stores task_id now f (Created.exists_already status w by, f') =
    (r : ResultRecord) × (stores.get task_id f.store ≡ (ok (some r), f'.store))
    × (f'.registry ≡ f.registry)
Says {S} stores task_id now f (Created.not_persisted, f') =
    (r : ResultRecord) × (s : S) × (e : Error) × (stores.put task_id r s ≡ (err e, f'.store))
Says {S} stores task_id now f (Created.not_assigned, f') =
    (w : String) × (r : ResultRecord) × (s : S) × (t : S) × (u : S) × (v : S) × (e : Error)
    × (stores.put task_id r s ≡ (ok tt, t))
    × After (stores.append w task_id now) t u
    × (stores.append w task_id now u ≡ (err e, v))
    × (f'.store ≡ (stores.delete task_id v).1)
Says stores task_id now f (Created.rejected, f') = Unit
Says stores task_id now f (Created.no_workers, f') = Unit

tried-done :
    {S : Type 0} (x : Result Unit × S) (u : Unit) (t : S)
    → tried x ≡ (Attempt.done u, t)
    → x ≡ (ok tt, t)
tried-done (ok a, s) u t e = cc
tried-done (err a, s) u t e = absurd (ground arith)

tried-failed :
    {S : Type 0} (x : Result Unit × S) (y : Error) (t : S)
    → tried x ≡ (Attempt.failed y, t)
    → x ≡ (err y, t)
tried-failed (ok a, s) y t e = absurd (ground arith)
tried-failed (err a, s) y t e = cc

tried-fatal : {S : Type 0} (x : Result Unit × S) (t : S) → tried x ≡ (Attempt.fatal, t) → ⊥
tried-fatal (ok a, s) t e = ground arith
tried-fatal (err a, s) t e = ground arith

-- How a write ends that the retry helper repeats: with a success, or with the failure of the last
-- attempt.
abbrev EndsBy : {S : Type 0} → (S → Result Unit × S) → S → Run S Unit → Type 0
EndsBy {S} op s0 (Outcome.returned u, slept, t) = (s : S) × After op s0 s × (op s ≡ (ok tt, t))
EndsBy op s0 (Outcome.stopped, slept, t) = ⊥
EndsBy {S} op s0 (Outcome.exhausted e, slept, t) = (s : S) × After op s0 s × (op s ≡ (err e, t))

retry-EndsBy :
    {S : Type 0} (op : S → Result Unit × S) (s : S)
    → EndsBy op s (
        with_timeout_and_retry backoff_multiplier
          (λ t. tried (op t))
          max_retries
          initial_backoff_ms
          s)
retry-EndsBy {S} op s =
    let (k, u, fails, last, waits, within) =
      with_timeout_and_retry-Fails backoff_multiplier (λ t. tried (op t)) max_retries
        initial_backoff_ms s in
    go
      (with_timeout_and_retry backoff_multiplier (λ t. tried (op t)) max_retries initial_backoff_ms
        s)
      u (k, fails) last
  where
    go :
        (run : Run S Unit) (u : S)
        → After op s u
        → tried (op u) ≡ (Calls.as_attempt run.0, run.2)
        → EndsBy op s run
    go (Outcome.returned x, slept, t) u before last = (u, before, tried-done (op u) x t last)
    go (Outcome.stopped, slept, t) u before last = tried-fatal (op u) t last
    go (Outcome.exhausted x, slept, t) u before last = (u, before, tried-failed (op u) x t last)

module _ {S : Type 0} (stores : Stores S) (floats : Floats)
    (auto_spawn : Option (Frontend S → Option String × Frontend S)) (task_id : String) (now : ℕ)
    (f0 : Frontend S) where
  after_assignment-Says :
      (w by : String) (r : ResultRecord) (s t : S) (run : Run S Unit) (f : Frontend S)
      → IsRecord task_id w r
      → stores.put task_id r s ≡ (ok tt, t)
      → EndsBy (stores.append w task_id now) t run
      → Says stores task_id now f0 (after_assignment stores floats auto_spawn task_id w by run f)
  after_assignment-Says w by r s t (Outcome.returned u, slept, v) f is put (x, before, appended) =
      (r, s, t, x, is, put, before, appended)
  after_assignment-Says w by r s t (Outcome.stopped, slept, v) f is put stuck = absurd stuck
  after_assignment-Says w by r s t (Outcome.exhausted e, slept, v) f is put (x, before, failed) =
      (w, r, s, t, x, v, e, put, before, failed, refl)

  after_record-Says :
      (w by : String) (r : ResultRecord) (run : Run S Unit) (f : Frontend S)
      → IsRecord task_id w r
      → EndsBy (stores.put task_id r) f.store run
      → Says stores task_id now f0 (after_record stores floats auto_spawn task_id w by now run f)
  unfolding write_assignment
  after_record-Says w by r (Outcome.returned u, slept, t) f is (s, before, put) =
      after_assignment-Says w by r s t _ f is put (retry-EndsBy (stores.append w task_id now) t)
  after_record-Says w by r (Outcome.stopped, slept, t) f is stuck = absurd stuck
  after_record-Says w by r (Outcome.exhausted e, slept, t) f is (s, before, failed) =
      (r, s, e, failed)

  after_choice-Says :
      (details : Details) (choice : Option (String × String) × Frontend S)
      → Says stores task_id now f0
          (after_choice stores floats auto_spawn task_id details now choice)
  unfolding write_record
  after_choice-Says details (none, f) = tt
  after_choice-Says details (some (w, by), f) =
      go (build_result_record (new_input task_id details w by) now) refl
    where
      go :
          (built : Result ResultRecord)
          → build_result_record (new_input task_id details w by) now ≡ built
          → Says stores task_id now f0
              (after_build stores floats auto_spawn task_id w by now built f)
      go (err e) made = tt
      go (ok r) made =
          let good = build_result_record-validate (new_input task_id details w by) now r made in
          after_record-Says w by r _ f (good.1, good.3, good.4)
            (retry-EndsBy (stores.put task_id r) f.store)

  after_read-Says :
      (details : Details) (given : String) (out : Result (Option ResultRecord) × S)
      → stores.get task_id f0.store ≡ out
      → Says stores task_id now f0
          (after_read stores floats auto_spawn task_id details given now out f0)
  after_read-Says details given (ok (some r), s) e = (r, e, refl)
  after_read-Says details given (ok none, s) e = after_choice-Says details _
  after_read-Says details given (err x, s) e = after_choice-Says details _

-- Over any services a response of /createTask tells the truth of the writes. Accepted: a pending
-- record of the task for the worker named was written with success; from there, after some failed
-- attempts or none, the task was appended with success to the list of that worker, as the last step.
-- Existing: the record was read and nothing else was done. Record not persisted: the last write of
-- it failed. Assignment not persisted: the record had been written, from there all attempts to
-- append failed, and the deletion of the record is the last step.
pub create_task-Says :
    {S : Type 0} (stores : Stores S) (floats : Floats)
    (auto_spawn : Option (Frontend S → Option String × Frontend S)) (task_id : String)
    (details : Option Details) (given : String) (now : ℕ) (f : Frontend S)
    → Says stores task_id now f (create_task stores floats auto_spawn task_id details given now f)
unfolding create_task
create_task-Says stores floats auto_spawn task_id none given now f = tt
create_task-Says stores floats auto_spawn task_id (some details) given now f =
    elim (Bool-cases (is_empty task_id || not (elem details.task_type Results.valid_task_types))) [
      | inl bad ↦ rw bad tt
      | inr fine ↦ rw fine (
          after_read-Says stores floats auto_spawn task_id now f details given
            (stores.get task_id f.store) refl)
    ]
