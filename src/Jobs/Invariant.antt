-- ===== src/Jobs/Invariant.antt =====
-- What every section of chord/worker.py keeps true of every job of a node's store.
use distributed_chord_infras.Common.Dict
use text.Mathlib.Text.{starts_with}
use distributed_chord_infras.Node.{ChordNode}
use distributed_chord_infras.Records.{Job, Value}
use distributed_chord_infras.Common.{
  String, Option-cases, ℕ, Bool-cases, inl, some, ◌≡◌, ◌≤◌, inr, ltb, str_eq, elem, sym, ◌+◌, ◌∷◌,
  [], arith, ◌∙◌, subst, true, refl, Option, ap, none, eq_iff,
}
use distributed_chord_infras.Jobs.{
  fail, reap_job, with_job, job_at, retries, set_job, try_claim, max_job_retries, requeued, failed,
  begin_run, is_expired, reap_entries, reap_timed_out_jobs, reap_value, succeed, as_job, started,
  finished, attempt_failed,
}
use distributed_chord_infras.Jobs.Claims.{
  try_claim-none, try_claim_pending, job_at-set_job, try_claim_other,
}
use distributed_chord_infras.Common.Dict.{Dict}
use distributed_chord_infras.Records.Dynamic.{Json}

-- A job's status is one of the five, and its retries are within the budget.
abbrev pub IsSound : Job → Type 0
IsSound j =
    (retries j ≤ max_job_retries)
    × (elem j.status ("pending" ∷ "claimed" ∷ "running" ∷ "done" ∷ "failed" ∷ []) ≡ true)

abbrev pub AllSound : ChordNode → Type 0
AllSound n = (key : String) (j : Job) → job_at key n ≡ some j → IsSound j

some_job : {a b : Job} → some a ≡ some b → a ≡ b
some_job e = cc

pub set_job-AllSound :
    (key : String) (j : Job) (n : ChordNode) → IsSound j → AllSound n → AllSound (set_job key j n)
set_job-AllSound key j n sound all k o at = elim (Bool-cases (str_eq key k)) [
  | inl same ↦
      let found : some j ≡ some o = sym (job_at-set_job k key j n ∙ (rw same refl)) ∙ at in
      subst IsSound (some_job found) sound
  | inr other ↦ all k o (sym (job_at-set_job k key j n ∙ (rw other refl)) ∙ at)
]

with_job-AllSound :
    (key : String) (f : Job → Job) (n : ChordNode)
    → ((j : Job) → IsSound j → IsSound (f j))
    → AllSound n
    → AllSound (with_job key f n)
unfolding with_job
with_job-AllSound key f n keep all = elim (Option-cases (job_at key n)) [
  | inl gone ↦ rw (gone, with_job) all
  | inr (j, at) ↦ rw (at, with_job) (set_job-AllSound key (f j) n (keep j (all key j at)) all)
]

try_claim-AllSound :
    (key : String) (now : ℕ) (n : ChordNode) → AllSound n → AllSound (try_claim key now n).1
try_claim-AllSound key now n all = elim (Option-cases (job_at key n)) [
  | inl gone ↦ rw (try_claim-none key now n gone) all
  | inr (j, at) ↦ elim (Bool-cases (str_eq j.status "pending")) [
    | inl pending ↦
        rw (try_claim_pending key now n j at pending)
          (set_job-AllSound key _ n ((all key j at).0, refl) all)
    | inr other ↦ rw (try_claim_other key now n j at other) all
  ]
]

fail-AllSound :
    (key : String) (now : ℕ) (error : String) (k : ℕ) (n : ChordNode)
    → AllSound n
    → AllSound (fail key now error k n)
unfolding fail
fail-AllSound key now error k n all = elim (Bool-cases (ltb k max_job_retries)) [
  | inl left ↦ rw left (
      with_job-AllSound key (requeued (k + 1) (attempt_failed (k + 1) error)) n
        (λ j sound. (ground arith, refl)) all)
  | inr spent ↦
      rw spent (with_job-AllSound key (failed now error) n (λ j sound. (sound.0, refl)) all)
]

reap_job-IsSound : (now : ℕ) (j : Job) → IsSound j → IsSound (reap_job now j).0
unfolding reap_job
reap_job-IsSound now j sound = elim (Bool-cases (is_expired now j)) [
  | inr fresh ↦ rw fresh sound
  | inl late ↦ elim (Bool-cases (ltb (retries j) max_job_retries)) [
    | inl left ↦ rw late (rw left (ground arith, refl))
    | inr spent ↦ rw late (rw spent (sound.0, refl))
  ]
]

reap_value_job :
    (now : ℕ) (k : String) (v : Value) (j : Job)
    → ((o : Job) → as_job (some v) ≡ some o → IsSound o)
    → as_job (some (reap_value now k v).0) ≡ some j
    → IsSound j
unfolding reap_value
reap_value_job now k (Value.job o) j sound at = elim (Bool-cases (starts_with k "job:")) [
  | inl mine ↦
      let found : some (reap_job now o).0 ≡ some j = rw mine at at in
      subst IsSound (some_job found) (reap_job-IsSound now o (sound o refl))
  | inr theirs ↦ sound j (rw theirs at at)
]
reap_value_job now k (Value.task t) j sound at = sound j at
reap_value_job now k (Value.result_details r) j sound at = sound j at
reap_value_job now k (Value.worker_assignment w) j sound at = sound j at
reap_value_job now k (Value.other o) j sound at = sound j at

abbrev reap_found : ℕ → String → Option Value → Option Value
reap_found now k none = none
reap_found now k (some v) = some (reap_value now k v).0

lookup-reap_entries :
    (now : ℕ) (k : String) (d : Dict Value)
    → Dict.lookup k (reap_entries now d).0 ≡ reap_found now k (Dict.lookup k d)
unfolding Dict.lookup reap_entries
lookup-reap_entries now k [] = refl
lookup-reap_entries now k ((i, v) ∷ d) = elim (Bool-cases (str_eq i k)) [
  | inl same ↦ rw same (ap (λ x. some (reap_value now x v).0) ((eq_iff i k).0 same))
  | inr other ↦ rw other (lookup-reap_entries now k d)
]

reap-AllSound : (now : ℕ) (n : ChordNode) → AllSound n → AllSound (reap_timed_out_jobs now n)
unfolding reap_timed_out_jobs
reap-AllSound now n all key j at =
    go (Dict.lookup key n.data_store) (λ o e. all key o e)
      (ap as_job (sym (lookup-reap_entries now key n.data_store)) ∙ at)
  where
    go :
        (o : Option Value)
        → ((j' : Job) → as_job o ≡ some j' → IsSound j')
        → as_job (reap_found now key o) ≡ some j
        → IsSound j
    go none sound e = sound j e
    go (some v) sound e = reap_value_job now key v j sound e

-- One section of the worker thread, at any time and with any outcome; the retry count that a
-- failure uses may be out of date.
pub data Step (n : ChordNode) : ChordNode → Type 0 where
  claim : (key : String) (now : ℕ) → Step n (try_claim key now n).1
  begin : (key : String) → Step n (begin_run key n)
  end : (key : String) (now : ℕ) (result : Json) → Step n (succeed key now result n)
  break : (key : String) (now : ℕ) (error : String) (k : ℕ) → Step n (fail key now error k n)
  reap : (now : ℕ) → Step n (reap_timed_out_jobs now n)

pub data Reach (n : ChordNode) : ChordNode → Type 0 where
  here : Reach n n
  next : {o p : ChordNode} → Reach n o → Step o p → Reach n p

Step-AllSound : {n o : ChordNode} → Step n o → AllSound n → AllSound o
unfolding begin_run succeed
Step-AllSound {n} (claim key now) all = try_claim-AllSound key now n all
Step-AllSound {n} (begin key) all = with_job-AllSound key started n (λ j s. (s.0, refl)) all
Step-AllSound {n} (end key now result) all =
    with_job-AllSound key (finished now result) n (λ j s. (s.0, refl)) all
Step-AllSound {n} (break key now error k) all = fail-AllSound key now error k n all
Step-AllSound {n} (reap now) all = reap-AllSound now n all

-- Whatever the order in which the sections of the worker threads run, with whatever outcomes and
-- however stale the retry counts they read, no job of the store ever has more retries than the
-- budget, or a status that is none of the five.
pub Reach-AllSound : {n o : ChordNode} → Reach n o → AllSound n → AllSound o
Reach-AllSound here all = all
Reach-AllSound (next r s) all = Step-AllSound s (Reach-AllSound r all)
