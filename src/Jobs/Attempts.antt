-- ===== src/Jobs/Attempts.antt =====
-- How often a job is executed: the retries of `_run_job` in chord/worker.py.
use distributed_chord_infras.Common.{
  String, ℕ, List, if◌then◌else◌, ltb, ◌≡◌, some, str_eq, ◌≤◌, false, true, ◌+◌, Bool-cases, ◌∷◌,
  [], inl, inr, refl, arith, length, map, ◌∙◌, ◌++◌,
}
use distributed_chord_infras.Jobs.{
  run_all, run_job, with_job, Outcome, fail, succeed, begin_run, job_at, read_retries, retries,
  max_job_retries, raised, requeued, returned, finished, started, failed, set_job, attempt_failed,
}
use distributed_chord_infras.Records.{Job}
use distributed_chord_infras.Node.{ChordNode}
use distributed_chord_infras.Records.Dynamic.{Json}
use distributed_chord_infras.Jobs.Claims.{job_at-set_job_self, try_claim_other, try_claim_pending}

abbrev claimed_job : ChordNode → ℕ → Job → Job
claimed_job n now j = record j {
  status = "claimed";
  claimed_by = some n.address;
  started_at = some now;
}

-- A job that is not pending is not run.
run_all_idle :
    (key : String) (now : ℕ) (os : List Outcome) (n : ChordNode) (j : Job)
    → job_at key n ≡ some j
    → str_eq j.status "pending" ≡ false
    → run_all key now os n ≡ (0, n)
unfolding run_all
run_all_idle key now [] n j at idle = refl
run_all_idle key now (o ∷ os) n j at idle = rw (try_claim_other key now n j at idle) refl

with_job_lem :
    (key : String) (f : Job → Job) (n : ChordNode) (j : Job)
    → job_at key n ≡ some j
    → job_at key (with_job key f n) ≡ some (f j)
unfolding with_job
with_job_lem key f n j at = rw (at, with_job) (job_at-set_job_self key (f j) n)

-- One execution that returns.
run_job_returned :
    (key : String) (now : ℕ) (result : Json) (n : ChordNode) (j : Job)
    → job_at key n ≡ some j
    → job_at key (run_job key now (returned result) n) ≡ some (finished now result (started j))
unfolding run_job succeed begin_run
run_job_returned key now result n j at =
    with_job_lem key (finished now result) (with_job key started n) (started j)
      (with_job_lem key started n j at)

-- One execution that raises: the job goes back, or fails for good.
abbrev after_failure : ℕ → String → Job → Job
after_failure now error j =
    if ltb (retries j) max_job_retries
    then requeued (retries j + 1) (attempt_failed (retries j + 1) error) (started j)
    else failed now error (started j)

run_job_raised :
    (key : String) (now : ℕ) (error : String) (n : ChordNode) (j : Job)
    → job_at key n ≡ some j
    → job_at key (run_job key now (raised error) n) ≡ some (after_failure now error j)
unfolding run_job fail begin_run read_retries
run_job_raised key now error n j at =
    let n' = with_job key started n in
    let found = with_job_lem key started n j at in
    rw (found, read_retries)
      (elim (Bool-cases (ltb (retries j) max_job_retries)) [
        | inl left ↦ rw left (
            with_job_lem key (requeued (retries j + 1) (attempt_failed (retries j + 1) error)) n'
              (started j) found)
        | inr spent ↦ rw spent (with_job_lem key (failed now error) n' (started j) found)
      ])

run_all_claim :
    (key : String) (now : ℕ) (o : Outcome) (os : List Outcome) (n : ChordNode) (j : Job)
    → job_at key n ≡ some j
    → str_eq j.status "pending" ≡ true
    → (n' : ChordNode) × (job_at key n'
        ≡ some
            (record j { status = "claimed"; claimed_by = some n.address; started_at = some now }))
      × (run_all key now (o ∷ os) n ≡ (
        (run_all key now os (run_job key now o n')).0 + 1,
        (run_all key now os (run_job key now o n')).1,
      ))
unfolding run_all
run_all_claim key now o os n j at pending =
    let j' : Job = record j {
      status = "claimed";
      claimed_by = some n.address;
      started_at = some now;
    } in
    (
      set_job key j' n,
      job_at-set_job_self key j' n,
      rw (try_claim_pending key now n j at pending) refl,
    )

run_all_nil : (key : String) (now : ℕ) (n : ChordNode) → run_all key now [] n ≡ (0, n)
unfolding run_all
run_all_nil key now n = refl

-- The rest of a run, after one execution of a claimed job.
rest-le :
    (key : String) (now : ℕ) (o : Outcome) (os : List Outcome) (n : ChordNode) (j : Job)
    → job_at key n ≡ some j
    → retries j ≤ max_job_retries
    → ((j' : Job)
        → job_at key (run_job key now o n) ≡ some j'
        → retries j' ≤ max_job_retries
        → (run_all key now os (run_job key now o n)).0 + retries j' ≤ max_job_retries + 1)
    → (run_all key now os (run_job key now o n)).0 + 1 + retries j ≤ max_job_retries + 1
rest-le key now (returned result) os n j at fits ih =
    let found = run_job_returned key now result n j at in
    let idle = run_all_idle key now os (run_job key now (returned result) n) _ found refl in
    rw idle (omega arith)
rest-le key now (raised error) os n j at fits ih =
    let found = run_job_raised key now error n j at in
    elim (Bool-cases (ltb (retries j) max_job_retries)) [
      | inl left ↦
          let again =
            ih (requeued (retries j + 1) (attempt_failed (retries j + 1) error) (started j))
              (found ∙ (rw left refl)) (ground arith) in
          omega arith
      | inr spent ↦
          let idle =
            run_all_idle key now os (run_job key now (raised error) n)
              (failed now error (started j)) (found ∙ (rw spent refl)) refl in
          rw idle (omega arith)
    ]

-- However its executions end, a job is executed at most once and then once for each retry that is
-- left in the budget.
pub run_all-le :
    (key : String) (now : ℕ) (os : List Outcome) (n : ChordNode) (j : Job)
    → job_at key n ≡ some j
    → retries j ≤ max_job_retries
    → (run_all key now os n).0 + retries j ≤ max_job_retries + 1
run_all-le key now [] n j at fits = rw run_all_nil (omega arith)
run_all-le key now (o ∷ os) n j at fits = elim (Bool-cases (str_eq j.status "pending")) [
  | inr idle ↦ rw (run_all_idle key now (o ∷ os) n j at idle) (omega arith)
  | inl pending ↦
      let (n', claimed, e) = run_all_claim key now o os n j at pending in
      rw e (
        rest-le key now o os n' (claimed_job n now j) claimed fits
          (λ j' at' fits'. run_all-le key now os (run_job key now o n') j' at' fits'))
]

-- A run that has failed for good after so many executions.
abbrev pub FailsAfter : String → ℕ × ChordNode → ℕ → Type 0
FailsAfter key (count, n) k =
    (count ≡ k) × (j : Job) × (job_at key n ≡ some j) × (j.status ≡ "failed")

rest-FailsAfter :
    (key : String) (now : ℕ) (e : String) (os : List Outcome) (k : ℕ) (n : ChordNode) (j : Job)
    → job_at key n ≡ some j
    → k + 1 + retries j ≡ max_job_retries + 1
    → ((j' : Job)
        → job_at key (run_job key now (raised e) n) ≡ some j'
        → str_eq j'.status "pending" ≡ true
        → k + retries j' ≡ max_job_retries + 1
        → retries j' ≤ max_job_retries
        → FailsAfter key (run_all key now os (run_job key now (raised e) n)) k)
    → FailsAfter key (run_all key now os (run_job key now (raised e) n)) k
rest-FailsAfter key now e os k n j at all ih =
    let found = run_job_raised key now e n j at in
    elim (Bool-cases (ltb (retries j) max_job_retries)) [
      | inl left ↦
          ih (requeued (retries j + 1) (attempt_failed (retries j + 1) e) (started j))
            (found ∙ (rw left refl)) refl (omega arith) (ground arith)
      | inr spent ↦
          let lost : job_at key (run_job key now (raised e) n) ≡ some (failed now e (started j)) =
            found ∙ (rw spent refl) in
          let idle = run_all_idle key now os (run_job key now (raised e) n) _ lost refl in
          rw idle (ground arith, failed now e (started j), lost, refl)
    ]

-- A pending job all of whose executions raise is executed once and then once for each retry that
-- is left, and fails for good; outcomes beyond those are not used.
pub run_all-failing :
    (key : String) (now : ℕ) (es : List String) (os : List Outcome) (n : ChordNode) (j : Job)
    → job_at key n ≡ some j
    → str_eq j.status "pending" ≡ true
    → length es + retries j ≡ max_job_retries + 1
    → retries j ≤ max_job_retries
    → FailsAfter key (run_all key now (map raised es ++ os) n) (length es)
run_all-failing key now [] os n j at pending all fits = absurd (omega arith)
run_all-failing key now (e ∷ es) os n j at pending all fits =
    let (n', claimed, eq) = run_all_claim key now (raised e) (map raised es ++ os) n j at pending in
    let (count, j', last, status) =
      rest-FailsAfter key now e (map raised es ++ os) (length es) n' (claimed_job n now j) claimed
        (omega arith)
        (λ j' at' p' all' fits'.
          run_all-failing key now es os (run_job key now (raised e) n') j' at' p' all' fits') in
    rw eq (omega (arith, count), j', last, status)
