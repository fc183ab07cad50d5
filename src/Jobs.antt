-- ===== src/Jobs.antt =====
-- The jobs of chord/job.py and the thread that runs them, `class WorkerThread` of chord/worker.py.
-- Each function is one section under the node's lock. What a job's execution returns or raises is
-- an argument: `_execute` sleeps, echoes and adds, and its values are copied into the job.
pub mod Claims
pub mod Invariant
pub mod Attempts
pub mod Restart
mod Tests
use Prim.Native.String.{◌++◌ as text_append}
use text.Mathlib.Text.{starts_with}
use distributed_chord_infras.Node.{ChordNode}
use distributed_chord_infras.Common.Dict
use distributed_chord_infras.Records.{Value, Job}
use distributed_chord_infras.Common.Dict.{Dict}
use distributed_chord_infras.Records.Dynamic.{Json}
use distributed_chord_infras.Common.{
  List, Option, String, ℕ, Bool, [], if◌then◌else◌, some, ◌+◌, ◌∷◌, ltb, none, false, ◌&&◌, ◌==◌,
  str_eq, true, ◌-◌,
}
use distributed_chord_infras.Text.{is_empty, decimal}

-- `make_job`: the identifier given, or else the fresh one.
unfoldable pub make_job : String → Json → Option String → String → ℕ → Job
make_job type payload given fresh now = record {
  job_id = elim given [ none ↦ fresh | some id ↦ if is_empty id then fresh else id ];
  type = type;
  payload = payload;
  status = "pending";
  created_at = now;
  claimed_by = none;
  started_at = none;
  finished_at = none;
  result = Json.null;
  error = none;
  retry_count = none;
}

unfoldable pub job_key : String → String
job_key job_id = text_append "job:" job_id

-- `JOB_TIMEOUT` and `MAX_JOB_RETRIES`
abbrev pub job_timeout : ℕ
job_timeout = 120

abbrev pub max_job_retries : ℕ
max_job_retries = 3

-- `.get("retry_count", 0)`
abbrev pub retries : Job → ℕ
retries j = elim j.retry_count [ none ↦ 0 | some k ↦ k ]

-- The job under a key; the scan and the claim pass over any other value.
abbrev pub as_job : Option Value → Option Job
as_job none = none
as_job (some (Value.job j)) = some j
as_job (some _) = none

abbrev pub job_at : String → ChordNode → Option Job
job_at key n = as_job (Dict.lookup key n.data_store)

-- `self.node.data_store[key] = ...`, which does not write the file.
unfoldable pub set_job : String → Job → ChordNode → ChordNode
set_job key j n = record n { data_store = Dict.insert key (Value.job j) n.data_store }

-- The keys that `_scan_and_claim` finds pending.
unfoldable pub pending_jobs : Dict Value → List String
pending_jobs [] = []
pending_jobs ((k, v) ∷ d) =
    let rest = pending_jobs d in
    elim (as_job (some v)) [
      | none ↦ rest
      | some j ↦ if starts_with k "job:" && str_eq j.status "pending" then k ∷ rest else rest
    ]

-- `_try_claim`
unfoldable pub try_claim : String → ℕ → ChordNode → Bool × ChordNode
try_claim key now n = elim (job_at key n) [
  | none ↦ (false, n)
  | some j ↦
      if str_eq j.status "pending"
      then (
        true,
        set_job key
            (record j { status = "claimed"; claimed_by = some n.address; started_at = some now }) n,
      )
      else (false, n)
]

-- The loop of `_scan_and_claim`: the keys that this thread submits to its pool.
unfoldable pub claim_all : List String → ℕ → ChordNode → List String × ChordNode
claim_all [] now n = ([], n)
claim_all (key ∷ keys) now n =
    let (claimed, n') = try_claim key now n in
    let (rest, n'') = claim_all keys now n' in (if claimed then key ∷ rest else rest, n'')

unfoldable pub scan_and_claim : ℕ → ChordNode → List String × ChordNode
scan_and_claim now n = claim_all (pending_jobs n.data_store) now n

-- The sections of `_run_job`: the start, the success, and the two ends of a failure.
unfoldable pub with_job : String → (Job → Job) → ChordNode → ChordNode
with_job key f n = elim (job_at key n) [ none ↦ n | some j ↦ set_job key (f j) n ]

abbrev pub started : Job → Job
started j = record j { status = "running" }

abbrev pub finished : ℕ → Json → Job → Job
finished now result j = record j { status = "done"; finished_at = some now; result = result }

abbrev pub requeued : ℕ → String → Job → Job
requeued next_retry error j = record j {
  status = "pending";
  retry_count = some next_retry;
  started_at = none;
  error = some error;
}

abbrev pub failed : ℕ → String → Job → Job
failed now error j = record j { status = "failed"; finished_at = some now; error = some error }

unfoldable pub begin_run : String → ChordNode → ChordNode
begin_run key = with_job key started

unfoldable pub succeed : String → ℕ → Json → ChordNode → ChordNode
succeed key now result n =
    let n' = with_job key (finished now result) n in
    record n' { jobs_completed = n'.jobs_completed + 1 }

-- The retry count that the handler reads: a job that is gone counts as spent.
unfoldable pub read_retries : String → ChordNode → ℕ
read_retries key n = elim (job_at key n) [ none ↦ max_job_retries | some j ↦ retries j ]

-- The texts of the errors.
unfoldable pub attempt_failed : ℕ → String → String
unfolding decimal
attempt_failed k error =
    text_append "attempt " (text_append (decimal k) (text_append " failed: " error))

unfoldable pub timed_out_retry : ℕ → String
unfolding decimal
timed_out_retry k = text_append "timed out after " (
    text_append (decimal job_timeout) (
      text_append "s (retry "
        (text_append (decimal k) (text_append "/" (text_append (decimal max_job_retries) ")")))))

unfoldable pub timed_out : String
unfolding decimal
timed_out = text_append "timed out after " (
    text_append (decimal job_timeout)
      (text_append "s (exhausted " (text_append (decimal max_job_retries) " retries)")))

unfoldable pub fail : String → ℕ → String → ℕ → ChordNode → ChordNode
fail key now error retry_count n =
    if ltb retry_count max_job_retries
    then with_job key (requeued (retry_count + 1) (attempt_failed (retry_count + 1) error)) n
    else let n' = with_job key (failed now error) n in
      record n' { jobs_failed = n'.jobs_failed + 1 }

-- What execution does: a result, or an exception with its text.
pub data Outcome : Type 0 where
  returned : Json → Outcome
  raised : String → Outcome

-- `_run_job`, with no other thread between its sections.
unfoldable pub run_job : String → ℕ → Outcome → ChordNode → ChordNode
run_job key now (returned result) n = succeed key now result (begin_run key n)
run_job key now (raised error) n =
    let n' = begin_run key n in fail key now error (read_retries key n') n'

-- `v.get("started_at") or now`
abbrev pub start_of : ℕ → Option ℕ → ℕ
start_of now none = now
start_of now (some t) = if t == 0 then now else t

abbrev pub is_expired : ℕ → Job → Bool
is_expired now j = str_eq j.status "running" && ltb job_timeout (now - start_of now j.started_at)

-- `_reap_timed_out_jobs` on one entry: the entry, and whether a job failed for good.
unfoldable pub reap_job : ℕ → Job → Job × Bool
reap_job now j =
    if is_expired now j
    then (if ltb (retries j) max_job_retries
        then (requeued (retries j + 1) (timed_out_retry (retries j + 1)) j, false)
        else (failed now timed_out j, true))
    else (j, false)

unfoldable pub reap_value : ℕ → String → Value → Value × Bool
reap_value now k v = elim (as_job (some v)) [
  | none ↦ (v, false)
  | some j ↦
      if starts_with k "job:"
      then (Value.job (reap_job now j).0, (reap_job now j).1)
      else (v, false)
]

unfoldable pub reap_entries : ℕ → Dict Value → Dict Value × ℕ
reap_entries now [] = ([], 0)
reap_entries now ((k, v) ∷ d) =
    let (v', lost) = reap_value now k v in
    let (d', count) = reap_entries now d in ((k, v') ∷ d', (if lost then 1 else 0) + count)

unfoldable pub reap_timed_out_jobs : ℕ → ChordNode → ChordNode
reap_timed_out_jobs now n =
    let (d, count) = reap_entries now n.data_store in
    record n { data_store = d; jobs_failed = n.jobs_failed + count }

-- A job taken again and again by one thread: claimed, run with the next outcome, until no claim
-- succeeds. The number of executions, and the node.
unfoldable pub run_all : String → ℕ → List Outcome → ChordNode → ℕ × ChordNode
run_all key now [] n = (0, n)
run_all key now (o ∷ os) n =
    let (claimed, n') = try_claim key now n in
    let (count, n'') = run_all key now os (run_job key now o n') in
    if claimed then (count + 1, n'') else (0, n')
