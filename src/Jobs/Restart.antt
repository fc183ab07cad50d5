-- ===== src/Jobs/Restart.antt =====
-- What a restart makes of the jobs: chord/worker.py changes jobs in the store without
-- `_save_to_disk` of chord/node.py.
use distributed_chord_infras.Node
use distributed_chord_infras.Node.Laws.{IsSaved}
use distributed_chord_infras.Node.{ChordNode}
use distributed_chord_infras.Common.{
  String, ℕ, ◌≡◌, Bool-cases, Option-cases, some, ltb, ◌∙◌, inl, refl, inr, str_eq, ◌+◌,
}
use distributed_chord_infras.Jobs.{
  begin_run, fail, set_job, with_job, succeed, reap_timed_out_jobs, try_claim, job_at,
  max_job_retries, requeued, started, failed, finished, attempt_failed,
}
use distributed_chord_infras.Records.{Job}
use distributed_chord_infras.Jobs.Invariant.{Reach, Step, claim, begin, end, break, reap}
use distributed_chord_infras.Jobs.Claims.{try_claim-none, try_claim_pending, try_claim_other}

abbrev SameFile : ChordNode → ChordNode → Type 0
SameFile n o = (o.snapshot ≡ n.snapshot) × (o.persistent ≡ n.persistent)

with_job-SameFile : (key : String) (f : Job → Job) (n : ChordNode) → SameFile n (with_job key f n)
unfolding with_job set_job
with_job-SameFile key f n = elim (Option-cases (job_at key n)) [
  | inl gone ↦ rw (gone, with_job) (refl, refl)
  | inr (j, at) ↦ rw (at, with_job) (refl, refl)
]

try_claim-SameFile : (key : String) (now : ℕ) (n : ChordNode) → SameFile n (try_claim key now n).1
unfolding set_job
try_claim-SameFile key now n = elim (Option-cases (job_at key n)) [
  | inl gone ↦ rw (try_claim-none key now n gone) (refl, refl)
  | inr (j, at) ↦ elim (Bool-cases (str_eq j.status "pending")) [
    | inl pending ↦ rw (try_claim_pending key now n j at pending) (refl, refl)
    | inr other ↦ rw (try_claim_other key now n j at other) (refl, refl)
  ]
]

fail-SameFile :
    (key : String) (now : ℕ) (error : String) (k : ℕ) (n : ChordNode)
    → SameFile n (fail key now error k n)
unfolding fail
fail-SameFile key now error k n = elim (Bool-cases (ltb k max_job_retries)) [
  | inl left ↦ rw left (with_job-SameFile key (requeued (k + 1) (attempt_failed (k + 1) error)) n)
  | inr spent ↦ rw spent (with_job-SameFile key (failed now error) n)
]

Step-SameFile : {n o : ChordNode} → Step n o → SameFile n o
unfolding begin_run succeed reap_timed_out_jobs
Step-SameFile {n} (claim key now) = try_claim-SameFile key now n
Step-SameFile {n} (begin key) = with_job-SameFile key started n
Step-SameFile {n} (end key now result) = with_job-SameFile key (finished now result) n
Step-SameFile {n} (break key now error k) = fail-SameFile key now error k n
Step-SameFile {n} (reap now) = (refl, refl)

Reach-SameFile : {n o : ChordNode} → Reach n o → SameFile n o
Reach-SameFile Reach.here = (refl, refl)
Reach-SameFile (Reach.next r s) =
    let (p, q) = Reach-SameFile r in let (p', q') = Step-SameFile s in (p' ∙ p, q' ∙ q)

-- A node whose file holds its store goes back to that store when it restarts, whatever the worker
-- threads have done since: every claim, result and failure of a job in between is lost.
pub restart_loses_jobs :
    (digest : String → ℕ) (n o : ChordNode)
    → IsSaved n
    → Reach n o
    → (Node.new_node digest o.address (some o.node_id) o.persistent o.snapshot).data_store
      ≡ n.data_store
unfolding Node.new_node
restart_loses_jobs digest n o saved r =
    let (p, q) = Reach-SameFile r in rw (q ∙ saved.0) (rw (p ∙ saved.1) refl)
