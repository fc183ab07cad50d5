-- ===== src/Jobs/Tests.antt =====
-- A node with one pending job.
use distributed_chord_infras.Node
use distributed_chord_infras.Common.Dict
use distributed_chord_infras.Jobs.Invariant.{AllSound, Reach, Reach-AllSound, Step, IsSound}
use distributed_chord_infras.Node.{ChordNode}
use distributed_chord_infras.Jobs.Attempts.{FailsAfter, run_all-failing, run_all-le}
use distributed_chord_infras.Records.{Job, Value}
use distributed_chord_infras.Common.{
  String, Bool-cases, map, none, some, ℕ, ◌∷◌, [], str_eq, suc, true, ◌≡◌, false, inl, ◌++◌, ◌+◌,
  refl, subst, ◌≤◌, arith, inr,
}
use distributed_chord_infras.Jobs.{
  begin_run, run_all, try_claim, job_at, raised, set_job, succeed, returned, with_job,
}
use distributed_chord_infras.Records.Dynamic.{Json}
use distributed_chord_infras.Jobs.Restart.{restart_loses_jobs}
use distributed_chord_infras.Jobs.Claims.{try_claim_exclusive}

-- The identifier of a key is the number of its characters.
abbrev digest : String → ℕ
digest String.[] = 0
digest (String.◌∷◌ c s) = suc (digest s)

abbrev waiting : Job
waiting = record {
  job_id = "1";
  type = "echo";
  payload = Json.null;
  status = "pending";
  created_at = 0;
  claimed_by = none;
  started_at = none;
  finished_at = none;
  result = Json.null;
  error = none;
  retry_count = none;
}

abbrev store : Dict.Dict Value
store = ("job:1", Value.job waiting) ∷ []

abbrev sample : ChordNode
sample = record {
  address = "h:1";
  node_id = 10;
  predecessor = none;
  fingers = λ i. record { start = 0; node_id = 10; node_address = "h:1" };
  data_store = store;
  jobs_completed = 0;
  jobs_failed = 0;
  pred_fail_count = 0;
  persistent = true;
  snapshot = some store;
}

program : Unit {0}
unfolding Dict.lookup Dict.insert try_claim set_job
program = tt

try_claim_exclusive_example :
    (j : Job) × (job_at "job:1" sample ≡ some j)
    × (job_at "job:1" (try_claim "job:1" 5 sample).1
        ≡ some (record j { status = "claimed"; claimed_by = some "h:1"; started_at = some 5 }))
    × (try_claim "job:1" 6 (try_claim "job:1" 5 sample).1 ≡ (false, (try_claim "job:1" 5 sample).1))
unfolding program
try_claim_exclusive_example =
    try_claim_exclusive "job:1" 5 6 sample (try_claim "job:1" 5 sample).1 refl refl

some_job : {a b : Job} → some a ≡ some b → a ≡ b
some_job e = cc

none_ne_some : {j : Job} → none ≡ some j → ⊥
none_ne_some e = cc

sample-AllSound : AllSound sample
unfolding program
sample-AllSound key j at = elim (Bool-cases (str_eq "job:1" key)) [
  | inl same ↦
      let found : some waiting ≡ some j = rw same at at in
      subst IsSound (some_job found) (omega arith, refl)
  | inr other ↦ let found : none ≡ some j = rw other at at in absurd (none_ne_some found)
]

abbrev run :
    Reach sample (succeed "job:1" 9 Json.null (begin_run "job:1" (try_claim "job:1" 5 sample).1))
run =
    Reach.next (Reach.next (Reach.next Reach.here (Step.claim "job:1" 5)) (Step.begin "job:1"))
      (Step.end "job:1" 9 Json.null)

Reach-AllSound_example :
    AllSound (succeed "job:1" 9 Json.null (begin_run "job:1" (try_claim "job:1" 5 sample).1))
Reach-AllSound_example = Reach-AllSound run sample-AllSound

restart_loses_jobs_example :
    (Node.new_node digest "h:1"
      (some 10)
      true
      (succeed "job:1" 9 Json.null
        (begin_run "job:1" (try_claim "job:1" 5 sample).1)).snapshot).data_store
    ≡ store
unfolding program begin_run succeed with_job
restart_loses_jobs_example =
    restart_loses_jobs digest sample
      (succeed "job:1" 9 Json.null (begin_run "job:1" (try_claim "job:1" 5 sample).1)) (refl, refl)
      run

run_all-le_example :
    (run_all "job:1" 5 (raised "a" ∷ returned Json.null ∷ raised "b" ∷ []) sample).0 + 0 ≤ 3 + 1
unfolding program
run_all-le_example =
    run_all-le "job:1" 5 (raised "a" ∷ returned Json.null ∷ raised "b" ∷ []) sample waiting refl
      (omega arith)

run_all-failing_example :
    FailsAfter "job:1"
      (run_all "job:1" 5
        (map raised ("a" ∷ "b" ∷ "c" ∷ "d" ∷ []) ++ (returned Json.null ∷ []))
        sample)
      4
unfolding program
run_all-failing_example =
    run_all-failing "job:1" 5 ("a" ∷ "b" ∷ "c" ∷ "d" ∷ []) (returned Json.null ∷ []) sample waiting
      refl refl refl (omega arith)
