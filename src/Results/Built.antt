-- ===== src/Results/Built.antt =====
-- The records that storage/result_record.py builds.
use distributed_chord_infras.Common.{Bool, ℕ, ◌≡◌, some, true, false, not, refl, elem, subst}
use distributed_chord_infras.Results.{
  ResultInput, build_result_record, validate_result_record, after_demand, demand, valid_task_types,
  valid_statuses, valid_assigned_by, made,
}
use distributed_chord_infras.Network.{Result, ok}
use distributed_chord_infras.Records.{ResultRecord}
use distributed_chord_infras.Text.{is_empty}

demand-eq-ok :
    {B : Type 0} (b : Bool) (r : Result B) {x : B}
    → after_demand (demand b) r ≡ ok x
    → (b ≡ true) × (r ≡ ok x)
demand-eq-ok true r h = (refl, h)
demand-eq-ok false r h = cc

abbrev Good : ResultInput → ℕ → ResultRecord → Type 0
Good i now r =
    (validate_result_record r ≡ ok tt)
    × (r.task_id ≡ i.task_id)
    × (r.task_type ≡ i.task_type)
    × (r.status ≡ i.status)
    × (r.worker_id ≡ i.worker_id)
    × (r.attempt_count ≡ some i.attempt_count)
    × (r.created_at ≡ now)
    × (r.updated_at ≡ now)

-- A record that is built passes the check of the service, has the identifier, the type, the status
-- and the worker asked for, and starts with the attempts asked for and both dates at the present
-- time.
pub build_result_record-validate :
    (i : ResultInput) (now : ℕ) (r : ResultRecord)
    → build_result_record i now ≡ ok r
    → (validate_result_record r ≡ ok tt)
      × (r.task_id ≡ i.task_id)
      × (r.task_type ≡ i.task_type)
      × (r.status ≡ i.status)
      × (r.worker_id ≡ i.worker_id)
      × (r.attempt_count ≡ some i.attempt_count)
      × (r.created_at ≡ now)
      × (r.updated_at ≡ now)
unfolding build_result_record validate_result_record
build_result_record-validate i now r built =
    let (_, h1) = demand-eq-ok (not (is_empty i.task_id)) _ built in
    let (task_type, h2) = demand-eq-ok (elem i.task_type valid_task_types) _ h1 in
    let (status, h3) = demand-eq-ok (elem i.status valid_statuses) _ h2 in
    let (assigned, h4) = demand-eq-ok (elem i.assigned_by valid_assigned_by) _ h3 in
    let (worker, h5) = demand-eq-ok (not (is_empty i.worker_id)) _ h4 in
    let e : made i now ≡ r = inner h5 in
    subst (Good i now) e (
      rw status (rw task_type (rw assigned (rw worker refl))),
      refl,
      refl,
      refl,
      refl,
      refl,
      refl,
      refl,
    )
  where
    inner : {a b : ResultRecord} → ok a ≡ ok b → a ≡ b
    inner e = cc
