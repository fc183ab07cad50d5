-- ===== src/Schema/Laws.antt =====
-- What the functions of storage/schema.py guarantee about the records they return.
use distributed_chord_infras.Common.Dict
use distributed_chord_infras.Schema.{
  ◌>>=◌, ◌>>◌, validate_task_record, require, touch, patch_status, task_schema_version,
  task_statuses, known_status, build_task_key, patch_error, patch_payload, patch_priority,
  update_task_record, allowed, patch_result,
}
use distributed_chord_infras.Common.{
  Bool, Option, ℕ, ◌∙◌, ◌≡◌, refl, elem, subst, true, ◌+◌, ◌↔◌, false, some, sym, ◌==◌, ==_iff,
  if◌then◌else◌, str_eq, none, String, ap, ◌∷◌, [], ◌++◌, Bool-cases, inl, inr, ◌⊎◌,
}
use distributed_chord_infras.Network.{Result, ok, err, Error}
use distributed_chord_infras.Records.{TaskRecord, Placement}
use distributed_chord_infras.Records.Dynamic.{Json, is_int, is_object}
use distributed_chord_infras.Text.{strip}
use distributed_chord_infras.Text.Strip.{strip-strip}

-- Inversion of a chain that succeeds.
pub >>=-eq-ok :
    {A B : Type 0} (r : Result A) (f : A → Result B) {b : B}
    → (r >>= f) ≡ ok b
    → (a : A) × (r ≡ ok a) × (f a ≡ ok b)
>>=-eq-ok (ok a) f h = (a, refl, h)
>>=-eq-ok (err e) f h = cc

pub require-eq-ok : (b : Bool) → require b ≡ ok tt → b ≡ true
require-eq-ok true h = refl
require-eq-ok false h = cc

pub >>-eq-ok :
    {B : Type 0} (b : Bool) (r : Result B) {x : B}
    → (require b >> r) ≡ ok x
    → (b ≡ true) × (r ≡ ok x)
>>-eq-ok true r h = (refl, h)
>>-eq-ok false r h = cc

-- A record that the check accepts.
abbrev pub IsValid : TaskRecord → Type 0
IsValid r = (r.schema_version ≡ task_schema_version) × (elem r.status task_statuses ≡ true)

pub validate_iff : (r : TaskRecord) → (validate_task_record r ≡ ok tt) ↔ IsValid r
unfolding validate_task_record
validate_iff r = (
  λ h.
      let (v, rest) = >>-eq-ok (r.schema_version == task_schema_version) _ h in
      ((==_iff _ _).0 v, require-eq-ok (elem r.status task_statuses) rest),
  λ valid. rw ((==_iff _ _).1 valid.0) (rw valid.1 refl),
)

pub validate-cases :
    (r : TaskRecord)
    → (validate_task_record r ≡ ok tt) ⊎ (validate_task_record r ≡ err Error.validation)
unfolding validate_task_record
validate-cases r = elim (Bool-cases (r.schema_version == task_schema_version)) [
  | inr other ↦ inr (rw other refl)
  | inl same ↦ elim (Bool-cases (elem r.status task_statuses)) [
    | inl known ↦ inl (rw same (rw known refl))
    | inr unknown ↦ inr (rw same (rw unknown refl))
  ]
]

-- What identifies a task, and its version.
abbrev Identity : Type 0
Identity = String × String × String × ℕ × Placement × ℕ

abbrev identity : TaskRecord → Identity
identity r = (r.task_id, r.job_id, r.type, r.created_at, r.placement, r.version)

abbrev SameTask : TaskRecord → TaskRecord → Type 0
SameTask r q = identity q ≡ identity r

touch-eq-ok :
    (now : ℕ) (r q : TaskRecord)
    → touch now r ≡ ok q
    → IsValid q × (q ≡ record r { updated_at = now; version = r.version + 1 })
touch-eq-ok now r q h =
    let r' : TaskRecord = record r { updated_at = now; version = r.version + 1 } in
    let (_, checked, e) = >>=-eq-ok (validate_task_record r') (λ _. ok r') h in
    let same : r' ≡ q = cc in (subst IsValid same ((validate_iff r').0 checked), sym same)

patch_status-SameTask :
    (v : Option Json) (r q : TaskRecord) → patch_status v r ≡ ok q → SameTask r q
patch_status-SameTask none r q h = let same : r ≡ q = cc in ap identity (sym same)
patch_status-SameTask (some v) r q h =
    let (s, known, e) = >>=-eq-ok (known_status v) _ h in
    let r' : TaskRecord = record r {
      status = s;
      deleted = if str_eq s "DELETED" then true else r.deleted;
    } in
    let same : r' ≡ q = cc in ap identity (sym same)

patch_plain-SameTask :
    (v w : Option Json) (r : TaskRecord) → SameTask r (patch_error w (patch_result v r))
patch_plain-SameTask none none r = refl
patch_plain-SameTask none (some w) r = refl
patch_plain-SameTask (some v) none r = refl
patch_plain-SameTask (some v) (some w) r = refl

patch_payload-SameTask :
    (v : Option Json) (r q : TaskRecord) → patch_payload v r ≡ ok q → SameTask r q
patch_payload-SameTask none r q h = let same : r ≡ q = cc in ap identity (sym same)
patch_payload-SameTask (some v) r q h =
    let r' : TaskRecord = record r { payload = v } in
    let (_, e) = >>-eq-ok (is_object v) (ok r') h in
    let same : r' ≡ q = cc in ap identity (sym same)

patch_priority-SameTask :
    (v : Option Json) (r q : TaskRecord) → patch_priority v r ≡ ok q → SameTask r q
patch_priority-SameTask none r q h = let same : r ≡ q = cc in ap identity (sym same)
patch_priority-SameTask (some v) r q h =
    let r' : TaskRecord = record r { priority = v } in
    let (_, e) = >>-eq-ok (is_int v) (ok r') h in let same : r' ≡ q = cc in ap identity (sym same)

-- An update that succeeds returns a record that the check accepts, with the version one higher,
-- the time of the update, and the identifiers, the type, the date of creation and the placement of
-- the old record.
pub update_task_record-IsValid :
    (r q : TaskRecord) (patch : Dict.Dict Json) (now : ℕ)
    → update_task_record r patch now ≡ ok q
    → IsValid q
      × (q.version ≡ r.version + 1)
      × (q.updated_at ≡ now)
      × (q.task_id ≡ r.task_id)
      × (q.job_id ≡ r.job_id)
      × (q.type ≡ r.type)
      × (q.created_at ≡ r.created_at)
      × (q.placement ≡ r.placement)
unfolding update_task_record
update_task_record-IsValid r q patch now h =
    let (_, _, h1) = >>=-eq-ok (allowed patch) _ h in
    let (r1, e1, h2) = >>=-eq-ok (patch_status (Dict.lookup "status" patch) r) _ h1 in
    let r2 =
      patch_error (Dict.lookup "error" patch) (patch_result (Dict.lookup "result" patch) r1) in
    let (r3, e3, h3) = >>=-eq-ok (patch_payload (Dict.lookup "payload" patch) r2) _ h2 in
    let (r4, e4, h4) = >>=-eq-ok (patch_priority (Dict.lookup "priority" patch) r3) _ h3 in
    let (valid, e) = touch-eq-ok now r4 q h4 in
    let same =
      patch_priority-SameTask (Dict.lookup "priority" patch) r3 r4 e4
      ∙ patch_payload-SameTask (Dict.lookup "payload" patch) r2 r3 e3
      ∙ patch_plain-SameTask (Dict.lookup "result" patch) (Dict.lookup "error" patch) r1
      ∙ patch_status-SameTask (Dict.lookup "status" patch) r r1 e1 in
    (
      valid,
      ap (λ x. x.version) e ∙ ap (λ (x : Identity). x.5 + 1) same,
      ap (λ x. x.updated_at) e,
      ap (λ x. x.task_id) e ∙ ap (λ (x : Identity). x.0) same,
      ap (λ x. x.job_id) e ∙ ap (λ (x : Identity). x.1) same,
      ap (λ x. x.type) e ∙ ap (λ (x : Identity). x.2) same,
      ap (λ x. x.created_at) e ∙ ap (λ (x : Identity). x.3) same,
      ap (λ x. x.placement) e ∙ ap (λ (x : Identity). x.4) same,
    )

-- A patch with a field that may not be updated is refused.
pub update_task_record-refuses :
    (r : TaskRecord) (field : String) (v : Json) (before after : Dict.Dict Json) (now : ℕ)
    → elem field ("status" ∷ "result" ∷ "error" ∷ "payload" ∷ "priority" ∷ []) ≡ false
    → update_task_record r (before ++ ((field, v) ∷ after)) now ≡ err Error.validation
unfolding update_task_record
update_task_record-refuses r field v before after now unknown = rw (allowed_refuses before) refl
  where
    allowed_refuses :
        (before : Dict.Dict Json) → allowed (before ++ ((field, v) ∷ after)) ≡ err Error.validation
    allowed_refuses [] = rw unknown refl
    allowed_refuses ((g, w) ∷ rest) =
        elim (Bool-cases (elem g ("status" ∷ "result" ∷ "error" ∷ "payload" ∷ "priority" ∷ []))) [
          | inl known ↦ rw known (allowed_refuses rest)
          | inr other ↦ rw other refl
        ]

-- The key of a stripped identifier is the key of the identifier.
pub build_task_key-strip :
    (task_id : String) → build_task_key (strip task_id) ≡ build_task_key task_id
unfolding build_task_key
build_task_key-strip task_id = rw (strip-strip task_id) refl
