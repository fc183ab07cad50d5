-- ===== src/Tasks/Query.antt =====
-- `query_local_tasks` of storage/task_service.py.
use distributed_chord_infras.Common.Dict
use distributed_chord_infras.Common.{
  Option, List, String, Bool, ◌≡◌, [], none, true, ℕ, ◌||◌, ◌∷◌, not, some, take, if◌then◌else◌,
  max, str_eq, ◌-◌, filter, leb, ◌&&◌, suc, inl, inr, Bool-cases, ap, arith, false, zero, refl,
}
use distributed_chord_infras.Records.{Value, TaskRecord}
use distributed_chord_infras.Schema.{as_task}
use distributed_chord_infras.Node.{ChordNode}
use distributed_chord_infras.Text.{is_empty}

-- The test of `query_local_tasks`; an empty text given is no condition.
abbrev pub fits : Option String → String → Bool
fits none s = true
fits (some wanted) s = is_empty wanted || str_eq s wanted

abbrev pub selected : Option String → Option String → Bool → TaskRecord → Bool
selected job_id status include_deleted t =
    (include_deleted || not (str_eq t.status "DELETED"))
    && fits job_id t.job_id
    && fits status t.status

-- The task, if the query selects it.
abbrev pub chosen : Option String → Option String → Bool → Option TaskRecord → Option TaskRecord
chosen job_id status include_deleted none = none
chosen job_id status include_deleted (some t) =
    if selected job_id status include_deleted t then some t else none

-- The loop of `query_local_tasks`, with the number of tasks that are still wanted: it looks at the
-- limit only after it has added a task.
abbrev pub wanted_after : Option TaskRecord → ℕ → ℕ
wanted_after none limit = limit
wanted_after (some t) limit = limit - 1

abbrev pub add_found : Option TaskRecord → ℕ → List TaskRecord → List TaskRecord
add_found none limit rest = rest
add_found (some t) limit rest = if leb limit 1 then t ∷ [] else t ∷ rest

unfoldable pub query_entries :
    Option String → Option String → Bool → ℕ → Dict.Dict Value → List TaskRecord
query_entries job_id status include_deleted limit [] = []
query_entries job_id status include_deleted limit ((k, v) ∷ d) =
    let found = chosen job_id status include_deleted (as_task v) in
    let rest = query_entries job_id status include_deleted (wanted_after found limit) d in
    add_found found limit rest

unfoldable pub query_local_tasks :
    Option String → Option String → Bool → ℕ → ChordNode → List TaskRecord
query_local_tasks job_id status include_deleted limit n =
    query_entries job_id status include_deleted limit n.data_store

-- `[v for v in d.values() if is_task_record(v)]`
abbrev pub with_task : Option TaskRecord → List TaskRecord → List TaskRecord
with_task none ts = ts
with_task (some t) ts = t ∷ ts

abbrev pub tasks : Dict.Dict Value → List TaskRecord
tasks [] = []
tasks ((k, v) ∷ d) = with_task (as_task v) (tasks d)

last_one : (limit : ℕ) → leb limit 1 ≡ true → max 1 limit ≡ suc 0
last_one limit last = ground arith

room_left : (limit : ℕ) → leb limit 1 ≡ false → max 1 limit ≡ suc (max 1 (limit - 1))
room_left limit room = ground arith

take_nil : (k : ℕ) → ◌≡◌ {A = List TaskRecord} [] (take k [])
take_nil zero = refl
take_nil (suc k) = refl

module _ (job_id status : Option String) (include_deleted : Bool) where
  abbrev Agrees : ℕ → List TaskRecord → List TaskRecord → Type 0
  Agrees limit found ts =
      found ≡ take (max 1 limit) (filter (selected job_id status include_deleted) ts)

  add_found-take :
      (o : Option TaskRecord) (limit : ℕ) (ts : List TaskRecord) (query : ℕ → List TaskRecord)
      → ((l : ℕ) → Agrees l (query l) ts)
      → Agrees limit
          (add_found
            (chosen job_id status include_deleted o)
            limit
            (query (wanted_after (chosen job_id status include_deleted o) limit)))
          (with_task o ts)
  add_found-take none limit ts query ih = ih limit
  add_found-take (some t) limit ts query ih =
      elim (Bool-cases (selected job_id status include_deleted t)) [
        | inr unwanted ↦ rw unwanted (ih limit)
        | inl wanted ↦ elim (Bool-cases (leb limit 1)) [
          | inl last ↦ rw wanted (rw last (rw (last_one limit last) refl))
          | inr room ↦
              rw wanted (rw room (rw (room_left limit room) (ap (λ us. t ∷ us) (ih (limit - 1)))))
        ]
      ]

  query_entries-take :
      (limit : ℕ) (d : Dict.Dict Value)
      → Agrees limit (query_entries job_id status include_deleted limit d) (tasks d)
  unfolding query_entries
  query_entries-take limit [] = take_nil (max 1 limit)
  query_entries-take limit ((k, v) ∷ d) =
      add_found-take (as_task v) limit (tasks d)
        (λ l. query_entries job_id status include_deleted l d) (λ l. query_entries-take l d)

-- A query returns the first tasks of the store, in its order, that have the job and the status
-- asked for and are not deleted unless deleted ones are asked for: as many as the limit allows, and
-- one where the limit is 0.
pub query_local_tasks-take :
    (job_id status : Option String) (include_deleted : Bool) (limit : ℕ) (n : ChordNode)
    → query_local_tasks job_id status include_deleted limit n
      ≡ take (max 1 limit) (filter (selected job_id status include_deleted) (tasks n.data_store))
unfolding query_local_tasks
query_local_tasks-take job_id status include_deleted limit n =
    query_entries-take job_id status include_deleted limit n.data_store
