-- ===== src/Assignments/Local.antt =====
-- `append_local` and `remove_local` of storage/worker_assignment.py at the primary.
use distributed_chord_infras.Node
use distributed_chord_infras.Lookup.{here}
use distributed_chord_infras.Common.{
  String, ℕ, List, Option, ◌≡◌, some, refl, none, true, ◌++◌, ◌∷◌, [], elem, Bool-cases, inl, inr,
  ◌∙◌, false, subst, ap, sym,
}
use distributed_chord_infras.Assignments.{
  without, append_local, remove_local, tasks_of, as_worker, write_local, appended_record,
  replica_key, build_worker_key, Changed, unchanged, new_record, bump, primary_or_owner,
  remove_from,
}
use distributed_chord_infras.Node.{ChordNode}
use distributed_chord_infras.Records.{WorkerRecord, NodeRef, Value}
use distributed_chord_infras.Network.{World, Cluster, Result, set_node, ok}
use distributed_chord_infras.Replication.Held.{Holds, put-Holds}
use distributed_chord_infras.Replication.{Replicated}
use distributed_chord_infras.Replication.Write.{Reports}
use distributed_chord_infras.Assignments.Reports.{replicate_worker-Holds}
use distributed_chord_infras.Assignments.Lists.{
  added, Distinct, elem-added, elem-without_self, added-Distinct, without-Distinct, without_absent,
}

-- The tasks that a process lists under the key.
abbrev pub listed : String → ChordNode → List String
listed key n = tasks_of (as_worker (Node.get key n))

abbrev pub Lists : String → List String → Cluster → String → Type 0
Lists key tasks c a = (n : ChordNode) × (c.nodes a ≡ some n) × (listed key n ≡ tasks)

Holds-Lists :
    (key a : String) (w : WorkerRecord) (c : Cluster)
    → Holds key (Value.worker_assignment w) c a
    → Lists key w.tasks c a
unfolding Node.get
Holds-Lists key a w c (n, live, found) = (n, live, rw found refl)

appended_tasks :
    (worker_id : String) (w : Option WorkerRecord) (tasks : List String) (now : ℕ)
    → (appended_record worker_id w tasks now).tasks ≡ tasks
unfolding appended_record new_record bump
appended_tasks worker_id none tasks now = refl
appended_tasks worker_id (some w) tasks now = refl

bumped_tasks : (w : WorkerRecord) (tasks : List String) (now : ℕ) → (bump w tasks now).tasks ≡ tasks
unfolding bump
bumped_tasks w tasks now = refl

-- What a report says where there is one.
abbrev pub Replicates : String → ℕ → WorkerRecord → Option Replicated → Cluster → Type 0
Replicates worker_id k w none d = Unit
Replicates worker_id k w (some r) d =
    Reports (replica_key worker_id) (Value.worker_assignment w) k r d

module _ (digest : String → ℕ) (fuel : ℕ) (world : World) (k : ℕ) (self key worker_id : String)
    (primary : NodeRef) (c : Cluster) (n : ChordNode) (live : c.nodes self ≡ some n) where
  -- What an operation does that is to leave these tasks.
  abbrev Leaves : Result Changed × Cluster → List String → WorkerRecord → Type 0
  Leaves run tasks w =
      (out : Changed) × (d : Cluster) × (run ≡ (ok out, d))
      × (out.tasks ≡ tasks)
      × Lists key tasks d self
      × Replicates worker_id k w out.replication d

  write_local-Leaves :
      (w : WorkerRecord)
      → Leaves (write_local digest fuel world k self key worker_id w primary c) w.tasks w
  unfolding write_local
  write_local-Leaves w =
      let v = Value.worker_assignment w in
      let c' = set_node self (Node.put key v n) c in
      let (r, d, e, keep, _, reports) =
        replicate_worker-Holds digest fuel world c' k worker_id w primary in
      (
        record { key = key; tasks = w.tasks; changed = true; replication = some r },
        d,
        rw (live, here) (rw e refl),
        refl,
        Holds-Lists key self w d (keep key self (put-Holds self key v n c)),
        reports,
      )

  append_local-Leaves :
      (task_id : String) (now : ℕ)
      → build_worker_key worker_id ≡ ok key
      → Leaves
          (append_local digest fuel world k self worker_id task_id (some primary) now c)
          (added task_id (listed key n))
          (appended_record worker_id
            (as_worker (Node.get key n))
            (listed key n ++ (task_id ∷ []))
            now)
  unfolding append_local primary_or_owner
  append_local-Leaves task_id now valid = elim (Bool-cases (elem task_id (listed key n))) [
    | inl there ↦ (
      unchanged key (listed key n),
      c,
      rw valid (rw (live, here) (rw there refl)),
      rw there refl,
      rw there (n, live, refl),
      tt,
    )
    | inr new ↦
        let old = as_worker (Node.get key n) in
        let w = appended_record worker_id old (listed key n ++ (task_id ∷ [])) now in
        let (out, d, e, same, lists, report) = write_local-Leaves w in
        let tasks = appended_tasks worker_id old (listed key n ++ (task_id ∷ [])) now in
        (
          out,
          d,
          rw valid (rw (live, here) (rw new e)),
          rw new (same ∙ tasks),
          rw new (subst (λ ts. Lists key ts d self) tasks lists),
          report,
        )
  ]

  -- At the primary an append returns over any network. The process then lists the task: once more
  -- at the end of the tasks before, or where it was; the result names these tasks; and what the
  -- report of the replication says holds of the record written. A list without repetitions stays
  -- one.
  pub append_local-Lists :
      (task_id : String) (now : ℕ)
      → build_worker_key worker_id ≡ ok key
      → (out : Changed) × (d : Cluster) × (append_local digest fuel world k self worker_id task_id
            (some primary)
            now
            c
          ≡ (ok out, d))
        × (out.tasks ≡ added task_id (listed key n))
        × Lists key (added task_id (listed key n)) d self
        × Replicates worker_id k
            (appended_record worker_id
              (as_worker (Node.get key n))
              (listed key n ++ (task_id ∷ []))
              now)
            out.replication
            d
        × (elem task_id (added task_id (listed key n)) ≡ true)
        × (Distinct (listed key n) → Distinct (added task_id (listed key n)))
  append_local-Lists task_id now valid =
      let (out, d, e, same, lists, report) = append_local-Leaves task_id now valid in
      (
        out,
        d,
        e,
        same,
        lists,
        report,
        elem-added task_id (listed key n),
        added-Distinct task_id (listed key n),
      )

  remove_from-Lists :
      (task_id : String) (now : ℕ) (old : Option WorkerRecord)
      → as_worker (Node.get key n) ≡ old
      → (out : Changed) × (d : Cluster) × (remove_from digest fuel world k self key worker_id
            task_id primary now old c
          ≡ (ok out, d))
        × (out.tasks ≡ without task_id (tasks_of old))
        × Lists key (without task_id (tasks_of old)) d self
  unfolding remove_from without
  remove_from-Lists task_id now none e = (unchanged key [], c, refl, refl, (n, live, ap tasks_of e))
  remove_from-Lists task_id now (some w) e = elim (Bool-cases (elem task_id w.tasks)) [
    | inl there ↦
        let (out, d, e', same, lists, report) =
          write_local-Leaves (bump w (without task_id w.tasks) now) in
        let tasks = bumped_tasks w (without task_id w.tasks) now in
        (out, d, rw there e', same ∙ tasks, subst (λ ts. Lists key ts d self) tasks lists)
    | inr absent ↦
        let gone = without_absent task_id w.tasks absent in
        (unchanged key w.tasks, c, rw absent refl, sym gone, (n, live, ap tasks_of e ∙ sym gone))
  ]

  -- At the primary a removal returns over any network. The process then lists the tasks before
  -- without the removed one, in their order; the result names these tasks. A list without
  -- repetitions stays one.
  pub remove_local-Lists :
      (task_id : String) (now : ℕ)
      → build_worker_key worker_id ≡ ok key
      → (out : Changed) × (d : Cluster) × (remove_local digest fuel world k self worker_id task_id
            (some primary)
            now
            c
          ≡ (ok out, d))
        × (out.tasks ≡ without task_id (listed key n))
        × Lists key (without task_id (listed key n)) d self
        × (elem task_id (without task_id (listed key n)) ≡ false)
        × (Distinct (listed key n) → Distinct (without task_id (listed key n)))
  unfolding remove_local primary_or_owner
  remove_local-Lists task_id now valid =
      let (out, d, e, same, lists) =
        remove_from-Lists task_id now (as_worker (Node.get key n)) refl in
      (
        out,
        d,
        rw valid (rw (live, here) e),
        same,
        lists,
        elem-without_self task_id (listed key n),
        without-Distinct task_id (listed key n),
      )
