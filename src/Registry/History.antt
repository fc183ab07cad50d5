-- ===== src/Registry/History.antt =====
-- The calls that a registry of chord/worker_registry.py receives, the latest first, and what they
-- say of a worker.
use distributed_chord_infras.Common.Dict
use distributed_chord_infras.Common.Dict.{Dict}
use distributed_chord_infras.Registry.{
  remove, record_completion, note_assignment, WorkerStats, add_result, pending_of, stats_of,
}
use distributed_chord_infras.Common.{
  String, ℕ, Bool, List, Option, if◌then◌else◌, none, ◌≡◌, str_eq, ◌∷◌, [], some, ◌+◌, ◌%◌, length,
  refl, Bool-cases, inl, inr, ◌&&◌, not,
}
use distributed_chord_infras.Registry.{
  WorkerRegistry, round_robin_assign, heartbeat, new_registry, nth, live_workers,
}
use distributed_chord_infras.Text.{is_empty}

pub data Event : Type 0 where
  heard : String → ℕ → Option ℕ → String → ℕ → Event
  removed : String → Event
  completed : String → Bool → Event
  assigned : String → Event
  asked : ℕ → Event

abbrev pub step : Event → WorkerRegistry → WorkerRegistry
step (Event.heard w pending sent token now) r = (heartbeat w pending sent token now r).1
step (Event.removed w) r = (remove w r).1
step (Event.completed w b) r = record_completion w b r
step (Event.assigned w) r = note_assignment w r
step (Event.asked now) r = (round_robin_assign now r).1

abbrev pub after : ℕ → List Event → WorkerRegistry
after timeout [] = new_registry timeout
after timeout (e ∷ es) = step e (after timeout es)

-- The last heartbeat of the worker since it was removed: its time, the tasks it reported, and the
-- time it was sent.
abbrev pub last_heard : String → List Event → Option (ℕ × ℕ × Option ℕ)
last_heard w [] = none
last_heard w (Event.heard v pending sent token now ∷ es) =
    let rest = last_heard w es in if str_eq v w then some (now, pending, sent) else rest
last_heard w (Event.removed v ∷ es) =
    let rest = last_heard w es in if str_eq v w then none else rest
last_heard w (_ ∷ es) = last_heard w es

-- The assignments to the worker since its last heartbeat.
abbrev pub assigned_since : String → List Event → ℕ
assigned_since w [] = 0
assigned_since w (Event.heard v pending sent token now ∷ es) =
    let rest = assigned_since w es in if str_eq v w then 0 else rest
assigned_since w (Event.assigned v ∷ es) =
    let rest = assigned_since w es in if str_eq v w then rest + 1 else rest
assigned_since w (_ ∷ es) = assigned_since w es

-- The completions of the worker that succeeded, or those that failed.
abbrev pub completions : Bool → String → List Event → ℕ
completions good w [] = 0
completions good w (Event.completed v b ∷ es) =
    let rest = completions good w es in
    if str_eq v w && (if good then b else not b) then rest + 1 else rest
completions good w (_ ∷ es) = completions good w es

-- `asked` reads the live workers only for the next in turn.
pub asked_lem :
    (now : ℕ) (r : WorkerRegistry)
    → (i : ℕ) × ((round_robin_assign now r).1 ≡ record r { rr_next = i })
unfolding round_robin_assign
asked_lem now r = next (live_workers now r)
  where
    next :
        (ws : List String)
        → (i : ℕ) × ((elim ws as (λ _. Option String × WorkerRegistry) [
          | [] ↦ (none, r)
          | w ∷ rest ↦ (
            nth (r.rr_next % length (w ∷ rest)) (w ∷ rest),
            record r { rr_next = r.rr_next % length (w ∷ rest) + 1 },
          )
        ]).1
            ≡ record r { rr_next = i })
    next [] = (r.rr_next, refl)
    next (w ∷ ws) = (r.rr_next % length (w ∷ ws) + 1, refl)

-- A completion changes only the counters, an assignment only the pending tasks.
pub completed_lem :
    (w : String) (b : Bool) (r : WorkerRegistry)
    → (s : Dict WorkerStats) × (record_completion w b r ≡ record r { stats = s })
unfolding record_completion
completed_lem w b r = elim (Bool-cases (is_empty w)) [
  | inl e ↦ (r.stats, rw e refl)
  | inr e ↦ (Dict.insert w (add_result b (stats_of w r)) r.stats, rw e refl)
]

pub assigned_lem :
    (w : String) (r : WorkerRegistry)
    → (p : Dict ℕ) × (note_assignment w r ≡ record r { optimistic_pending = p })
unfolding note_assignment
assigned_lem w r = elim (Bool-cases (is_empty w)) [
  | inl e ↦ (r.optimistic_pending, rw e refl)
  | inr e ↦ (Dict.insert w (pending_of w r + 1) r.optimistic_pending, rw e refl)
]
