-- ===== src/Registry/Live.antt =====
-- Which workers of chord/worker_registry.py are live.
use distributed_chord_infras.Registry.{remove}
use distributed_chord_infras.Common.Dict
use distributed_chord_infras.Common.Dict.{Dict}
use distributed_chord_infras.Common.{
  String, ℕ, List, Option, Bool, ◌≡◌, [], elem, false, some, ◌∷◌, Bool-cases, none, str_eq, ◌∙◌,
  arith, filter, inl, ◌||◌, inr, refl, subst, eq_iff, ap,
}
use distributed_chord_infras.Registry.{
  heartbeat, is_live, live_workers, names, WorkerRegistry, fresh, comes_before,
}
use distributed_chord_infras.Common.Sorting.{sorted, sorted_insert}
use distributed_chord_infras.Registry.History.{
  Event, after, last_heard, asked_lem, completed_lem, assigned_lem,
}

-- No key of a dict occurs twice.
abbrev pub Unique : {V : Type 0} → Dict V → Type 0
Unique [] = Unit
Unique ((k, v) ∷ d) = (Dict.lookup k d ≡ none) × Unique d

module _ {V : Type 0} where
  insert-Unique : (k : String) (v : V) (d : Dict V) → Unique d → Unique (Dict.insert k v d)
  unfolding Dict.insert Dict.lookup
  insert-Unique k v [] unique = (refl, tt)
  insert-Unique k v ((j, w) ∷ d) (new, unique) = elim (Bool-cases (str_eq j k)) [
    | inl same ↦ rw same (new, unique)
    | inr other ↦ rw other (
      Dict.lookup-insert k j v d ∙ ground (arith, eq_iff k j, eq_iff j k),
      insert-Unique k v d unique,
    )
  ]

  remove-Unique : (k : String) (d : Dict V) → Unique d → Unique (Dict.remove k d)
  unfolding Dict.remove
  remove-Unique k [] unique = tt
  remove-Unique k ((j, w) ∷ d) (new, unique) = elim (Bool-cases (str_eq j k)) [
    | inl same ↦ rw same (remove-Unique k d unique)
    | inr other ↦ rw other (Dict.lookup-remove k j d ∙ ground arith, remove-Unique k d unique)
  ]

-- Whether a value that is there passes the test.
abbrev pub passes : {V : Type 0} → (V → Bool) → Option V → Bool
passes p none = false
passes p (some v) = p v

elem-names :
    (w : String) (p : ℕ → Bool) (d : Dict ℕ)
    → Unique d
    → elem w (names (filter (λ e. p e.1) d)) ≡ passes p (Dict.lookup w d)
unfolding Dict.lookup
elem-names w p [] unique = refl
elem-names w p ((j, t) ∷ d) (new, unique) =
    let ih = elem-names w p d unique in
    elim (Bool-cases (str_eq j w)) [
      | inl same ↦
          let gone : Dict.lookup w d ≡ none =
            subst (λ i. Dict.lookup i d ≡ none) ((eq_iff j w).0 same) new in
          elim (Bool-cases (p t)) [
            | inl good ↦ rw (good, same) (rw good refl)
            | inr bad ↦ rw (bad, same) (rw bad (ih ∙ rw gone refl))
          ]
      | inr other ↦ elim (Bool-cases (p t)) [
        | inl good ↦ rw (good, other) ih
        | inr bad ↦ rw (bad, other) ih
      ]
    ]

elem-sorted_insert :
    (before : String → String → Bool) (w x : String) (l : List String)
    → elem w (sorted_insert before x l) ≡ str_eq x w || elem w l
unfolding sorted_insert
elem-sorted_insert before w x [] = refl
elem-sorted_insert before w x (y ∷ l) = elim (Bool-cases (before y x)) [
  | inl e ↦ rw e (ground (arith, elem-sorted_insert before w x l))
  | inr e ↦ rw e refl
]

elem-sorted :
    (before : String → String → Bool) (w : String) (l : List String)
    → elem w (sorted before l) ≡ elem w l
unfolding sorted
elem-sorted before w [] = refl
elem-sorted before w (x ∷ l) =
    elem-sorted_insert before w x (sorted before l) ∙ ground (arith, elem-sorted before w l)

-- A worker of a dict without repetitions is live where its last heartbeat is recent.
is_live-lookup :
    (w : String) (now : ℕ) (r : WorkerRegistry)
    → Unique r.workers
    → is_live w now r ≡ passes (fresh r.timeout now) (Dict.lookup w r.workers)
unfolding is_live live_workers
is_live-lookup w now r unique =
    elem-sorted comes_before w (names (filter (λ e. fresh r.timeout now e.1) r.workers))
    ∙ elem-names w (fresh r.timeout now) r.workers unique

-- The time of the last heartbeat of a worker.
abbrev pub heard_at : Option (ℕ × ℕ × Option ℕ) → Option ℕ
heard_at none = none
heard_at (some (t, pending, sent)) = some t

module _ (timeout : ℕ) where
  pub after-Unique : (es : List Event) → Unique (after timeout es).workers
  unfolding heartbeat remove
  after-Unique [] = tt
  after-Unique (Event.heard w pending sent token now ∷ es) =
      insert-Unique w now (after timeout es).workers (after-Unique es)
  after-Unique (Event.removed w ∷ es) = remove-Unique w (after timeout es).workers (after-Unique es)
  after-Unique (Event.completed w b ∷ es) =
      let (s, e) = completed_lem w b (after timeout es) in rw e (after-Unique es)
  after-Unique (Event.assigned w ∷ es) =
      let (s, e) = assigned_lem w (after timeout es) in rw e (after-Unique es)
  after-Unique (Event.asked now ∷ es) =
      let (i, e) = asked_lem now (after timeout es) in rw e (after-Unique es)

  pub workers_after :
      (w : String) (es : List Event)
      → Dict.lookup w (after timeout es).workers ≡ heard_at (last_heard w es)
  unfolding heartbeat remove Dict.lookup
  workers_after w [] = refl
  workers_after w (Event.heard v pending sent token now ∷ es) = elim (Bool-cases (str_eq v w)) [
    | inl e ↦ Dict.lookup-insert v w now (after timeout es).workers ∙ rw e refl
    | inr e ↦ Dict.lookup-insert v w now (after timeout es).workers ∙ rw e (workers_after w es)
  ]
  workers_after w (Event.removed v ∷ es) = elim (Bool-cases (str_eq v w)) [
    | inl e ↦ Dict.lookup-remove v w (after timeout es).workers ∙ rw e refl
    | inr e ↦ Dict.lookup-remove v w (after timeout es).workers ∙ rw e (workers_after w es)
  ]
  workers_after w (Event.completed v b ∷ es) =
      let (s, e) = completed_lem v b (after timeout es) in rw e (workers_after w es)
  workers_after w (Event.assigned v ∷ es) =
      let (s, e) = assigned_lem v (after timeout es) in rw e (workers_after w es)
  workers_after w (Event.asked now ∷ es) =
      let (i, e) = asked_lem now (after timeout es) in rw e (workers_after w es)

  pub timeout_after : (es : List Event) → (after timeout es).timeout ≡ timeout
  unfolding heartbeat remove
  timeout_after [] = refl
  timeout_after (Event.heard v pending sent token now ∷ es) = timeout_after es
  timeout_after (Event.removed v ∷ es) = timeout_after es
  timeout_after (Event.completed v b ∷ es) =
      let (s, e) = completed_lem v b (after timeout es) in rw e (timeout_after es)
  timeout_after (Event.assigned v ∷ es) =
      let (s, e) = assigned_lem v (after timeout es) in rw e (timeout_after es)
  timeout_after (Event.asked now ∷ es) =
      let (i, e) = asked_lem now (after timeout es) in rw e (timeout_after es)

  -- After any calls a worker is live exactly where a heartbeat of it has arrived since it was last
  -- removed, and, unless expiration is disabled, the last one is not older than the timeout.
  -- Completions, assignments and calls for the next worker in turn have no influence.
  pub is_live-after :
      (es : List Event) (w : String) (now : ℕ)
      → is_live w now (after timeout es) ≡ passes (fresh timeout now) (heard_at (last_heard w es))
  is_live-after es w now =
      is_live-lookup w now (after timeout es) (after-Unique es)
      ∙ ap (λ k. passes (fresh k now) (Dict.lookup w (after timeout es).workers)) (timeout_after es)
      ∙ ap (λ o. passes (fresh timeout now) o) (workers_after w es)
