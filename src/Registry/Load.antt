-- ===== src/Registry/Load.antt =====
-- The load of a worker in chord/worker_registry.py.
use distributed_chord_infras.Common.Dict
use distributed_chord_infras.Registry.{
  remove, WorkerMetrics, WorkerRegistry, effective_load, get_or, heartbeat, latency, metrics_of,
  note_assignment, no_metrics, pending_of,
}
use distributed_chord_infras.Common.{
  String, ℕ, List, Option, ◌≡◌, ◌∷◌, [], some, none, false, refl, Bool-cases, ◌+◌, str_eq, inl, ◌∙◌,
  arith, inr, subst, sym, eq_iff, ap,
}
use distributed_chord_infras.Registry.History.{
  Event, after, last_heard, assigned_since, completed_lem, assigned_lem, asked_lem,
}
use distributed_chord_infras.Text.{is_empty}

-- The tasks that the last heartbeat reported, or 0 without one.
abbrev pub reported : Option (ℕ × ℕ × Option ℕ) → ℕ
reported none = 0
reported (some (t, pending, sent)) = pending

-- The delay of the last heartbeat in milliseconds, or 0 without one.
abbrev pub delay : Option (ℕ × ℕ × Option ℕ) → ℕ
delay none = 0
delay (some (t, pending, sent)) = latency sent t

abbrev field_in : (WorkerMetrics → ℕ) → Option WorkerMetrics → ℕ
field_in field none = 0
field_in field (some m) = field m

metrics_of-field :
    (field : WorkerMetrics → ℕ) (w : String) (r : WorkerRegistry)
    → field (no_metrics w) ≡ 0
    → field (metrics_of w r) ≡ field_in field (Dict.lookup w r.metrics)
metrics_of-field field w r zero_none = go (Dict.lookup w r.metrics)
  where
    go : (o : Option WorkerMetrics) → field (get_or (no_metrics w) o) ≡ field_in field o
    go none = zero_none
    go (some m) = refl

module _ (timeout : ℕ) (w : String) where
  -- A field of the metrics is that of the last heartbeat.
  field-after :
      (field : WorkerMetrics → ℕ) (sent_field : Option (ℕ × ℕ × Option ℕ) → ℕ)
      → sent_field none ≡ 0
      → ((v : String) (pending : ℕ) (sent : Option ℕ) (now : ℕ)
          → field (record {
            worker_id = v;
            pending_tasks = pending;
            latency_ms = latency sent now;
            last_heartbeat_ts = now;
          })
            ≡ sent_field (some (now, pending, sent)))
      → (es : List Event)
      → field_in field (Dict.lookup w (after timeout es).metrics) ≡ sent_field (last_heard w es)
  unfolding heartbeat remove Dict.lookup
  field-after field sent_field zero_none kept [] = sym zero_none
  field-after field sent_field zero_none kept (Event.heard v pending sent token now ∷ es) =
      elim (Bool-cases (str_eq v w)) [
        | inl e ↦
            rw (Dict.lookup-insert v w _ (after timeout es).metrics)
              (rw e (kept v pending sent now))
        | inr e ↦
            rw (Dict.lookup-insert v w _ (after timeout es).metrics)
              (rw e (field-after field sent_field zero_none kept es))
      ]
  field-after field sent_field zero_none kept (Event.removed v ∷ es) =
      elim (Bool-cases (str_eq v w)) [
        | inl e ↦ rw (Dict.lookup-remove v w (after timeout es).metrics) (rw e (sym zero_none))
        | inr e ↦
            rw (Dict.lookup-remove v w (after timeout es).metrics)
              (rw e (field-after field sent_field zero_none kept es))
      ]
  field-after field sent_field zero_none kept (Event.completed v b ∷ es) =
      let (s, e) = completed_lem v b (after timeout es) in
      rw e (field-after field sent_field zero_none kept es)
  field-after field sent_field zero_none kept (Event.assigned v ∷ es) =
      let (p, e) = assigned_lem v (after timeout es) in
      rw e (field-after field sent_field zero_none kept es)
  field-after field sent_field zero_none kept (Event.asked now ∷ es) =
      let (i, e) = asked_lem now (after timeout es) in
      rw e (field-after field sent_field zero_none kept es)

  pub latency-after :
      (es : List Event) → (metrics_of w (after timeout es)).latency_ms ≡ delay (last_heard w es)
  latency-after es =
      metrics_of-field (λ m. m.latency_ms) w (after timeout es) refl
      ∙ field-after (λ m. m.latency_ms) delay refl (λ v pending sent now. refl) es

  pending_after :
      (es : List Event) → is_empty w ≡ false → pending_of w (after timeout es) ≡ assigned_since w es
  unfolding heartbeat remove Dict.lookup note_assignment
  pending_after [] named = refl
  pending_after (Event.heard v pending sent token now ∷ es) named = elim (Bool-cases (str_eq v w)) [
    | inl e ↦ rw (Dict.lookup-remove v w (after timeout es).optimistic_pending) (rw e refl)
    | inr e ↦
        rw (Dict.lookup-remove v w (after timeout es).optimistic_pending)
          (rw e (pending_after es named))
  ]
  pending_after (Event.removed v ∷ es) named = pending_after es named
  pending_after (Event.completed v b ∷ es) named =
      let (s, e) = completed_lem v b (after timeout es) in rw e (pending_after es named)
  pending_after (Event.assigned v ∷ es) named = elim (Bool-cases (str_eq v w)) [
    | inl e ↦
        let named' : is_empty v ≡ false =
          subst (λ i. is_empty i ≡ false) (sym ((eq_iff v w).0 e)) named in
        let old : pending_of v (after timeout es) ≡ assigned_since w es =
          ap (λ i. pending_of i (after timeout es)) ((eq_iff v w).0 e) ∙ pending_after es named in
        rw
          (
            named',
            Dict.lookup-insert v w (pending_of v (after timeout es) + 1)
                (after timeout es).optimistic_pending,
          )
          (rw e (omega (arith, old)))
    | inr e ↦ elim (Bool-cases (is_empty v)) [
      | inl nameless ↦ rw (nameless, e) (pending_after es named)
      | inr called ↦
          rw
            (
              called,
              Dict.lookup-insert v w (pending_of v (after timeout es) + 1)
                  (after timeout es).optimistic_pending,
            )
            (rw e (pending_after es named))
    ]
  ]
  pending_after (Event.asked now ∷ es) named =
      let (i, e) = asked_lem now (after timeout es) in rw e (pending_after es named)

  -- After any calls the load of a worker that has a name is what its last heartbeat since its last
  -- removal reported, or 0 without one, and the assignments since its last heartbeat besides, which
  -- a removal does not reset.
  pub effective_load-after :
      (es : List Event)
      → is_empty w ≡ false
      → effective_load w (after timeout es) ≡ reported (last_heard w es) + assigned_since w es
  unfolding effective_load
  effective_load-after es named =
      let first : (metrics_of w (after timeout es)).pending_tasks ≡ reported (last_heard w es) =
        metrics_of-field (λ m. m.pending_tasks) w (after timeout es) refl
        ∙ field-after (λ m. m.pending_tasks) reported refl (λ v pending sent now. refl) es in
      omega (arith, first, pending_after es named)
