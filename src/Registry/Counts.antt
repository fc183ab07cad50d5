-- ===== src/Registry/Counts.antt =====
-- The counters of a worker in chord/worker_registry.py.
use distributed_chord_infras.Common.Dict
use distributed_chord_infras.Registry.{
  remove, WorkerStats, add_result, heartbeat, record_completion, stats_of, WorkerRegistry, get_or,
  no_stats,
}
use distributed_chord_infras.Common.{
  String, ℕ, List, Bool, ◌≡◌, some, if◌then◌else◌, ◌+◌, arith, true, false, subst, sym, Bool-cases,
  str_eq, inl, inr, [], not, ◌∷◌, ap, eq_iff, refl, ◌⊎◌, ◌∙◌,
}
use distributed_chord_infras.Registry.History.{Event, completions, after, assigned_lem, asked_lem}
use distributed_chord_infras.Text.{is_empty}

-- The counters that so many completions make.
abbrev pub Counted : ℕ → ℕ → WorkerStats → Type 0
Counted good bad s = (s.successful ≡ good) × (s.failed ≡ bad) × (s.total_executed ≡ good + bad)

add_result-Counted :
    (b : Bool) (good bad : ℕ) (s : WorkerStats)
    → Counted good bad s
    → Counted (if b then good + 1 else good) (if not b then bad + 1 else bad) (add_result b s)
unfolding add_result
add_result-Counted true good bad s (g, f, t) = (omega arith, f, omega arith)
add_result-Counted false good bad s (g, f, t) = (g, omega arith, omega arith)

stats_of-insert :
    (v w : String) (s : WorkerStats) (r : WorkerRegistry)
    → stats_of w (record r { stats = Dict.insert v s r.stats })
      ≡ (if str_eq v w then s else stats_of w r)
stats_of-insert v w s r = elim (Bool-cases (str_eq v w)) [
  | inl e ↦
      let found : Dict.lookup w (Dict.insert v s r.stats) ≡ some s =
        Dict.lookup-insert v w s r.stats ∙ rw e refl in
      rw e (ap (get_or (no_stats w)) found)
  | inr e ↦
      let found : Dict.lookup w (Dict.insert v s r.stats) ≡ Dict.lookup w r.stats =
        Dict.lookup-insert v w s r.stats ∙ rw e refl in
      rw e (ap (get_or (no_stats w)) found)
]

module _ (timeout : ℕ) (w : String) where
  heard-stats :
      (v : String) (r : WorkerRegistry)
      → stats_of w (record r { stats = Dict.insert v (stats_of v r) r.stats }) ≡ stats_of w r
  heard-stats v r = stats_of-insert v w (stats_of v r) r ∙ same (Bool-cases (str_eq v w))
    where
      same :
          (str_eq v w ≡ true) ⊎ (str_eq v w ≡ false)
          → (if str_eq v w then stats_of v r else stats_of w r) ≡ stats_of w r
      same (inl e) = rw e (ap (λ i. stats_of i r) ((eq_iff v w).0 e))
      same (inr e) = rw e refl

  completed-Counted :
      (v : String) (b : Bool) (es : List Event)
      → is_empty w ≡ false
      → Counted (completions true w es) (completions false w es) (stats_of w (after timeout es))
      → Counted
          (completions true w (Event.completed v b ∷ es))
          (completions false w (Event.completed v b ∷ es))
          (stats_of w (record_completion v b (after timeout es)))
  unfolding record_completion
  completed-Counted v b es named before = elim (Bool-cases (str_eq v w)) [
    | inl e ↦
        let named' : is_empty v ≡ false =
          subst (λ i. is_empty i ≡ false) (sym ((eq_iff v w).0 e)) named in
        rw (named', e)
          (subst (Counted _ _) (sym (added e)) (
            add_result-Counted b (completions true w es) (completions false w es) (stats_of w r)
              before))
    | inr e ↦ elim (Bool-cases (is_empty v)) [
      | inl nameless ↦ rw (nameless, e) before
      | inr called ↦ rw (called, e) (subst (Counted _ _) (sym (kept e)) before)
    ]
  ]
    where
      r : WorkerRegistry
      r = after timeout es

      s : WorkerStats
      s = add_result b (stats_of v r)

      added :
          str_eq v w ≡ true
          → stats_of w (record r { stats = Dict.insert v s r.stats }) ≡ add_result b (stats_of w r)
      added e =
          stats_of-insert v w s r ∙ rw e (ap (λ i. add_result b (stats_of i r)) ((eq_iff v w).0 e))

      kept :
          str_eq v w ≡ false
          → stats_of w (record r { stats = Dict.insert v s r.stats }) ≡ stats_of w r
      kept e = stats_of-insert v w s r ∙ rw e refl

  -- After any calls the counters of a worker that has a name are those of its completions: how many
  -- succeeded, how many failed, and both together. A removal does not reset them.
  pub stats_of-after :
      (es : List Event)
      → is_empty w ≡ false
      → Counted (completions true w es) (completions false w es) (stats_of w (after timeout es))
  unfolding heartbeat remove Dict.lookup
  stats_of-after [] named = (refl, refl, refl)
  stats_of-after (Event.heard v pending sent token now ∷ es) named =
      subst (Counted (completions true w es) (completions false w es))
        (sym (heard-stats v (after timeout es))) (stats_of-after es named)
  stats_of-after (Event.removed v ∷ es) named = stats_of-after es named
  stats_of-after (Event.completed v b ∷ es) named =
      completed-Counted v b es named (stats_of-after es named)
  stats_of-after (Event.assigned v ∷ es) named =
      let (p, e) = assigned_lem v (after timeout es) in rw e (stats_of-after es named)
  stats_of-after (Event.asked now ∷ es) named =
      let (i, e) = asked_lem now (after timeout es) in rw e (stats_of-after es named)
