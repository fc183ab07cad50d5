-- ===== src/Registry/Scores.antt =====
-- The ranking of chord/worker_registry.py, after any calls.
use distributed_chord_infras.Common.Dict
use distributed_chord_infras.Common.Sorting.{count, count-sorted, sorted-All}
use distributed_chord_infras.Common.{
  ℕ, ◌≡◌, true, false, List, String, if◌then◌else◌, Bool, str_eq, ◌+◌, elem, ◌==◌, ◌∷◌, All, arith,
  none, refl, [], ◌||◌, eq_iff, filter, Bool-cases, inl, ◌∙◌, subst, inr,
}
use distributed_chord_infras.Registry.{
  Floats, WorkerRegistry, live_workers, is_live, WorkerStats, fresh, names, stats_of, comes_before,
}
use distributed_chord_infras.Registry.Ranking.{score_all_workers, scored, score, success_rate}
use distributed_chord_infras.Common.Sorting.{IsSorted, sorted-IsSorted}
use distributed_chord_infras.Registry.History.{
  Event, after, last_heard, assigned_since, completions,
}
use distributed_chord_infras.Registry.Counts.{Counted, stats_of-after}
use distributed_chord_infras.Common.Dict.{Dict}
use distributed_chord_infras.Text.{is_empty}
use distributed_chord_infras.Registry.Load.{reported, effective_load-after, delay, latency-after}
use distributed_chord_infras.Registry.Live.{
  Unique, passes, heard_at, after-Unique, is_live-after, timeout_after, workers_after,
}

-- What `<` of floats satisfies that are numbers: a test and its converse do not both hold, and a
-- float that is not below a second, which is not below a third, is not below the third.
pub record IsOrdered (floats : Floats) : Type 0 where
  pub asymmetric : (x y : floats.Float) → floats.ltb x y ≡ true → floats.ltb y x ≡ false
  pub transitive :
      (x y z : floats.Float)
      → floats.ltb y x ≡ false
      → floats.ltb z y ≡ false
      → floats.ltb z x ≡ false

module _ (floats : Floats) where
  open floats use {Float, of_nat, neg, add, mul, div}

  -- The share of the completions that succeeded, 1 without any.
  abbrev pub rate : ℕ → ℕ → Float
  rate good bad = if good + bad == 0 then of_nat 1 else div (of_nat good) (of_nat (good + bad))

  -- The weighted sum of a load, a delay in milliseconds, and a rate of success.
  abbrev pub weighted : ℕ → ℕ → Float → Float
  weighted load delay_ms success =
      add
        (add (mul (div (of_nat 5) (of_nat 10)) (neg (of_nat load)))
          (mul (div (of_nat 3) (of_nat 10)) (neg (div (of_nat delay_ms) (of_nat 100)))))
        (mul (div (of_nat 2) (of_nat 10)) success)

  -- What the calls say of a worker, as a score.
  abbrev pub score_of : List Event → String → Float
  score_of es w =
      weighted (reported (last_heard w es) + assigned_since w es) (delay (last_heard w es))
        (rate (completions true w es) (completions false w es))

  rate_lem :
      (good bad : ℕ) (s : WorkerStats) → Counted good bad s → success_rate floats s ≡ rate good bad
  unfolding success_rate
  rate_lem good bad s (g, f, t) = rw t (rw g refl)

  score-after :
      (timeout : ℕ) (w : String) (es : List Event)
      → is_empty w ≡ false
      → score floats w (after timeout es) ≡ score_of es w
  unfolding score
  score-after timeout w es named =
      let load = effective_load-after timeout w es named in
      let late = latency-after timeout w es in
      let good =
        rate_lem (completions true w es) (completions false w es) (stats_of w (after timeout es))
          (stats_of-after timeout w es named) in
      λ i. weighted (load i) (late i) (good i)

  scored-All :
      (timeout : ℕ) (es : List Event) (ws : List String)
      → elem "" ws ≡ false
      → All (λ e. e.1 ≡ score_of es e.0) (scored floats (after timeout es) ws)
  scored-All timeout es [] all = tt
  scored-All timeout es (w ∷ ws) all =
      let (first, rest) = neither (str_eq w "") (elem "" ws) all in
      (score-after timeout w es (not_empty w first), scored-All timeout es ws rest)
    where
      neither : (a b : Bool) → a || b ≡ false → (a ≡ false) × (b ≡ false)
      neither a b e = (ground arith, ground arith)

      not_empty : (w : String) → str_eq w "" ≡ false → is_empty w ≡ false
      not_empty String.[] e = absurd (ground (arith, eq_iff "" ""))
      not_empty (String.◌∷◌ c s) e = refl

  count-scored :
      (w : String) (r : WorkerRegistry) (ws : List String)
      → count (λ e. str_eq e.0 w) (scored floats r ws) ≡ count (λ x. str_eq x w) ws
  count-scored w r [] = refl
  count-scored w r (x ∷ ws) = omega (arith, count-scored w r ws)

zero_add : (n : ℕ) → 0 + n ≡ n
zero_add n = omega arith

count-names :
    (w : String) (p : ℕ → Bool) (d : Dict ℕ)
    → Unique d
    → count (λ x. str_eq x w) (names (filter (λ e. p e.1) d))
      ≡ (if passes p (Dict.lookup w d) then 1 else 0)
unfolding Dict.lookup
count-names w p [] unique = refl
count-names w p ((j, t) ∷ d) (new, unique) =
    let ih = count-names w p d unique in
    elim (Bool-cases (str_eq j w)) [
      | inl same ↦
          let gone : Dict.lookup w d ≡ none =
            subst (λ i. Dict.lookup i d ≡ none) ((eq_iff j w).0 same) new in
          let zero_left : count (λ x. str_eq x w) (names (filter (λ e. p e.1) d)) ≡ 0 =
            rw gone at ih in
          elim (Bool-cases (p t)) [
            | inl good ↦ rw (good, same) (rw good (omega (arith, zero_left)))
            | inr bad ↦ rw (bad, same) (rw bad zero_left)
          ]
      | inr other ↦ elim (Bool-cases (p t)) [
        | inl good ↦ rw (good, other) (zero_add _ ∙ ih)
        | inr bad ↦ rw (bad, other) ih
      ]
    ]

live_workers-count :
    (timeout : ℕ) (es : List Event) (w : String) (now : ℕ)
    → count (λ x. str_eq x w) (live_workers now (after timeout es))
      ≡ (if passes (fresh timeout now) (heard_at (last_heard w es)) then 1 else 0)
unfolding live_workers
live_workers-count timeout es w now =
    let r = after timeout es in
    count-sorted comes_before (λ x. str_eq x w)
      (names (filter (λ e. fresh r.timeout now e.1) r.workers))
    ∙ count-names w (fresh r.timeout now) r.workers (after-Unique timeout es)
    ∙ (λ i.
        if passes (fresh (timeout_after timeout es i) now) (workers_after timeout w es i)
        then 1
        else 0)

-- After any calls, none of them a heartbeat with an empty identifier, and where `<` orders the
-- floats, the ranking lists exactly the live workers, each once: those of which a heartbeat has
-- arrived since they were last removed, the last one not older than the timeout unless expiration
-- is disabled. Each stands with 0.5 * -load + 0.3 * -(delay / 100) + 0.2 * rate, where the load, the
-- delay of the last heartbeat and the rate of success are counted from the calls; and no worker
-- stands behind one with a lower score.
pub score_all_workers-after :
    (floats : Floats) (timeout : ℕ) (es : List Event) (now : ℕ)
    → IsOrdered floats
    → last_heard "" es ≡ none
    → ((w : String)
        → count (λ e. str_eq e.0 w) (score_all_workers floats now (after timeout es))
          ≡ (if passes (fresh timeout now) (heard_at (last_heard w es)) then 1 else 0))
      × All (λ e. e.1 ≡ score_of floats es e.0) (score_all_workers floats now (after timeout es))
      × IsSorted (λ a b. floats.ltb b.1 a.1) (score_all_workers floats now (after timeout es))
unfolding score_all_workers is_live
score_all_workers-after floats timeout es now ordered named =
    let r = after timeout es in
    let before = λ (a b : String × floats.Float). floats.ltb b.1 a.1 in
    let ws = live_workers now r in
    (
      (λ w.
          count-sorted before (λ e. str_eq e.0 w) (scored floats r ws)
          ∙ count-scored floats w r ws
          ∙ live_workers-count timeout es w now),
      sorted-All before (λ e. e.1 ≡ score_of floats es e.0) (scored floats r ws)
          (scored-All floats timeout es ws (is_live-after timeout es "" now ∙ rw named refl)),
      sorted-IsSorted before (λ x y. ordered.asymmetric y.1 x.1)
          (λ x y z. ordered.transitive x.1 y.1 z.1) (scored floats r ws),
    )
