-- ===== src/Registry/Ranking.antt =====
-- The ranking of the workers by their scores in chord/worker_registry.py, with the weights of
-- chord/worker_config.py.
use distributed_chord_infras.Common.Sorting.{sorted}
use distributed_chord_infras.Common.{String, ℕ, List, [], ◌∷◌, if◌then◌else◌, ◌==◌}
use distributed_chord_infras.Registry.{
  Floats, WorkerRegistry, WorkerStats, live_workers, effective_load, metrics_of, stats_of,
}

module _ (floats : Floats) where
  open floats use {Float, of_nat, neg, add, mul, div, ltb}

  -- The weights of chord/worker_config.py, as the nearest floats.
  abbrev pub tenths : ℕ → Float
  tenths n = div (of_nat n) (of_nat 10)

  abbrev pub placement_weight_load : Float
  placement_weight_load = tenths 5

  abbrev pub placement_weight_latency : Float
  placement_weight_latency = tenths 3

  abbrev pub placement_weight_availability : Float
  placement_weight_availability = tenths 2

  abbrev pub latency_normalization_ms : ℕ
  latency_normalization_ms = 100

  -- The property `success_rate`
  unfoldable pub success_rate : WorkerStats → Float
  success_rate s =
      if s.total_executed == 0
      then of_nat 1
      else div (of_nat s.successful) (of_nat s.total_executed)

  -- `_score_locked`
  unfoldable pub score : String → WorkerRegistry → Float
  unfolding success_rate effective_load
  score worker_id r =
      add
        (add (mul placement_weight_load (neg (of_nat (effective_load worker_id r)))) (
          mul placement_weight_latency (
            neg (
              div (of_nat (metrics_of worker_id r).latency_ms) (of_nat latency_normalization_ms)))))
        (mul placement_weight_availability (success_rate (stats_of worker_id r)))

  abbrev pub scored : WorkerRegistry → List String → List (String × Float)
  scored r [] = []
  scored r (w ∷ ws) = (w, score w r) ∷ scored r ws

  -- `score_all_workers`: by falling score.
  unfoldable pub score_all_workers : ℕ → WorkerRegistry → List (String × Float)
  unfolding score live_workers
  score_all_workers now r = sorted (λ a b. ltb b.1 a.1) (scored r (live_workers now r))
