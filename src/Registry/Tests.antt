-- ===== src/Registry/Tests.antt =====
-- A registry of two workers, with numbers in place of floats.
use distributed_chord_infras.Common.{
  ℕ, List, ◌∷◌, [], ◌*◌, ◌-◌, ◌/◌, ◌+◌, arith, false, ◌≡◌, some, true, none, refl, ◌<◌, String,
  str_eq, if◌then◌else◌, All,
}
use distributed_chord_infras.Common.Dict
use distributed_chord_infras.Common.{ltb}
use distributed_chord_infras.Common.Sorting.{count}
use distributed_chord_infras.Registry.History.{last_heard}
use distributed_chord_infras.Registry.Live.{passes, heard_at}
use distributed_chord_infras.Registry.{fresh}
use distributed_chord_infras.Registry.Ranking.{score_all_workers}
use distributed_chord_infras.Registry.History.{Event, after}
use distributed_chord_infras.Registry.{
  Floats, WorkerRegistry, is_live, live_workers, effective_load, stats_of, heartbeat,
  record_completion, note_assignment,
}
use distributed_chord_infras.Registry.Scores.{IsOrdered, score_all_workers-after, score_of}
use distributed_chord_infras.Registry.Counts.{Counted, stats_of-after}
use distributed_chord_infras.Common.Sorting.{sorted, IsSorted, sorted_insert}
use distributed_chord_infras.Registry.Load.{effective_load-after}
use distributed_chord_infras.Registry.Live.{is_live-after}
use distributed_chord_infras.Registry.Turns.{turn, turn-nth}

-- Numbers between 0 and 2000000, of which 1000000 stands for 0 and the unit is a thousandth.
abbrev milli : Floats
milli = record {
  Float = ℕ;
  of_nat = λ n. 1000000 + 1000 * n;
  neg = λ x. 2000000 - x;
  add = λ x y. x + y - 1000000;
  mul = λ x y. (x * y + 2000000000 - 1000000 * (x + y)) / 1000;
  div = λ x y. 1000000 + ((x - 1000000) * 1000) / (y - 1000000);
  ltb = ltb;
}

milli-IsOrdered : IsOrdered milli
milli-IsOrdered = record {
  asymmetric = λ x y lt. ground arith;
  transitive = λ x y z p q. ground arith;
}

abbrev events : List Event
events =
    Event.assigned "v"
    ∷ Event.completed "w" false
    ∷ Event.heard "w" 2 (some 99) "p" 100
    ∷ Event.completed "w" true
    ∷ Event.heard "v" 1 none "" 95
    ∷ Event.heard "u" 0 none "" 80
    ∷ []

abbrev sample : WorkerRegistry
sample = after 10 events

is_live-after_example : is_live "w" 110 sample ≡ true
is_live-after_example = is_live-after 10 events "w" 110

stats_of-after_example : Counted 1 1 (stats_of "w" sample)
stats_of-after_example = stats_of-after 10 "w" events refl

effective_load-after_example : effective_load "v" sample ≡ 2
effective_load-after_example = effective_load-after 10 "v" events refl

turn-nth_example : (k : ℕ) × (k < 2) × (turn k 105 sample ≡ some "w")
unfolding live_workers sorted sorted_insert heartbeat Dict.insert record_completion note_assignment
turn-nth_example = turn-nth 105 1 sample (omega arith)

score_all_workers-after_example :
    ((w : String)
      → count (λ e. str_eq e.0 w) (score_all_workers milli 105 sample)
        ≡ (if passes (fresh 10 105) (heard_at (last_heard w events)) then 1 else 0))
    × All (λ e. e.1 ≡ score_of milli events e.0) (score_all_workers milli 105 sample)
    × IsSorted (λ a b. ltb b.1 a.1) (score_all_workers milli 105 sample)
score_all_workers-after_example = score_all_workers-after milli 10 events 105 milli-IsOrdered refl
