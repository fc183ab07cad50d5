-- ===== src/Registry.antt =====
-- `class WorkerRegistry` of chord/worker_registry.py. Each method holds the lock throughout, so each
-- is one step. `now` is the time that `time.time` returns, in the unit of the timeout; a time
-- difference below 0 counts as 0, which no timeout tells apart. The arithmetic of floats is a
-- parameter.
pub mod History
pub mod Live
pub mod Counts
pub mod Load
pub mod Turns
pub mod Ranking
pub mod Scores
mod Tests
use distributed_chord_infras.Common.Dict
use Prim.Native.String.{compare}
use Prim.Native.Nat.{Ordering}
use distributed_chord_infras.Common.Dict.{Dict}
use distributed_chord_infras.Common.{
  String, ℕ, Bool, List, Option, [], if◌then◌else◌, ◌+◌, [], elem, false, leb, none, some, true,
  ◌==◌, ◌∷◌, filter, suc, ◌%◌, ◌-◌, ◌||◌, length, not, str_eq, zero, ◌*◌,
}
use distributed_chord_infras.Records.Dynamic.{ℤ}
use distributed_chord_infras.Network.{Result, err, Error, ok}
use distributed_chord_infras.Text.{is_empty}
use distributed_chord_infras.Common.Sorting.{sorted}

-- The float operations of Python that the score uses. `ltb` is `<`.
pub record Floats : Type 1 where
  pub Float : Type 0
  pub of_nat : ℕ → Float
  pub neg : Float → Float
  pub add : Float → Float → Float
  pub mul : Float → Float → Float
  pub div : Float → Float → Float
  pub ltb : Float → Float → Bool

-- A completed heartbeat: `WorkerMetrics`.
pub record WorkerMetrics : Type 0 where
  pub worker_id : String
  pub pending_tasks : ℕ
  pub latency_ms : ℕ
  pub last_heartbeat_ts : ℕ

pub record WorkerStats : Type 0 where
  pub worker_id : String
  pub total_executed : ℕ
  pub successful : ℕ
  pub failed : ℕ

-- `rr_next` is `_rr_index + 1`, which starts at 0.
pub record WorkerRegistry : Type 0 where
  pub workers : Dict ℕ
  pub metrics : Dict WorkerMetrics
  pub stats : Dict WorkerStats
  pub tokens : Dict String
  pub optimistic_pending : Dict ℕ
  pub rr_next : ℕ
  pub timeout : ℕ

-- `DEFAULT_HEARTBEAT_TIMEOUT_S`
abbrev pub default_heartbeat_timeout_s : ℕ
default_heartbeat_timeout_s = 10

-- `__init__`
abbrev pub new_registry : ℕ → WorkerRegistry
new_registry timeout = record {
  workers = [];
  metrics = [];
  stats = [];
  tokens = [];
  optimistic_pending = [];
  rr_next = 0;
  timeout = timeout;
}

abbrev pub no_metrics : String → WorkerMetrics
no_metrics w = record { worker_id = w; pending_tasks = 0; latency_ms = 0; last_heartbeat_ts = 0 }

abbrev pub no_stats : String → WorkerStats
no_stats w = record { worker_id = w; total_executed = 0; successful = 0; failed = 0 }

-- `add_result`
unfoldable pub add_result : Bool → WorkerStats → WorkerStats
add_result is_success s =
    if is_success
    then record s { total_executed = s.total_executed + 1; successful = s.successful + 1 }
    else record s { total_executed = s.total_executed + 1; failed = s.failed + 1 }

abbrev pub get_or {ℓ} : {A : Type ℓ} → A → Option A → A
get_or d none = d
get_or d (some a) = a

-- `setdefault`, with the value that is then there.
abbrev pub stats_of : String → WorkerRegistry → WorkerStats
stats_of w r = get_or (no_stats w) (Dict.lookup w r.stats)

abbrev pub metrics_of : String → WorkerRegistry → WorkerMetrics
metrics_of w r = get_or (no_metrics w) (Dict.lookup w r.metrics)

abbrev pub pending_of : String → WorkerRegistry → ℕ
pending_of w r = get_or 0 (Dict.lookup w r.optimistic_pending)

-- The token of a process that sent the last heartbeat of the worker, where it is another one. No
-- token is the empty text.
abbrev pub other_token : String → Option String → Option String
other_token process_token none = none
other_token process_token (some prev) =
    if is_empty prev || str_eq prev process_token then none else some prev

unfoldable pub collision_with : String → String → WorkerRegistry → Option String
collision_with worker_id process_token r =
    if is_empty process_token
    then none
    else other_token process_token (Dict.lookup worker_id r.tokens)

-- `(now - timestamp) * 1000.0`, not below 0.
abbrev pub latency : Option ℕ → ℕ → ℕ
latency none now = 0
latency (some timestamp) now = (now - timestamp) * 1000

-- `heartbeat` for a worker that is named, with the state after it.
unfoldable pub heartbeat :
    String → ℕ → Option ℕ → String → ℕ → WorkerRegistry → Option String × WorkerRegistry
unfolding collision_with
heartbeat worker_id pending_tasks timestamp process_token now r = (
  collision_with worker_id process_token r,
  record r {
    tokens =
        if is_empty process_token then r.tokens else Dict.insert worker_id process_token r.tokens;
    workers = Dict.insert worker_id now r.workers;
    metrics =
        Dict.insert worker_id
          (record {
            worker_id = worker_id;
            pending_tasks = pending_tasks;
            latency_ms = latency timestamp now;
            last_heartbeat_ts = now;
          })
          r.metrics;
    stats = Dict.insert worker_id (stats_of worker_id r) r.stats;
    optimistic_pending = Dict.remove worker_id r.optimistic_pending;
  },
)

-- The call: an empty identifier raises `ValueError`.
unfoldable pub record_heartbeat :
    String → ℕ → Option ℕ → String → ℕ → WorkerRegistry → Result (Option String × WorkerRegistry)
unfolding heartbeat
record_heartbeat worker_id pending_tasks timestamp process_token now r =
    if is_empty worker_id
    then err Error.validation
    else ok (heartbeat worker_id pending_tasks timestamp process_token now r)

abbrev pub is_some {ℓ} : {A : Type ℓ} → Option A → Bool
is_some none = false
is_some (some a) = true

-- `remove`
unfoldable pub remove : String → WorkerRegistry → Bool × WorkerRegistry
remove worker_id r = (
  is_some (Dict.lookup worker_id r.workers),
  record r { metrics = Dict.remove worker_id r.metrics; workers = Dict.remove worker_id r.workers },
)

-- The order of texts, by the codes of their characters.
abbrev pub comes_before : String → String → Bool
comes_before a b = elim (compare a b) [ Ordering.lt ↦ true | _ ↦ false ]

abbrev pub names {ℓ} : {V : Type ℓ} → Dict V → List String
names [] = []
names ((w, v) ∷ d) = w ∷ names d

-- The test of a heartbeat at `t`. A timeout of 0 disables expiration.
abbrev pub fresh : ℕ → ℕ → ℕ → Bool
fresh timeout now t = timeout == 0 || leb (now - t) timeout

-- `_live_locked` and `live_workers`
unfoldable pub live_workers : ℕ → WorkerRegistry → List String
live_workers now r = sorted comes_before (names (filter (λ e. fresh r.timeout now e.1) r.workers))

-- `is_live`
unfoldable pub is_live : String → ℕ → WorkerRegistry → Bool
unfolding live_workers
is_live worker_id now r = elem worker_id (live_workers now r)

abbrev pub nth : ℕ → List String → Option String
nth i [] = none
nth zero (x ∷ xs) = some x
nth (suc i) (x ∷ xs) = nth i xs

-- `round_robin_assign`
unfoldable pub round_robin_assign : ℕ → WorkerRegistry → Option String × WorkerRegistry
unfolding live_workers
round_robin_assign now r = elim (live_workers now r) [
  | [] ↦ (none, r)
  | w ∷ ws ↦ let i = r.rr_next % length (w ∷ ws) in (nth i (w ∷ ws), record r { rr_next = i + 1 })
]

-- `now - t`, below 0 where the clock has gone back.
abbrev pub age : ℕ → ℕ → ℤ
age now t = if leb t now then ℤ.pos (now - t) else ℤ.negsuc (t - now - 1)

-- A row of `all_workers`: the worker, its last heartbeat and the age of it.
abbrev pub Row : Type 0
Row = String × ℕ × ℤ

abbrev pub rows : ℕ → Dict ℕ → List Row
rows now [] = []
rows now ((w, t) ∷ d) = (w, t, age now t) ∷ rows now d

-- `all_workers`: the workers differ, so the order of the rows is that of the names.
unfoldable pub all_workers : ℕ → WorkerRegistry → List Row
all_workers now r = sorted (λ a b. comes_before a.0 b.0) (rows now r.workers)

-- `dead_workers`, with the time of the last heartbeat besides.
unfoldable pub dead_workers : ℕ → WorkerRegistry → List Row
dead_workers now r =
    if r.timeout == 0
    then []
    else sorted (λ a b. comes_before a.0 b.0)
        (rows now (filter (λ e. not (leb (now - e.1) r.timeout)) r.workers))

-- `record_completion`
unfoldable pub record_completion : String → Bool → WorkerRegistry → WorkerRegistry
unfolding add_result
record_completion worker_id is_success r = if is_empty worker_id then r else record r {
  stats = Dict.insert worker_id (add_result is_success (stats_of worker_id r)) r.stats;
}

-- `note_assignment`
unfoldable pub note_assignment : String → WorkerRegistry → WorkerRegistry
note_assignment worker_id r = if is_empty worker_id then r else record r {
  optimistic_pending = Dict.insert worker_id (pending_of worker_id r + 1) r.optimistic_pending;
}

-- `m.pending_tasks + optimistic`
unfoldable pub effective_load : String → WorkerRegistry → ℕ
effective_load worker_id r = (metrics_of worker_id r).pending_tasks + pending_of worker_id r
