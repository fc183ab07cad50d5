-- ===== src/Recovery.antt =====
-- chord/recovery.py: the decision, the records that it leaves, and the conditions under which a
-- task is recovered. `now` is the time that `time.time` returns, which dates the records too.
pub mod Manager
pub mod Scan
pub mod Steps
pub mod Invariant
pub mod Bounded
pub mod Deployed
pub mod Listed
pub mod Quiet
pub mod Rest
mod Tests
pub mod Guard
pub mod Decision
pub mod Detected
use Prim.Native.Char.{code}
use distributed_chord_infras.Common.{◌++◌, length, ◌==◌}
use Prim.Native.String.{◌++◌ as text_append}
use distributed_chord_infras.Registry
use distributed_chord_infras.Common.{ltb}
use distributed_chord_infras.Common.{
  String, ℕ, Bool, List, Option, filter, if◌then◌else◌, some, ◌++◌, leb, none, not, str_eq, ◌+◌,
  ◌∷◌, [], false, ◌&&◌, ◌||◌, elem, ◌-◌, true,
}
use distributed_chord_infras.Records.Dynamic.{Json}
use distributed_chord_infras.Records.{ResultRecord, Value}
use distributed_chord_infras.Registry.{WorkerRegistry, get_or, Floats}
use distributed_chord_infras.Text.{decimal, is_empty}
use distributed_chord_infras.Activity.{last}
use distributed_chord_infras.Network.{Result, ok, Error, err}
use distributed_chord_infras.Stores.{Stores}
use distributed_chord_infras.Common.Dict.{Dict}

-- `MAX_RECOVERY_ATTEMPTS` and `RECOVERY_WAIT_SECONDS` of chord/worker_config.py
abbrev pub max_recovery_attempts : ℕ
max_recovery_attempts = 8

abbrev pub recovery_wait_seconds : ℕ
recovery_wait_seconds = 30

-- `record.get(field, default)`
abbrev pub attempts : ResultRecord → ℕ
attempts r = get_or 0 r.attempt_count

abbrev pub limit : ResultRecord → ℕ
limit r = get_or max_recovery_attempts r.max_attempts

abbrev pub retry_or_wait : Bool → String
retry_or_wait has_live_workers = if has_live_workers then "RETRY_DIFFERENT" else "WAIT_AND_RETRY"

-- `failure_type == kind`; none is None.
abbrev pub is_kind : Option String → String → Bool
is_kind none kind = false
is_kind (some failure_type) kind = str_eq failure_type kind

unfoldable pub choose_recovery_path : ResultRecord → Option String → Bool → String
choose_recovery_path r failure_type has_live_workers =
    if leb (limit r) (attempts r)
    then "GIVE_UP"
    else if is_kind failure_type "task_timeout"
    then retry_or_wait has_live_workers
    else if is_kind failure_type "worker_crash"
    then retry_or_wait has_live_workers
    else if is_kind failure_type "task_failure"
    then (if get_or false r.retry_on_failure then retry_or_wait has_live_workers else "GIVE_UP")
    else "GIVE_UP"

-- The fields that `_execute` sets on every path.
abbrev pub failing : Option String → ℕ → ResultRecord → ResultRecord
failing failure_type now r = record r { last_failure_reason = failure_type; updated_at = now }

abbrev pub noted : String → ResultRecord → ResultRecord
noted line r = record r { recovery_history = r.recovery_history ++ (line ∷ []) }

abbrev pub in_words : ℕ → String
in_words n = text_append (decimal n) " attempt(s)"

-- `worker_result` is the result that is replaced, unless it is null or a text.
abbrev pub kept_result : Json → Option Json → Option Json
kept_result Json.null old = old
kept_result (Json.text s) old = old
kept_result v old = some v

unfoldable pub give_up : ResultRecord → ResultRecord
give_up r = noted "GIVE_UP" (record r {
  status = "FAILURE";
  worker_result = kept_result r.result r.worker_result;
  result = Json.text (text_append "Permanently failed after " (in_words (attempts r)));
})

-- The line of the history begins with `reason`.
unfoldable pub wait_until : String → ℕ → ResultRecord → ResultRecord
wait_until reason retry_at r =
    noted (text_append reason (text_append (decimal retry_at) ")"))
      (record r { recovery_status = some "WAITING_FOR_RETRY"; retry_at = some retry_at })

unfoldable pub retry_on : String → String → ResultRecord → ResultRecord
retry_on path new_worker r = noted (text_append path (text_append " on " new_worker)) (record r {
  attempt_count = some (attempts r + 1);
  worker_id = new_worker;
  status = "PENDING";
  recovery_status = none;
  retry_at = none;
  timed_out = false;
})

abbrev pub head : List String → Option String
head [] = none
head (w ∷ ws) = some w

-- The workers other than one.
abbrev pub others : String → List String → List String
others current ws = filter (λ w. not (str_eq w current)) ws

abbrev pub or_first : List String → Option String → Option String
or_first ws none = head ws
or_first ws (some w) = some w

-- The worker of a retry, from the live workers by falling score.
unfoldable pub pick_worker : String → String → List String → Bool → Option String
pick_worker path current ws current_is_live =
    if str_eq path "RETRY_SAME"
    then (if not (is_empty current) && current_is_live then some current else head ws)
    else or_first ws (head (others current ws))

abbrev pub is_none {ℓ} : {A : Type ℓ} → Option A → Bool
is_none none = true
is_none (some a) = false

-- `key.startswith(prefix)`
abbrev pub starts_with : String → String → Bool
starts_with String.[] key = true
starts_with (String.◌∷◌ c p) String.[] = false
starts_with (String.◌∷◌ c p) (String.◌∷◌ d key) = code c == code d && starts_with p key

-- The conditions of the detection methods.
unfoldable pub is_unfinished : ResultRecord → Bool
is_unfinished r = elem r.status ("PENDING" ∷ "RUNNING" ∷ [])

unfoldable pub is_timed_out : ResultRecord → Bool
is_timed_out r =
    str_eq r.status "FAILURE"
    && r.timed_out
    && is_none r.recovery_status
    && is_none (head r.recovery_history)

unfoldable pub is_failed : ResultRecord → Bool
is_failed r =
    str_eq r.status "FAILURE"
    && not r.timed_out
    && is_none r.recovery_status
    && not (elem "GIVE_UP" r.recovery_history)

unfoldable pub is_stuck : Bool → ResultRecord → Bool
unfolding is_unfinished
is_stuck worker_is_live r = is_unfinished r && not (is_empty r.worker_id) && not worker_is_live

abbrev pub is_past : ℕ → Option ℕ → Bool
is_past now none = false
is_past now (some t) = leb t now

unfoldable pub is_due : ℕ → ResultRecord → Bool
is_due now r = str_eq (get_or "" r.recovery_status) "WAITING_FOR_RETRY" && is_past now r.retry_at

-- The result records among the values under `result:` keys.
abbrev pub as_listed : String → Value → List ResultRecord → List ResultRecord
as_listed key (Value.result_details r) rest = if starts_with "result:" key then r ∷ rest else rest
as_listed key _ rest = rest

abbrev pub result_records : Dict Value → List ResultRecord
result_records [] = []
result_records ((key, v) ∷ d) = as_listed key v (result_records d)
