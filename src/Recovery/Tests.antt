-- ===== src/Recovery/Tests.antt =====
-- A scan over records in memory.
use Prim.Native.String.{◌++◌ as text_append}
use distributed_chord_infras.Node
use distributed_chord_infras.Network.{reply_lost, delivered, Cluster, World, set_node}
use distributed_chord_infras.Lookup.Samples.{first, each, pair}
use distributed_chord_infras.Common.Dict
use distributed_chord_infras.Common.Dict.{Dict}
use distributed_chord_infras.Network.{ok}
use distributed_chord_infras.Common.{
  String, ℕ, List, [], ◌∷◌, some, none, Option, true, false, ltb, ◌-◌, ◌≡◌, elem, ◌+◌, ◌↔◌, ◌*◌,
  refl, ◌/◌, ◌≢◌, ◌⊎◌, arith, if◌then◌else◌, ◌%◌, ◌==◌,
}
use distributed_chord_infras.Registry.{WorkerRegistry, Floats}
use distributed_chord_infras.Recovery.Detected.{give_up-IsOver, IsOver}
use distributed_chord_infras.Recovery.Manager.{Manager}
use distributed_chord_infras.Records.{ResultRecord, Value}
use distributed_chord_infras.Stores.{Stores, chord_stores}
use distributed_chord_infras.Registry.History.{after, Event}
use distributed_chord_infras.Recovery.{
  choose_recovery_path, pick_worker, give_up, failing, head, others,
}
use distributed_chord_infras.Recovery.Scan.{trigger}
use distributed_chord_infras.Records.Dynamic.{Json}
use distributed_chord_infras.Results.{as_result}
use distributed_chord_infras.Recovery.Guard.{trigger-in_progress}
use distributed_chord_infras.Recovery.Decision.{
  may_retry, choose_recovery_path_lem, pick_worker_lem,
}
use distributed_chord_infras.Recovery.Deployed.{AllWithin, IsWithin, trigger-AllWithin}
use distributed_chord_infras.Node.{ChordNode}
use distributed_chord_infras.Stores.Values.{set_node-Stored, AllFit}
use distributed_chord_infras.Recovery.Rest.{trigger-rests, AllOver}
use distributed_chord_infras.Recovery.Listed.{OnRecords}

abbrev as_record : Option Value → Option ResultRecord
as_record none = none
as_record (some v) = as_result v

-- A service that keeps values under their keys, and has one task in the list of every worker.
abbrev in_memory : Stores (Dict Value)
in_memory = record {
  get = λ t s. (ok (as_record (Dict.lookup (text_append "result:" t) s)), s);
  put = λ t r s. (ok tt, Dict.insert (text_append "result:" t) (Value.result_details r) s);
  delete = λ t s. (ok tt, Dict.remove (text_append "result:" t) s);
  assigned = λ w s. (ok ("t" ∷ []), s);
  append = λ w t now s. (ok tt, s);
  unassign = λ w t now s. (ok tt, s);
  local_values = λ s. s;
}

abbrev sample : ResultRecord
sample = record {
  schema_version = 1;
  task_id = "t";
  task_type = "SCRIPT";
  path = "";
  script = "ls";
  status = "RUNNING";
  worker_id = "w";
  assigned_by = "user";
  result = Json.null;
  worker_result = none;
  created_at = 1;
  updated_at = 1;
  attempt_count = some 1;
  max_attempts = some 3;
  last_failure_reason = none;
  retry_on_failure = some false;
  recovery_history = [];
  recovery_status = none;
  retry_at = none;
  timed_out = false;
}

-- The worker of the task is not live, another one is.
abbrev registry : WorkerRegistry
registry = after 10 (Event.heard "v" 0 none "" 95 ∷ Event.heard "w" 1 none "" 20 ∷ [])

abbrev manager : Manager (Dict Value)
manager = record {
  store = ("result:t", Value.result_details sample) ∷ [];
  registry = registry;
  events = [];
  in_progress = "u" ∷ [];
  last_spawn_trigger = 0;
}

abbrev plain : Floats
plain = record {
  Float = ℕ;
  of_nat = λ n. n;
  neg = λ x. 1000 - x;
  add = λ x y. x + y;
  mul = λ x y. x * y;
  div = λ x y. x / y;
  ltb = ltb;
}

trigger-in_progress_example :
    ((trigger in_memory plain none (λ e. "error") 100 manager).registry ≡ registry)
    × ((trigger in_memory plain none (λ e. "error") 100 manager).in_progress ≡ "u" ∷ [])
trigger-in_progress_example = trigger-in_progress in_memory plain none (λ e. "error") 100 manager

choose_recovery_path_lem_example :
    ((choose_recovery_path sample (some "task_failure") true ≡ "RETRY_DIFFERENT")
      ↔ (may_retry sample (some "task_failure") ≡ true) × (true ≡ true))
    × ((choose_recovery_path sample (some "task_failure") true ≡ "WAIT_AND_RETRY")
        ↔ (may_retry sample (some "task_failure") ≡ true) × (true ≡ false))
    × ((choose_recovery_path sample (some "task_failure") true ≡ "GIVE_UP")
        ↔ (may_retry sample (some "task_failure") ≡ false))
    × (choose_recovery_path sample (some "task_failure") true ≢ "RETRY_SAME")
choose_recovery_path_lem_example = choose_recovery_path_lem sample (some "task_failure") true

pick_worker_lem_example :
    ((w : String)
      → pick_worker "RETRY_DIFFERENT" "w" ("w" ∷ "v" ∷ []) true ≡ some w
      → (elem w ("w" ∷ "v" ∷ []) ≡ true)
        × ((head (others "w" ("w" ∷ "v" ∷ [])) ≡ some w)
            ⊎ (others "w" ("w" ∷ "v" ∷ []) ≡ []) × (head ("w" ∷ "v" ∷ []) ≡ some w)))
    × (pick_worker "RETRY_DIFFERENT" "w" ("w" ∷ "v" ∷ []) true ≡ none
        → ◌≡◌ {A = List String} ("w" ∷ "v" ∷ []) [])
pick_worker_lem_example = pick_worker_lem "w" ("w" ∷ "v" ∷ []) true

-- Every third call is lost after it has taken effect.
abbrev lossy : World
lossy call address = if call % 3 == 1 then reply_lost else delivered

abbrev digest : String → ℕ
digest s = 7

-- The first process of a ring of two stores the record.
abbrev holder : ChordNode
holder = Node.put "result:t" (Value.result_details sample) first

abbrev deployed : Manager Cluster
deployed = record {
  store = set_node "h:1" holder pair;
  registry = registry;
  events = [];
  in_progress = [];
  last_spawn_trigger = 0;
}

deployed-AllWithin : AllWithin deployed.store
unfolding Node.put Node.save_to_disk Dict.insert
deployed-AllWithin =
    set_node-Stored IsWithin "h:1" holder pair (omega arith, tt)
      (each (λ a n. AllFit IsWithin n.data_store) tt tt)

trigger-AllWithin_example :
    AllWithin
      (trigger (chord_stores digest 3 lossy "h:1" 3) plain none (λ e. "error") 100 deployed).store
trigger-AllWithin_example =
    trigger-AllWithin digest 3 lossy "h:1" 3 plain (λ e. "error") 100 deployed deployed-AllWithin

-- The same processes, after the task was given up.
abbrev given_up : ResultRecord
given_up = give_up (failing (some "task_failure") 90 sample)

abbrev settled : Manager Cluster
settled = record deployed {
  store = set_node "h:1" (Node.put "result:t" (Value.result_details given_up) first) pair;
}

settled-AllOver : AllOver settled.store
unfolding Node.put Node.save_to_disk Dict.insert
settled-AllOver =
    set_node-Stored (OnRecords IsOver) "h:1"
      (Node.put "result:t" (Value.result_details given_up) first) pair
      (give_up-IsOver (some "task_failure") 90 sample refl, tt)
      (each (λ a n. AllFit (OnRecords IsOver) n.data_store) tt tt)

trigger-rests_example :
    (l : ℕ) × (trigger (chord_stores digest 3 lossy "h:1" 3) plain none (λ e. "error") 100 settled
      ≡ record settled { store = record settled.store { calls = l } })
trigger-rests_example =
    trigger-rests digest 3 lossy "h:1" 3 plain none (λ e. "error") 100 settled settled-AllOver
