-- ===== src/Frontend/Tests.antt =====
-- A task that is created over a service whose first calls fail.
use distributed_chord_infras.Common.{
  ℕ, ◌+◌, ltb, some, none, ◌-◌, [], ◌*◌, if◌then◌else◌, ◌/◌, ◌∷◌, ◌≡◌, refl,
}
use distributed_chord_infras.Frontend.{
  Details, Frontend, create_task, choose_worker, write_record, write_assignment, Created,
}
use distributed_chord_infras.Registry.{Floats}
use distributed_chord_infras.Frontend.Accepted.{Says, create_task-Says}
use distributed_chord_infras.Stores.{Stores}
use distributed_chord_infras.Registry.History.{after, Event}
use distributed_chord_infras.Network.{ok, err, Error}
use distributed_chord_infras.Retry.{with_timeout_and_retry}
use distributed_chord_infras.Results.{build_result_record}

-- The state counts the calls; an append fails before the third call.
abbrev counting : Stores ℕ
counting = record {
  get = λ t n. (ok none, n + 1);
  put = λ t r n. (ok tt, n + 1);
  delete = λ t n. (ok tt, n + 1);
  assigned = λ w n. (ok [], n + 1);
  append = λ w t now n. (if ltb n 3 then err Error.unreachable else ok tt, n + 1);
  unassign = λ w t now n. (ok tt, n + 1);
  local_values = λ n. [];
}

abbrev plain : Floats
plain = record {
  Float = ℕ;
  of_nat = λ n. n;
  neg = λ x. 1000 - x;
  add = λ x y. x + y;
  mul = λ x y. x * y;
  div = λ x y. x / y;
  ltb = ltb;
}

abbrev start : Frontend ℕ
start = record { store = 0; registry = after 10 (Event.heard "v" 0 none "" 95 ∷ []) }

abbrev details : Details
details = record { task_type = "SCRIPT"; path = none; script = some "ls" }

create_task-Says_example :
    Says counting "t" 100 start (create_task counting plain none "t" (some details) "w" 100 start)
create_task-Says_example = create_task-Says counting plain none "t" (some details) "w" 100 start

response :
    (create_task counting plain none "t" (some details) "w" 100 start).0
    ≡ Created.accepted "w" "user"
unfolding create_task choose_worker write_record write_assignment with_timeout_and_retry
    build_result_record
response = refl
