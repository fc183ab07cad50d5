-- ===== src/Activity/Tests.antt =====
-- A log of three events.
use distributed_chord_infras.Common.{none, [], ◌∷◌, List, ◌≡◌, refl, arith}
use distributed_chord_infras.Activity.{get_entries, Entry, entry, last}
use distributed_chord_infras.Activity.Recent.{log_all, get_entries-log_all}

abbrev events : List Entry
events = entry "job_claim" "a" none 1 ∷ entry "job_done" "b" none 2 ∷ entry "ring" "c" none 3 ∷ []

get_entries-log_all_example : get_entries 2 (log_all events []) ≡ last 2 events
get_entries-log_all_example = get_entries-log_all events 2 (omega arith) (omega arith)

-- A limit of 0 is no limit.
get_all : get_entries 0 events ≡ events
unfolding get_entries
get_all = refl
