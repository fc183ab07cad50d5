-- ===== src/Activity.antt =====
-- The activity log of chord/activity.py: a deque of at most 300 entries, the oldest first. `now` is
-- the time that `time.time` returns.
pub mod Recent
use distributed_chord_infras.Common.{
  List, String, ℕ, Option, drop, if◌then◌else◌, ◌++◌, length, ◌==◌, ◌∷◌, [], ◌-◌,
}
use distributed_chord_infras.Records.Dynamic.{Json, truthy}
mod Tests
use distributed_chord_infras.Common.{none, some}

pub record Entry : Type 0 where
  pub ts : ℕ
  pub type : String
  pub msg : String
  pub details : Json

-- `deque(maxlen=300)`
abbrev pub max_entries : ℕ
max_entries = 300

-- `xs[-n:]` for a positive `n`.
abbrev pub last {ℓ} : {A : Type ℓ} → ℕ → List A → List A
last n xs = drop (length xs - n) xs

-- `details or {}`
abbrev pub entry : String → String → Option Json → ℕ → Entry
entry type msg details now = record {
  ts = now;
  type = type;
  msg = msg;
  details = elim details [
    | none ↦ Json.object ""
    | some d ↦ if truthy d then d else Json.object ""
  ];
}

-- `log`: a full deque drops its oldest entry.
unfoldable pub log : Entry → List Entry → List Entry
log e entries = last max_entries (entries ++ (e ∷ []))

-- `get_entries`: `entries[-0:]` is the whole list.
unfoldable pub get_entries : ℕ → List Entry → List Entry
get_entries limit entries = if limit == 0 then entries else last limit entries
