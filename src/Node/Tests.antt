-- ===== src/Node/Tests.antt =====
-- One node of the ring with a predecessor and a file.
use distributed_chord_infras.Node
use distributed_chord_infras.Common.Dict
use distributed_chord_infras.Node.{ChordNode}
use distributed_chord_infras.Node.Laws.{IsSaved, IsSaved-recovers}
use distributed_chord_infras.Records.{NodeRef, Value}
use distributed_chord_infras.Common.{
  String, ◌≡◌, some, ℕ, suc, true, ◌∷◌, [], refl, false, arith, ◌≢◌,
}
use distributed_chord_infras.Records.Dynamic.{Json}

-- The identifier of a key is the number of its characters.
abbrev digest : String → ℕ
digest String.[] = 0
digest (String.◌∷◌ c s) = suc (digest s)

abbrev before : NodeRef
before = record { id = 200; address = "h:2" }

abbrev nearer : NodeRef
nearer = record { id = 250; address = "h:3" }

abbrev kept : Dict.Dict Value
kept = ("result:1", Value.other (Json.text "v")) ∷ ("result:2", Value.other Json.null) ∷ []

abbrev sample : ChordNode
sample = record {
  address = "h:1";
  node_id = 10;
  predecessor = some before;
  fingers = λ i. record { start = 0; node_id = 200; node_address = "h:2" };
  data_store = kept;
  jobs_completed = 0;
  jobs_failed = 0;
  pred_fail_count = 0;
  persistent = true;
  snapshot = some kept;
}

text_ne_null : some (Value.other (Json.text "v")) ≢ some (Value.other Json.null)
text_ne_null = ground arith

IsSaved-recovers_example :
    IsSaved (Node.put "result:1" (Value.other Json.null) sample)
    × IsSaved (Node.delete "result:1" sample).1
    × IsSaved (Node.bulk_put kept sample)
    × ((Node.new_node digest "h:1" (some 10) true (some kept)).data_store ≡ kept)
unfolding Dict.lookup
IsSaved-recovers_example =
    IsSaved-recovers digest "result:1" (Value.other Json.null) kept sample (refl, refl) text_ne_null

-- The deletion of a stored null reaches the store and not the file.
delete_null :
    Node.delete "result:2" sample
    ≡ (false, record sample { data_store = ("result:1", Value.other (Json.text "v")) ∷ [] })
unfolding Node.delete Dict.lookup Dict.remove
delete_null = refl
