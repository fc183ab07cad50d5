-- ===== src/Lookup/Tests.antt =====
-- Lookups in the ring of two processes.
use distributed_chord_infras.Records.{NodeRef, Value}
use distributed_chord_infras.Common.{
  String, true, ℕ, suc, ◌≡◌, ◌↔◌, ◌<◌, refl, ◌≤◌, arith, inl, some, ◌≢◌,
}
use distributed_chord_infras.Lookup.{find_successor, routed_put, routed_get}
use distributed_chord_infras.Ring.{in_range, sha1_id, clockwise}
use distributed_chord_infras.Lookup.Samples.{
  always, first, second, pair, always-IsReliable, pair-IsStable,
}
use distributed_chord_infras.Node.{closest_preceding_node, successor}
use distributed_chord_infras.Network.{Cluster, ok}
use distributed_chord_infras.Transport.{request}
use distributed_chord_infras.Lookup.Owner.{find_successor-agree, find_successor-IsOwner}
use distributed_chord_infras.Lookup.Stable.{IsOwner}
use distributed_chord_infras.Lookup.OwnId.{find_successor-own_id}
use distributed_chord_infras.Ring.Interval.{in_range_closed}
use distributed_chord_infras.Records.Dynamic.{Json}
use distributed_chord_infras.Lookup.Routed.{routed_get-routed_put}

-- The identifier of a key is the number of its characters.
abbrev digest : String → ℕ
digest String.[] = 0
digest (String.◌∷◌ c s) = suc (digest s)

program : Unit {0}
unfolding find_successor closest_preceding_node successor in_range request
program = tt

find_successor-between :
    (find_successor 256 always second 150 pair).0 ≡ ok (record { id = 200; address = "h:2" })
unfolding program
find_successor-between = refl

find_successor-own :
    (find_successor 256 always second 200 pair).0 ≡ ok (record { id = 10; address = "h:1" })
unfolding program
find_successor-own = refl

in_range_closed_example :
    (in_range 10 200 10 true ≡ true)
    ↔ ((0 < clockwise 200 10) × (clockwise 200 10 ≤ clockwise 200 10))
in_range_closed_example =
    in_range_closed 10 200 10 (omega arith) (omega arith) (omega arith) (omega arith)

find_successor-IsOwner_example :
    (r : NodeRef) × (k : ℕ) × (find_successor 256 always second 150 pair
      ≡ (ok r, record pair { calls = k }))
    × IsOwner pair.nodes 150 r
find_successor-IsOwner_example =
    find_successor-IsOwner always 256 pair "h:2" second 150 always-IsReliable pair-IsStable refl
      (omega arith) (inl (omega arith)) (omega arith)

find_successor-agree_example :
    (find_successor 256 always first 150 pair).0 ≡ (find_successor 256 always second 150 pair).0
find_successor-agree_example =
    find_successor-agree always 256 pair "h:1" "h:2" first second 150 always-IsReliable
      pair-IsStable refl refl (omega arith) (omega arith) (omega arith) (omega arith)

find_successor-own_id_example :
    (find_successor 256 always second 200 pair ≡ (ok (successor second), pair))
    × (¬ IsOwner pair.nodes 200 (successor second))
find_successor-own_id_example =
    find_successor-own_id always 255 pair "h:2" second refl (omega arith) (omega arith)
      (omega arith) refl

text_ne_null : Value.other (Json.text "v") ≢ Value.other Json.null
text_ne_null = ground arith

routed_get-routed_put_example :
    (id : ℕ) × (c' : Cluster) × (routed_put digest 256 always "h:1" "result:1"
        (Value.other (Json.text "v"))
        pair
      ≡ (ok id, c'))
    × ((routed_get digest 256 always "h:2" "result:1" c').0
        ≡ ok (some (Value.other (Json.text "v"))))
unfolding sha1_id
routed_get-routed_put_example =
    routed_get-routed_put digest always 256 pair "h:1" "h:2" first second "result:1"
      (Value.other (Json.text "v")) always-IsReliable (omega arith) pair-IsStable refl refl
      (omega arith) (omega arith) text_ne_null
