-- ===== src/Maintenance/Tests.antt =====
-- The maintenance protocol in rings of two and three processes.
use distributed_chord_infras.Common.Dict
use distributed_chord_infras.Node.{ChordNode, successor, set_successor, self_ref}
use distributed_chord_infras.Network.{Cluster, ok, ◌>>◌, set_node}
use distributed_chord_infras.Maintenance.Joining.{IsJoining, stabilize_joins}
use distributed_chord_infras.Common.{
  List, String, ℕ, Option, arith, some, str_eq, ◌∷◌, [], if◌then◌else◌, none, refl, ◌≡◌, false,
  ◌==◌, ◌+◌, ◌≢◌, eq_iff,
}
use distributed_chord_infras.Records.{NodeRef, Value}
use distributed_chord_infras.Maintenance.{check_predecessor, leave, stabilize}
use distributed_chord_infras.Ring.{in_range}
use distributed_chord_infras.Lookup.Samples.{node, always, finger, always-IsReliable}
use distributed_chord_infras.Records.Dynamic.{Json}
use distributed_chord_infras.Common.Dict.{Dict}
use distributed_chord_infras.Maintenance.Failure.{check_predecessor_twice, stabilize_fails_over}
use distributed_chord_infras.Maintenance.Quiet.{stabilize_quiet}
use distributed_chord_infras.Maintenance.Leaving.{leave_hands_over}

-- The processes of a list, by their addresses.
abbrev among : List ChordNode → String → Option ChordNode
among [] a = none
among (n ∷ ns) a = if str_eq n.address a then some n else among ns a

abbrev running : List ChordNode → Cluster
running ns = record { nodes = among ns; calls = 0 }

distinct : (a b : String) → str_eq a b ≡ false → a ≢ b
distinct a b apart = ground (arith, eq_iff a b)

program : Unit {0}
unfolding successor in_range stabilize
program = tt

abbrev low : ChordNode
low = node "h:1" 10 (λ i. finger 200 "h:2")

abbrev high : ChordNode
high = record (node "h:2" 200 (λ i. finger 10 "h:1")) {
  predecessor = some (record { id = 10; address = "h:1" });
}

abbrev newcomer : ChordNode
newcomer = node "h:3" 100 (λ i. finger 200 "h:2")

abbrev joining : Cluster
joining = running (low ∷ high ∷ newcomer ∷ [])

joining-IsJoining : IsJoining joining "h:1" "h:3" "h:2" low newcomer high
unfolding program
joining-IsJoining = record {
  live_n = refl;
  live_j = refl;
  live_s = refl;
  apart_nj = distinct "h:1" "h:3" refl;
  apart_ns = distinct "h:1" "h:2" refl;
  apart_js = distinct "h:3" "h:2" refl;
  address_n = refl;
  address_j = refl;
  between = refl;
  ids_ns = omega arith;
  ids_js = omega arith;
  succ_n = refl;
  succ_j = refl;
  pred_s = refl;
  pred_j = refl;
}

stabilize_joins_example :
    (c' : Cluster) × ((stabilize always "h:3" >> stabilize always "h:1") joining ≡ (ok tt, c'))
    × (c'.nodes "h:1" ≡ some (set_successor (self_ref newcomer) low))
    × (c'.nodes "h:3" ≡ some (record newcomer { predecessor = some (self_ref low) }))
    × (c'.nodes "h:2" ≡ some (record high { predecessor = some (self_ref newcomer) }))
stabilize_joins_example =
    stabilize_joins always joining "h:1" "h:3" "h:2" low newcomer high always-IsReliable
      joining-IsJoining

-- The process at h:3 has crashed.
abbrev bereft : ChordNode
bereft = record (node "h:1" 10 (λ i. if i == 0 then finger 100 "h:3" else finger 200 "h:2")) {
  predecessor = some (record { id = 100; address = "h:3" });
}

abbrev crashed : Cluster
crashed = running (bereft ∷ high ∷ [])

stabilize_fails_over_example :
    (r : NodeRef) × (l : ℕ) × (stabilize always "h:1" crashed
      ≡ (ok tt, record (set_node "h:1" (set_successor r bereft) crashed) { calls = l }))
    × ((o' : ChordNode) × (crashed.nodes r.address ≡ some o'))
unfolding successor
stabilize_fails_over_example =
    stabilize_fails_over always "h:1" crashed bereft high 0 always-IsReliable refl (omega arith)
      refl (omega arith) (omega arith) refl

check_predecessor_twice_example :
    (k : ℕ) × (l : ℕ) × (check_predecessor always "h:1" crashed ≡ (
      ok tt,
      record (set_node "h:1" (record bereft { pred_fail_count = 1 }) crashed) { calls = k },
    ))
    × ((check_predecessor always "h:1" >> check_predecessor always "h:1") crashed ≡ (
      ok tt,
      record (set_node "h:1" (record bereft { predecessor = none; pred_fail_count = 0 }) crashed) {
        calls = l;
      },
    ))
check_predecessor_twice_example =
    check_predecessor_twice always "h:1" crashed bereft (record { id = 100; address = "h:3" })
      always-IsReliable refl refl refl refl refl

stabilize_quiet_example :
    stabilize always "h:1" joining ≡ (ok tt, record joining { calls = joining.calls + 2 })
unfolding successor
stabilize_quiet_example =
    stabilize_quiet always "h:1" joining low high always-IsReliable refl refl refl (omega arith)
      refl

abbrev leaving : ChordNode
leaving = record low {
  predecessor = some (record { id = 100; address = "h:3" });
  data_store = ("k", Value.other Json.null) ∷ [];
}

abbrev ring : Cluster
ring = running (leaving ∷ high ∷ newcomer ∷ [])

leave_hands_over_example :
    (s' : ChordNode) × (k : ℕ) × (leave always "h:1" ring ≡ (
      ok tt,
      record (set_node "h:3"
          (set_successor (successor leaving) newcomer)
          (set_node (successor leaving).address s' ring)) { calls = k },
    ))
    × (s'.data_store ≡ Dict.update leaving.data_store high.data_store)
    × (s'.predecessor ≡ some (record { id = 100; address = "h:3" }))
unfolding successor
leave_hands_over_example =
    leave_hands_over always "h:1" ring leaving high newcomer (record { id = 100; address = "h:3" })
      always-IsReliable refl (omega arith) refl (distinct "h:3" "h:2" refl) refl refl
