-- ===== src/Maintenance.antt =====
-- The maintenance protocol of chord/node.py: `join`, `stabilize`, `fix_fingers`,
-- `check_predecessor` and `leave`, run by the process at the address `self`. The state is read and
-- written where the code takes its lock; the calls lie between.
pub mod Quiet
pub mod Joining
pub mod Failure
pub mod Leaving
mod Tests
use distributed_chord_infras.Transport
use distributed_chord_infras.Records.{NodeRef, Value}
use distributed_chord_infras.Common.{
  String, ℕ, Option, List, if◌then◌else◌, some, [], ltb, ◌==◌, false, suc, ◌+◌, none, ◌∷◌, zero,
}
use distributed_chord_infras.Network.{World, Action, pure, try_except, ok, set_node, ◌>>◌, ◌>>=◌}
use distributed_chord_infras.Node.{
  successor, ChordNode, set_finger, set_successor, self_ref, finger_ref,
}
use distributed_chord_infras.Common.Dict.{Dict}
use distributed_chord_infras.Lookup.{here, find_successor}
use distributed_chord_infras.Transport.{request}
use distributed_chord_infras.Ring.{in_range, m}

-- A write to the process's own state.
abbrev pub update_here : String → (ChordNode → ChordNode) → Action Unit
update_here self f = here self (λ n c. (ok tt, set_node self (f n) c))

module _ (fuel : ℕ) (world : World) where
  -- `HttpTransport.find_successor`
  unfoldable pub ask_successor : String → ℕ → Action NodeRef
  ask_successor address key_id = request world address (λ n. find_successor fuel world n key_id)

  unfoldable pub join : String → Option String → Action Unit
  join self none =
      update_here self (λ n. set_successor (self_ref n) (record n { predecessor = none }))
  join self (some known) = do
    update_here self (λ n. record n { predecessor = none })
    id ← here self (λ n. pure n.node_id)
    succ ← ask_successor known id
    update_here self (set_successor succ)

  -- `i` is the random index between 1 and M - 1.
  unfoldable pub fix_fingers : String → ℕ → Action Unit
  fix_fingers self i =
      try_except
        (do
          result ← here self (λ n. find_successor fuel world n (n.fingers i).start)
          update_here self (set_finger i result))
        (λ _. pure tt)

-- The successor takes over if its predecessor lies between.
unfoldable pub adopt : Option NodeRef → ℕ → ChordNode → ChordNode
adopt none my_id n = n
adopt (some x) my_id n = if in_range x.id my_id (successor n).id false then set_successor x n else n

-- The fingers from M - 1 down to 1 that refer to another node.
unfoldable pub candidates_below : ℕ → ChordNode → List NodeRef
candidates_below zero n = []
candidates_below (suc zero) n = []
candidates_below (suc (suc i)) n =
    let rest = candidates_below (suc i) n in
    if (n.fingers (suc i)).node_id == n.node_id then rest else finger_ref (n.fingers (suc i)) ∷ rest

-- A ping of the predecessor failed: only the second failure in a row clears it.
unfoldable pub missed : NodeRef → ChordNode → ChordNode
missed p n =
    if ltb (n.pred_fail_count + 1) 2
    then record n { pred_fail_count = n.pred_fail_count + 1 }
    else record n {
      predecessor = elim n.predecessor [
        | none ↦ none
        | some q ↦ if q.id == p.id then none else some q
      ];
      pred_fail_count = 0;
    }

module _ (world : World) where
  -- The loop over the candidates: the first that answers becomes the successor.
  unfoldable pub fall_back : String → List NodeRef → Action Unit
  fall_back self [] = pure tt
  fall_back self (r ∷ rs) =
      try_except (Transport.ping world r.address >> update_here self (set_successor r))
        (λ _. fall_back self rs)

  -- The calls of one round: ask the successor for its predecessor, and notify the successor.
  unfoldable pub ask_and_notify : String → ChordNode → Action Unit
  ask_and_notify self n = do
    x ← Transport.get_predecessor world (successor n).address
    update_here self (adopt x n.node_id)
    succ ← here self (λ n'. pure (successor n'))
    Transport.notify world succ.address (self_ref n)

  -- The bootstrap of a ring of one.
  unfoldable pub follow_predecessor : ChordNode → ChordNode
  follow_predecessor n = elim n.predecessor [
    | none ↦ n
    | some p ↦ if p.id == n.node_id then n else set_successor p n
  ]

  unfoldable pub stabilize : String → Action Unit
  stabilize self = here self λ n.
      if (successor n).id == n.node_id
      then update_here self follow_predecessor
      else try_except (ask_and_notify self n)
          (λ _. here self (λ n'. fall_back self (candidates_below m n')))

  -- The part of `check_predecessor` after the predecessor is read.
  unfoldable pub ping_predecessor : String → Option NodeRef → Action Unit
  ping_predecessor self none = pure tt
  ping_predecessor self (some p) =
      try_except
        (Transport.ping world p.address >> update_here self (λ n. record n { pred_fail_count = 0 }))
        (λ _. update_here self (missed p))

  unfoldable pub check_predecessor : String → Action Unit
  check_predecessor self = here self λ n. ping_predecessor self n.predecessor

  -- `try: ... except Exception: log`
  abbrev pub attempt : Action Unit → Action Unit
  attempt body = try_except body (λ _. pure tt)

  abbrev pub send_data : NodeRef → Dict Value → Action Unit
  send_data succ [] = pure tt
  send_data succ ((k, v) ∷ d) = attempt (Transport.bulk_put world succ.address ((k, v) ∷ d))

  abbrev pub relink : NodeRef → Option NodeRef → Action Unit
  relink succ none = pure tt
  relink succ (some pred) = do
    attempt (Transport.update_predecessor world succ.address pred)
    attempt (Transport.update_successor world pred.address succ)

  unfoldable pub leave : String → Action Unit
  leave self = here self λ n.
      if (successor n).id == n.node_id
      then pure tt
      else (send_data (successor n) n.data_store >> relink (successor n) n.predecessor)
