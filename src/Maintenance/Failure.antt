-- ===== src/Maintenance/Failure.antt =====
-- A dead neighbour, in `stabilize` and `check_predecessor` of chord/node.py.
use distributed_chord_infras.Common.{
  String, Option, List, ℕ, ◌≡◌, some, suc, ◌<◌, ◌≢◌, arith, none, ℕ_discrete, ◌∷◌, Option-cases,
  inl, ◌⊎◌, Bool-cases, [], inr, sym, ◌+◌, ◌==◌, ◌∙◌, zero, refl, str_eq, ==_iff, false, ap,
}
use distributed_chord_infras.Network.{World, Cluster, ok, set_node, err, Error, ◌>>◌}
use distributed_chord_infras.Maintenance.{
  candidates_below, fall_back, ask_and_notify, check_predecessor, missed, stabilize,
  ping_predecessor,
}
use distributed_chord_infras.Transport.Delivery.{IsReliable}
use distributed_chord_infras.Node.{ChordNode, set_successor, successor}
use distributed_chord_infras.Records.{NodeRef}
use distributed_chord_infras.Lookup.Owner.{not_eq}
use distributed_chord_infras.Transport.Calls.{ping_lem, ping_absent, get_predecessor_absent}
use distributed_chord_infras.Lookup.{here}
use distributed_chord_infras.Ring.{m}
use distributed_chord_infras.Network.Nodes.{set_node_self, set_node_other, set_node_twice}

-- Some reference of the list is to an address at which a process runs.
abbrev pub HasLive : (String → Option ChordNode) → List NodeRef → Type 0
HasLive nodes [] = ⊥
HasLive nodes (r ∷ rs) = ((o : ChordNode) × (nodes r.address ≡ some o)) ⊎ HasLive nodes rs

-- A finger that is live is among the candidates.
candidates-HasLive :
    (nodes : String → Option ChordNode) (n : ChordNode) (k i : ℕ)
    → suc i < k
    → (n.fingers (suc i)).node_id ≢ n.node_id
    → (o : ChordNode) → nodes (n.fingers (suc i)).node_address ≡ some o
    → HasLive nodes (candidates_below k n)
unfolding candidates_below
candidates-HasLive nodes n zero i lt other o at = elim lt [ ]
candidates-HasLive nodes n (suc zero) i lt other o at = absurd (omega arith)
candidates-HasLive nodes n (suc (suc k)) i lt other o at = elim (ℕ_discrete k i) [
  | yes e ↦ rw e (rw (not_eq other) (inl (o, at)))
  | no ne ↦
      let rest = candidates-HasLive nodes n (suc k) i (omega arith) other o at in
      elim (Bool-cases ((n.fingers (suc k)).node_id == n.node_id)) [
        | inl own ↦ rw own rest
        | inr theirs ↦ rw theirs (inr rest)
      ]
]

none_ne_some : {o : ChordNode} → none ≡ some o → ⊥
none_ne_some e = cc

module _ (world : World) (reliable : IsReliable world) (self : String)
    (nodes : String → Option ChordNode) (n : ChordNode) (live : nodes self ≡ some n) where
  abbrev now : ℕ → Cluster
  now k = record { nodes = nodes; calls = k }

  skip :
      (r : NodeRef) (rs : List NodeRef)
      → nodes r.address ≡ none
      → HasLive nodes (r ∷ rs)
      → HasLive nodes rs
  skip r rs dead (inl (o, at)) = absurd (none_ne_some (sym dead ∙ at))
  skip r rs dead (inr h) = h

  fall_back-HasLive :
      (rs : List NodeRef) (k : ℕ)
      → HasLive nodes rs
      → (r : NodeRef) × (l : ℕ) × (fall_back world self rs (now k)
          ≡ (ok tt, record (set_node self (set_successor r n) (now l)) { calls = l }))
        × ((o : ChordNode) × (nodes r.address ≡ some o))
  unfolding fall_back set_node
  fall_back-HasLive [] k h = absurd h
  fall_back-HasLive (r ∷ rs) k h = elim (Option-cases (nodes r.address)) [
    | inr (o, at) ↦ (
      r,
      k + 1,
      rw (ping_lem world reliable r.address (now k) o at) (rw (live, here) refl),
      (o, at),
    )
    | inl dead ↦
        let (l, e) = ping_absent world reliable r.address nodes dead k in
        let (r', l', done, alive) = fall_back-HasLive rs l (skip r rs dead h) in
        (r', l', rw e done, alive)
  ]

  -- The calls of a round raise where the successor is dead.
  ask_and_notify_dead :
      (k : ℕ)
      → nodes (successor n).address ≡ none
      → (l : ℕ) × (ask_and_notify world self n (now k) ≡ (err Error.unreachable, now l))
  unfolding ask_and_notify
  ask_and_notify_dead k dead =
      let (l, e) = get_predecessor_absent world reliable (successor n).address nodes dead k in
      (l, rw e refl)

  stabilize_dead :
      (k : ℕ)
      → (successor n).id ≢ n.node_id
      → nodes (successor n).address ≡ none
      → HasLive nodes (candidates_below m n)
      → (r : NodeRef) × (l : ℕ) × (stabilize world self (now k)
          ≡ (ok tt, record (set_node self (set_successor r n) (now l)) { calls = l }))
        × ((o : ChordNode) × (nodes r.address ≡ some o))
  unfolding stabilize
  stabilize_dead k other dead h =
      let (l, failed) = ask_and_notify_dead k dead in
      let (r, l', done, alive) = fall_back-HasLive (candidates_below m n) l h in
      (r, l', rw (live, here) (rw (not_eq other) (rw failed (rw (live, here) done))), alive)

-- Where the successor of a process is dead and some other finger refers to a live process, one
-- round of `stabilize` over a network that delivers every call makes a live process the successor,
-- and changes nothing else.
pub stabilize_fails_over :
    (world : World) (self : String) (c : Cluster) (n o : ChordNode) (i : ℕ)
    → IsReliable world
    → c.nodes self ≡ some n
    → (successor n).id ≢ n.node_id
    → c.nodes (successor n).address ≡ none
    → suc i < m
    → (n.fingers (suc i)).node_id ≢ n.node_id
    → c.nodes (n.fingers (suc i)).node_address ≡ some o
    → (r : NodeRef) × (l : ℕ) × (stabilize world self c
        ≡ (ok tt, record (set_node self (set_successor r n) c) { calls = l }))
      × ((o' : ChordNode) × (c.nodes r.address ≡ some o'))
unfolding set_node
stabilize_fails_over world self c n o i reliable live other dead lt theirs at =
    stabilize_dead world reliable self c.nodes n live c.calls other dead
      (candidates-HasLive c.nodes n m i lt theirs o at)

module _ (world : World) (reliable : IsReliable world) (self : String) (c : Cluster) (n : ChordNode)
    (p : NodeRef) (live : c.nodes self ≡ some n) (pred : n.predecessor ≡ some p) where
  check_is_ping : check_predecessor world self c ≡ ping_predecessor world self (some p) c
  unfolding check_predecessor
  check_is_ping = rw (live, here) (ap (λ q. ping_predecessor world self q c) pred)

  ping_predecessor_dead :
      c.nodes p.address ≡ none
      → (l : ℕ) × (ping_predecessor world self (some p) c
          ≡ (ok tt, record (set_node self (missed p n) c) { calls = l }))
  unfolding ping_predecessor set_node
  ping_predecessor_dead dead =
      let (l, failed) = ping_absent world reliable p.address c.nodes dead c.calls in
      (l, rw failed (rw (live, here) refl))

  ping_predecessor_alive :
      (o : ChordNode)
      → c.nodes p.address ≡ some o
      → ping_predecessor world self (some p) c ≡ (
        ok tt,
        record (set_node self (record n { pred_fail_count = 0 }) c) { calls = c.calls + 1 },
      )
  unfolding ping_predecessor set_node
  ping_predecessor_alive o at = rw (ping_lem world reliable p.address c o at) (rw (live, here) refl)

  check_dead :
      c.nodes p.address ≡ none
      → (l : ℕ) × (check_predecessor world self c
          ≡ (ok tt, record (set_node self (missed p n) c) { calls = l }))
  check_dead dead = let (l, e) = ping_predecessor_dead dead in (l, check_is_ping ∙ e)

  -- A predecessor that answers is kept, and the count of failures starts again.
  pub check_predecessor_alive :
      (o : ChordNode)
      → c.nodes p.address ≡ some o
      → check_predecessor world self c ≡ (
        ok tt,
        record (set_node self (record n { pred_fail_count = 0 }) c) { calls = c.calls + 1 },
      )
  check_predecessor_alive o at = check_is_ping ∙ ping_predecessor_alive o at

missed_once :
    (p : NodeRef) (n : ChordNode)
    → n.pred_fail_count ≡ 0
    → missed p n ≡ record n { pred_fail_count = 1 }
unfolding missed
missed_once p n none_yet = rw none_yet refl

missed_twice :
    (p : NodeRef) (n : ChordNode)
    → n.predecessor ≡ some p
    → missed p (record n { pred_fail_count = 1 })
      ≡ record n { predecessor = none; pred_fail_count = 0 }
unfolding missed
missed_twice p n pred = rw pred (rw ((==_iff p.id p.id).1 refl) refl)

-- Over a network that delivers every call, where no process runs at the predecessor's address,
-- which is not the process's own, and the count of failed checks is 0, the predecessor survives the
-- first check and is cleared by the second: after one check only the count has changed, and after
-- two the predecessor is gone and the count is 0.
pub check_predecessor_twice :
    (world : World) (self : String) (c : Cluster) (n : ChordNode) (p : NodeRef)
    → IsReliable world
    → c.nodes self ≡ some n
    → n.predecessor ≡ some p
    → n.pred_fail_count ≡ 0
    → c.nodes p.address ≡ none
    → str_eq p.address self ≡ false
    → (k : ℕ) × (l : ℕ) × (check_predecessor world self c
        ≡ (ok tt, record (set_node self (record n { pred_fail_count = 1 }) c) { calls = k }))
      × ((check_predecessor world self >> check_predecessor world self) c ≡ (
        ok tt,
        record (set_node self (record n { predecessor = none; pred_fail_count = 0 }) c) {
          calls = l;
        },
      ))
unfolding set_node
check_predecessor_twice world self c n p reliable live pred none_yet dead apart =
    let n' : ChordNode = record n { pred_fail_count = 1 } in
    let (k, once) = check_dead world reliable self c n p live pred dead in
    let first : check_predecessor world self c
        ≡ (ok tt, record (set_node self n' c) { calls = k }) =
      once ∙ (λ i. (ok tt, record (set_node self (missed_once p n none_yet i) c) { calls = k })) in
    let c' : Cluster = record (set_node self n' c) { calls = k } in
    let (l, again) =
      check_dead world reliable self c' n' p (set_node_self self n' c) pred
        (set_node_other self n' c p.address apart ∙ dead) in
    (
      k,
      l,
      first,
      rw first again
          ∙ (λ i. (ok tt, record (set_node self (missed_twice p n pred i) c') { calls = l }))
          ∙ (λ i. (
            ok tt,
            record (set_node_twice self (record n { predecessor = none; pred_fail_count = 0 }) n' c
                i) { calls = l },
          )),
    )
