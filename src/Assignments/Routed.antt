-- ===== src/Assignments/Routed.antt =====
-- `append` of storage/worker_assignment.py in a ring at rest.
use distributed_chord_infras.Lookup.{here}
use distributed_chord_infras.Assignments.{
  append, append_local, append_remote, append_worker_assignment, owner, primary_or_owner,
  build_worker_key, Changed, append_retries,
}
use distributed_chord_infras.Assignments.Local.{Lists, listed, append_local-Lists}
use distributed_chord_infras.Common.{
  String, ℕ, some, none, ◌≡◌, ◌^◌, ◌≤◌, false, refl, ◌≢◌, Bool-cases, ◌==◌, ◌∙◌, inl, ==_iff, ap,
  subst, inr,
}
use distributed_chord_infras.Network.{World, ok, Cluster, Result, tick}
use distributed_chord_infras.Transport.Delivery.{IsReliable, request_delivered}
use distributed_chord_infras.Ring.{m, sha1_id}
use distributed_chord_infras.Text.{is_empty}
use distributed_chord_infras.Node.{ChordNode}
use distributed_chord_infras.Records.{NodeRef}
use distributed_chord_infras.Tasks.{owner_for_key}
use distributed_chord_infras.Lookup.Stable.{IsStable, IsOwner}
use distributed_chord_infras.Assignments.Lists.{added}
use distributed_chord_infras.Lookup.Routed.{find_owner, owner_is_self, sha1_id-lt}
use distributed_chord_infras.Lookup.Owner.{find_successor-IsOwner}

module _ (digest : String → ℕ) (world : World) (fuel : ℕ) (reliable : IsReliable world)
    (enough : 2 ^ m ≤ fuel) (k : ℕ) (key worker_id task_id : String) (now : ℕ)
    (valid : build_worker_key worker_id ≡ ok key) (named : is_empty task_id ≡ false) where
  -- What an append is to do with the list of the process at the address.
  abbrev Appends : String → ChordNode → Result Changed × Cluster → Type 0
  Appends a o run =
      (out : Changed) × (d : Cluster) × (run ≡ (ok out, d))
      × (out.tasks ≡ added task_id (listed key o))
      × Lists key (added task_id (listed key o)) d a

  local_Appends :
      (a : String) (o : ChordNode) (p : NodeRef) (c : Cluster)
      → c.nodes a ≡ some o
      → Appends a o (append_local digest fuel world k a worker_id task_id (some p) now c)
  local_Appends a o p c at =
      let (out, d, e, same, lists, _, _, _) =
        append_local-Lists digest fuel world k a key worker_id p c o at task_id now valid in
      (out, d, e, same, lists)

  -- The handler of a remote append looks the owner up itself.
  looked_up :
      (a : String) (p : NodeRef) (c c' : Cluster)
      → owner digest fuel world k a key c ≡ (ok p, c')
      → append_local digest fuel world k a worker_id task_id none now c
        ≡ append_local digest fuel world k a worker_id task_id (some p) now c'
  unfolding append_local primary_or_owner
  looked_up a p c c' found = rw valid (rw found refl)

  remote_Appends :
      (self : String) (r : NodeRef) (o : ChordNode) (c : Cluster)
      → IsStable c.nodes
      → c.nodes r.address ≡ some o
      → IsOwner c.nodes (sha1_id digest key) r
      → sha1_id digest key ≢ o.node_id
      → Appends r.address o
          (append_remote digest fuel world k append_retries self key worker_id task_id r now c)
  unfolding append_remote append_worker_assignment owner owner_for_key
  remote_Appends self r o c stable at owns start =
      let (l, found) =
        find_owner digest world fuel reliable enough (tick c) r.address o key stable at start r
          owns in
      let (out, d, e, same, lists) = local_Appends r.address o r (record c { calls = l }) at in
      let handled = looked_up r.address r (tick c) (record c { calls = l }) found ∙ e in
      let sent =
        request_delivered world r.address
          (λ n. append_local digest fuel world k r.address worker_id task_id none now) c o (ok out)
          d reliable at handled in
      (out, d, rw named (rw sent refl), same, lists)

  append_at-Lists :
      (c : Cluster) (self : String) (n : ChordNode) (r : NodeRef) (o : ChordNode)
      → IsStable c.nodes
      → c.nodes self ≡ some n
      → c.nodes r.address ≡ some o
      → IsOwner c.nodes (sha1_id digest key) r
      → sha1_id digest key ≢ n.node_id
      → sha1_id digest key ≢ o.node_id
      → (out : Changed) × (d : Cluster) × (append digest fuel world k self worker_id task_id now c
          ≡ (ok out, d))
        × (out.tasks ≡ added task_id (listed key o))
        × Lists key (added task_id (listed key o)) d r.address
  unfolding append owner owner_for_key
  append_at-Lists c self n r o stable live at owns start start' =
      let (l, found) =
        find_owner digest world fuel reliable enough c self n key stable live start r owns in
      elim (Bool-cases (r.id == n.node_id)) [
        | inl mine ↦
            let (p, q) =
              owner_is_self digest world fuel reliable enough c self n key stable live start r o
                owns at ((==_iff _ _).0 mine) in
            let (out, d, e, same, lists) = local_Appends self n r (record c { calls = l }) live in
            (
              out,
              d,
              rw valid (rw found (rw (live, here) (rw mine e))),
              same ∙ ap (λ x. added task_id (listed key x)) q,
              subst (λ a. Lists key (added task_id (listed key o)) d a) p
                  (subst (λ x. Lists key (added task_id (listed key x)) d self) q lists),
            )
        | inr theirs ↦
            let (out, d, e, same, lists) =
              remote_Appends self r o (record c { calls = l }) stable at owns start' in
            (out, d, rw valid (rw found (rw (live, here) (rw theirs e))), same, lists)
      ]

  -- In a ring at rest, over a network that delivers every call, and where no process has the
  -- identifier of the worker's key, an append that any process starts for a task that is named
  -- returns; the owner of the key then lists the task, at the end of the tasks before or where it
  -- was, and the result names these tasks.
  pub append-Lists :
      (c : Cluster) (self : String) (n : ChordNode)
      → IsStable c.nodes
      → c.nodes self ≡ some n
      → ((a : String) (o : ChordNode) → c.nodes a ≡ some o → sha1_id digest key ≢ o.node_id)
      → (r : NodeRef) × (o : ChordNode) × (out : Changed) × (d : Cluster) × IsOwner c.nodes
          (sha1_id digest key)
          r
        × (c.nodes r.address ≡ some o)
        × (append digest fuel world k self worker_id task_id now c ≡ (ok out, d))
        × (out.tasks ≡ added task_id (listed key o))
        × Lists key (added task_id (listed key o)) d r.address
  append-Lists c self n stable live free =
      let (r, _, _, owns) =
        find_successor-IsOwner world fuel c self n (sha1_id digest key) reliable stable live
          (sha1_id-lt digest key) (inl (free self n live)) enough in
      let ((o, at, _), _) = owns in
      let (out, d, e, same, lists) =
        append_at-Lists c self n r o stable live at owns (free self n live) (free r.address o at) in
      (r, o, out, d, owns, at, e, same, lists)
