-- ===== src/Replication/Write.antt =====
-- The report of `replicate_write` of storage/replication.py.
use mathlib.Core.List.{Perm, perm_middle}
use mathlib.Core.List.Perm
use distributed_chord_infras.Network.{World, Cluster, Error, ok, Result, err, Action}
use distributed_chord_infras.Replication.{
  replicate_write, each_replica, Outcomes, Replicated, put_with_retry, tally, quorum, report,
  put_task_replica, store_replica_local, replica_retries, caught, get_successor_chain,
}
use distributed_chord_infras.Common.{
  String, ℕ, List, Option, All, ◌≡◌, length, ◌+◌, ◌∷◌, ◌↔◌, arith, some, ◌≤◌, none, ◌≢◌, eq_iff,
  if◌then◌else◌, [], leb, Bool-cases, refl, inl, leb→le, inr, ◌++◌, map,
}
use distributed_chord_infras.Records.{TaskRecord, NodeRef, Value}
use distributed_chord_infras.Replication.Held.{
  Holds, Reported, Keeps, Keeps-trans, Never, Ends, caught-Ends, put-Keeps, put-Holds, Keeps-calls,
}
use distributed_chord_infras.Network.Ends.{IsCaught, retry-Post}
use distributed_chord_infras.Replication.Chain.{get_successor_chain-IsChain}
use distributed_chord_infras.Node.{ChordNode}
use distributed_chord_infras.Node
use distributed_chord_infras.Replication.Held.{store_at-Ends}
use distributed_chord_infras.Network.{local, pure, ◌>>=◌}
use distributed_chord_infras.Common.{drop}
use distributed_chord_infras.Transport.{request, retry}
use distributed_chord_infras.Schema.Laws.{validate-cases}
use distributed_chord_infras.Transport.Ends.{request-Post}

-- Each of the replicas is named once, among the first or among the others with their errors.
abbrev pub IsSplit : List NodeRef → List NodeRef → List (NodeRef × Error) → Type 0
IsSplit replicas done failed = Perm (done ++ map (λ f. f.0) failed) replicas

module _ (key : String) (v : Value) (act : NodeRef → Action (Option Error))
    (ends : (replica : NodeRef) (c : Cluster)
      → Ends v Never (Reported key v replica) c (act replica c)) where
  -- The report of the loop: who has answered holds the value, and the replicas are accounted for.
  abbrev pub IsReport : List NodeRef → Outcomes → Cluster → Type 0
  IsReport replicas out d =
      All (λ r. Holds key v d r.address) out.done × IsSplit replicas out.done out.failed

  tally-IsReport :
      (replica : NodeRef) (replicas : List NodeRef) (error : Option Error) (out : Outcomes)
      (c d : Cluster)
      → Reported key v replica error c
      → Keeps v c d
      → IsReport replicas out d
      → IsReport (replica ∷ replicas) (tally replica error out) d
  tally-IsReport replica replicas none out c d held keep (all, split) =
      ((keep key replica.address held, all), Perm.cons replica split)
  tally-IsReport replica replicas (some e) out c d held keep (all, split) =
      (all, Perm.trans (perm_middle out.done (map (λ f. f.0) out.failed)) (Perm.cons replica split))

  from_Ends :
      (replica : NodeRef) (c : Cluster) (r : Result (Option Error)) (d : Cluster)
      → Ends v Never (Reported key v replica) c (r, d)
      → (error : Option Error) × (r ≡ ok error) × Keeps v c d × Reported key v replica error d
  from_Ends replica c (ok error) d (keep, told) = (error, refl, keep, told)
  from_Ends replica c (err e) d (keep, stuck) = absurd stuck

  pub each_replica-IsReport :
      (replicas : List NodeRef) (c : Cluster)
      → (out : Outcomes) × (d : Cluster) × (each_replica act replicas c ≡ (ok out, d))
        × Keeps v c d
        × IsReport replicas out d
  unfolding each_replica
  each_replica-IsReport [] c =
      (record { done = []; failed = [] }, c, refl, (λ k a h. h), (tt, Perm.rfl))
  each_replica-IsReport (replica ∷ replicas) c =
      let told = act replica c in
      let (error, e, first, reported) = from_Ends replica c told.0 told.1 (ends replica c) in
      let (out, d, e', rest, report) = each_replica-IsReport replicas told.1 in
      (
        tally replica error out,
        d,
        rw e (rw e' refl),
        Keeps-trans v c told.1 d first rest,
        tally-IsReport replica replicas error out told.1 d reported rest report,
      )

-- What a report says of the processes, after the write of a value under a key.
abbrev pub Reports : String → Value → ℕ → Replicated → Cluster → Type 0
Reports key v k out d =
    All (λ r. Holds key v d r.address) out.replicas_written
    × IsSplit out.replica_targets out.replicas_written out.failed
    × ((out.replication_state ≡ "COMPLETE") ↔ (quorum k ≤ 1 + length out.replicas_written))

-- The targets of a report are the processes behind the primary in its chain.
abbrev pub IsTargets : World → Cluster → ℕ → NodeRef → List NodeRef → Type 0
IsTargets world c k primary targets =
    (l : ℕ) × (get_successor_chain world k primary c
      ≡ (ok (primary ∷ targets), record c { calls = l }))

abbrev state_of : ℕ → ℕ → String
state_of q a = if leb q a then "COMPLETE" else "DEGRADED"

degraded : ◌≢◌ {A = String} "DEGRADED" "COMPLETE"
degraded = ground (arith, eq_iff "DEGRADED" "COMPLETE")

state_of_iff : (q a : ℕ) → (state_of q a ≡ "COMPLETE") ↔ (q ≤ a)
state_of_iff q a = elim (Bool-cases (leb q a)) [
  | inl le ↦ rw le ((λ _. leb→le q a le), (λ _. refl))
  | inr gt ↦ rw gt ((λ e. absurd (degraded e)), (λ le. absurd (ground arith)))
]

pub report-Reports :
    (key : String) (v : Value) (k : ℕ) (primary : NodeRef) (rs : List NodeRef) (out : Outcomes)
    (d : Cluster)
    → All (λ r. Holds key v d r.address) out.done
    → IsSplit rs out.done out.failed
    → Reports key v k (report k primary rs out) d
report-Reports key v k primary rs out d all split =
    (all, split, state_of_iff (quorum k) (1 + length out.done))

store_replica_local-Ends :
    (address key : String) (t : TaskRecord) (n : ChordNode) (c : Cluster)
    → c.nodes address ≡ some n
    → Ends
        (Value.task t)
        IsCaught
        (λ _ d. Holds key (Value.task t) d address)
        c
        (store_replica_local address key t n c)
unfolding store_replica_local
store_replica_local-Ends address key t n c live = elim (validate-cases t) [
  | inl valid ↦
      rw valid
        (put-Keeps address key (Value.task t) n c live, put-Holds address key (Value.task t) n c)
  | inr refused ↦ rw refused ((λ k a h. h), tt)
]

put_with_retry-Ends :
    (world : World) (key : String) (t : TaskRecord) (replica : NodeRef) (c : Cluster)
    → Ends
        (Value.task t)
        Never
        (Reported key (Value.task t) replica)
        c
        (put_with_retry world key t replica c)
unfolding put_with_retry put_task_replica
put_with_retry-Ends world key t replica c =
    let a = replica.address in
    let body = request world a (store_replica_local a key t) in
    let Q = λ (_ : Unit {0}) (d : Cluster). Holds key (Value.task t) d a in
    let keeps = Keeps (Value.task t) in
    let trans = Keeps-trans (Value.task t) in
    caught-Ends key (Value.task t) replica (retry replica_retries body) c (
      retry-Post keeps trans Q replica_retries body
        (request-Post keeps trans (Keeps-calls (Value.task t)) world a (store_replica_local a key t)
          Q (store_replica_local-Ends a key t))
        c)

-- Over any network a write to the replicas returns a report. Each process that the report names as
-- written holds the task under the key; the targets are the processes behind the primary in the
-- chain that is found, and each is named once, as written or as failed; and the state is COMPLETE exactly where the primary and those written make up the quorum.
pub replicate_write-Holds :
    (world : World) (c : Cluster) (k : ℕ) (key : String) (t : TaskRecord) (primary : NodeRef)
    → (out : Replicated) × (d : Cluster) × (replicate_write world k key t primary c ≡ (ok out, d))
      × IsTargets world c k primary out.replica_targets
      × Reports key (Value.task t) k out d
unfolding replicate_write
replicate_write-Holds world c k key t primary =
    let (rs, l, found, _, _, _) = get_successor_chain-IsChain world c k primary in
    let (out, d, e, _, (all, split)) =
      each_replica-IsReport key (Value.task t) (put_with_retry world key t)
        (put_with_retry-Ends world key t) rs (record c { calls = l }) in
    (
      report k primary rs out,
      d,
      rw found (rw e refl),
      (l, found),
      report-Reports key (Value.task t) k primary rs out d all split,
    )

-- One attempt for each replica of the chain to store the value.
abbrev pub store_at : World → String → Value → NodeRef → Action Unit
store_at world key v r = request world r.address (local r.address (λ n. (tt, Node.put key v n)))

abbrev pub store_on_chain : World → ℕ → String → Value → NodeRef → Action Replicated
store_on_chain world k key v primary = do
  chain ← get_successor_chain world k primary
  found ← each_replica (λ r. caught (store_at world key v r)) (drop 1 chain)
  pure (report k primary (drop 1 chain) found)

pub store_on_chain-Holds :
    (world : World) (c : Cluster) (k : ℕ) (key : String) (v : Value) (primary : NodeRef)
    → (out : Replicated) × (d : Cluster) × (store_on_chain world k key v primary c ≡ (ok out, d))
      × Keeps v c d
      × IsTargets world c k primary out.replica_targets
      × Reports key v k out d
store_on_chain-Holds world c k key v primary =
    let (rs, l, found, _, _, _) = get_successor_chain-IsChain world c k primary in
    let (out, d, e, keep, (all, split)) =
      each_replica-IsReport key v (λ r. caught (store_at world key v r))
        (λ r d.
          caught-Ends key v r (store_at world key v r) d (store_at-Ends world r.address key v d))
        rs (record c { calls = l }) in
    (
      report k primary rs out,
      d,
      rw found (rw e refl),
      keep,
      (l, found),
      report-Reports key v k primary rs out d all split,
    )
