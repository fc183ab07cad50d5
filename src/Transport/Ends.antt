-- ===== src/Transport/Ends.antt =====
-- How a call of chord/transport.py may end, over any network, given how its handler may end.
use distributed_chord_infras.Network.{
  delivered, dropped, reply_lost, Cluster, Delivery, World, Action, Result, err, lift, ok, tick,
  Error,
}
use distributed_chord_infras.Network.Ends.{Post, Post-and_then, retry-Post, IsCaught, Post-later}
use distributed_chord_infras.Common.{ℕ, ◌≡◌, ◌⊎◌, String, inl, inr, refl, Option, some, none, ◌+◌}
use distributed_chord_infras.Node.{ChordNode}
use distributed_chord_infras.Transport.{call, request, answer, retry, rpc_retries}

Delivery-cases : (d : Delivery) → (d ≡ delivered) ⊎ ((d ≡ dropped) ⊎ (d ≡ reply_lost))
Delivery-cases delivered = inl refl
Delivery-cases dropped = inr (inl refl)
Delivery-cases reply_lost = inr (inr refl)

module _ (R : Cluster → Cluster → Type 0) (transitive : (c d e : Cluster) → R c d → R d e → R c e)
    (counts : (c : Cluster) (k : ℕ) → R c (record c { calls = k })) {A : Type 0} (world : World)
    (address : String) (handler : ChordNode → Action A) (Q : A → Cluster → Type 0)
    (ends : (n : ChordNode) (c : Cluster)
      → c.nodes address ≡ some n
      → Post R transitive IsCaught Q c (handler n c)) where
  -- What holds of a response.
  abbrev Answered : Result A → Cluster → Type 0
  Answered (ok a) d = Q a d
  Answered (err e) d = IsCaught e

  -- What a call makes of the answer, by the delivery.
  abbrev outcome : Delivery → Result (Result A) × Cluster → Cluster → Result (Result A) × Cluster
  outcome delivered answered c = answered
  outcome dropped answered c = (err Error.unreachable, c)
  outcome reply_lost answered c = (err Error.unreachable, answered.1)

  moved : (c : Cluster) (r : Result A) (d : Cluster) → Post R transitive IsCaught Q c (r, d) → R c d
  moved c (ok a) d p = p.0
  moved c (err e) d p = p.0

  Answered-by :
      (c : Cluster) (r : Result A) (d : Cluster)
      → Post R transitive IsCaught Q c (r, d)
      → Answered r d
  Answered-by c (ok a) d p = p.1
  Answered-by c (err e) d p = p.1

  answer-Post :
      (d : Delivery) (o : Option ChordNode) (c : Cluster)
      → c.nodes address ≡ o
      → Post R transitive IsCaught Answered c (outcome d (answer handler o c) c)
  answer-Post delivered none c live = (counts c c.calls, tt)
  answer-Post delivered (some n) c live =
      let out = handler n c in
      (moved c out.0 out.1 (ends n c live), Answered-by c out.0 out.1 (ends n c live))
  answer-Post dropped o c live = (counts c c.calls, tt)
  answer-Post reply_lost none c live = (counts c c.calls, tt)
  answer-Post reply_lost (some n) c live =
      let out = handler n c in (moved c out.0 out.1 (ends n c live), tt)

  call-Post : (c : Cluster) → Post R transitive IsCaught Answered c (call world address handler c)
  unfolding call
  call-Post c = elim (Delivery-cases (world c.calls address)) [
    | inl e ↦ rw (e, call) (counted delivered)
    | inr (inl e) ↦ rw (e, call) (counted dropped)
    | inr (inr e) ↦ rw (e, call) (counted reply_lost)
  ]
    where
      counted :
          (d : Delivery)
          → Post R transitive IsCaught Answered c
              (outcome d (answer handler (c.nodes address) (tick c)) (tick c))
      counted d =
          let out = outcome d (answer handler (c.nodes address) (tick c)) (tick c) in
          Post-later R transitive IsCaught Answered c (tick c) out.0 out.1 (counts c (c.calls + 1))
            (answer-Post d (c.nodes address) (tick c) refl)

  pub request-Post :
      (c : Cluster) → Post R transitive IsCaught Q c (request world address handler c)
  unfolding request
  request-Post c =
      let tries = retry rpc_retries (call world address handler) c in
      Post-and_then R transitive IsCaught Answered Q c tries.0 tries.1 lift
        (retry-Post R transitive Answered rpc_retries (call world address handler) call-Post c)
        (λ r q. respond r tries.1 q)
    where
      respond :
          (r : Result A) (d : Cluster) → Answered r d → Post R transitive IsCaught Q d (lift r d)
      respond (ok a) d q = (counts d d.calls, q)
      respond (err e) d q = (counts d d.calls, q)
