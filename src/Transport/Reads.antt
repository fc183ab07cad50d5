-- ===== src/Transport/Reads.antt =====
-- A call that only reads, over any network: it changes no process, and it returns what the live
-- process at the address answers or raises.
use distributed_chord_infras.Network.{
  World, Result, Cluster, reads, Delivery, err, Error, ok, delivered, dropped, reply_lost,
}
use distributed_chord_infras.Common.{
  String, Option, ℕ, suc, ◌≡◌, inl, ◌+◌, none, ◌⊎◌, some, inr, Option-cases, refl, zero,
}
use distributed_chord_infras.Node.{ChordNode}
use distributed_chord_infras.Transport.{call, request, retry, answer, rpc_retries}

module _ {A : Type 0} (world : World) (address : String) (f : ChordNode → A)
    (nodes : String → Option ChordNode) where
  abbrev at : ℕ → Cluster
  at k = record { nodes = nodes; calls = k }

  abbrev Answers : Result (Result A) × Cluster → Type 0
  Answers out =
      (l : ℕ) × ((out ≡ (err Error.unreachable, at l))
        ⊎ ((o : ChordNode) × (nodes address ≡ some o) × (out ≡ (ok (ok (f o)), at l))))

  call-reads : (k : ℕ) → Answers (call world address (reads f) (at k))
  unfolding call
  call-reads k = elim (Option-cases (nodes address)) [
    | inl dead ↦ (k + 1, inl (on_dead (world k address) dead))
    | inr (o, live) ↦ on_live (world k address) o live
  ]
    where
      outcome : Delivery → Result (Result A) × Cluster
      outcome delivered = answer (reads f) (nodes address) (at (k + 1))
      outcome dropped = (err Error.unreachable, at (k + 1))
      outcome reply_lost =
          (err Error.unreachable, (answer (reads f) (nodes address) (at (k + 1))).1)

      on_dead :
          (d : Delivery) → nodes address ≡ none → outcome d ≡ (err Error.unreachable, at (k + 1))
      on_dead delivered dead = rw dead refl
      on_dead dropped dead = refl
      on_dead reply_lost dead = rw dead refl

      on_live : (d : Delivery) (o : ChordNode) → nodes address ≡ some o → Answers (outcome d)
      on_live delivered o live = (k + 1, inr (o, live, rw live refl))
      on_live dropped o live = (k + 1, inl refl)
      on_live reply_lost o live = (k + 1, inl (rw live refl))

  retry-reads : (n k : ℕ) → Answers (retry n (call world address (reads f)) (at k))
  unfolding retry
  retry-reads zero k = call-reads k
  retry-reads (suc n) k =
      let (l, got) = call-reads k in
      elim got [
        | inl raised ↦ rw raised (retry-reads n l)
        | inr (o, live, e) ↦ (l, inr (o, live, rw e refl))
      ]

  pub request-reads :
      (k : ℕ)
      → (l : ℕ) × ((request world address (reads f) (at k) ≡ (err Error.unreachable, at l))
          ⊎ ((o : ChordNode) × (nodes address ≡ some o)
              × (request world address (reads f) (at k) ≡ (ok (f o), at l))))
  unfolding request
  request-reads k =
      let (l, got) = retry-reads rpc_retries k in
      (
        l,
        elim got [
          | inl raised ↦ inl (rw raised refl)
          | inr (o, live, e) ↦ inr (o, live, rw e refl)
        ],
      )
