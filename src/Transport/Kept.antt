-- ===== src/Transport/Kept.antt =====
-- Computations that keep an invariant of the processes, over any network, and what holds of the
-- values that they return.
use distributed_chord_infras.Network.{
  delivered, dropped, reply_lost, tick, Action, Result, World, Cluster, Error, ok, ◌>>=◌, and_then,
  err, handle, lift, try_except, Delivery,
}
use distributed_chord_infras.Lookup.{here}
use distributed_chord_infras.Common.{
  String, ℕ, Option, some, none, Option-cases, suc, inl, subst, zero, ◌≡◌, inr, sym, refl,
}
use distributed_chord_infras.Node.{ChordNode}
use distributed_chord_infras.Transport.{retry, call, request, answer, rpc_retries, with_body}
use distributed_chord_infras.Transport.Quiet.{IsQuiet}
use distributed_chord_infras.Records.{Value}
use distributed_chord_infras.Node.Laws.{null-cases}

module _ (Inv : (String → Option ChordNode) → Type 0) where
  abbrev pub Good : {A : Type 0} → (A → Type 0) → Result A × Cluster → Type 0
  Good Q (ok a, d) = Inv d.nodes × Q a
  Good Q (err e, d) = Inv d.nodes

  abbrev pub IsKeeping : {A : Type 0} → (A → Type 0) → Action A → Type 0
  IsKeeping Q body = (c : Cluster) → Inv c.nodes → Good Q (body c)

  -- A handler of the process at the address.
  abbrev pub IsHandling : {A : Type 0} → (A → Type 0) → String → (ChordNode → Action A) → Type 0
  IsHandling Q address handler =
      (n : ChordNode) (c : Cluster) → c.nodes address ≡ some n → Inv c.nodes → Good Q (handler n c)

  module _ {A : Type 0} (Q : A → Type 0) where
    handle-Good :
        (r : Result A) (d : Cluster) (h : Error → Action A)
        → Good Q (r, d)
        → ((e : Error) → IsKeeping Q (h e))
        → Good Q (handle r h d)
    handle-Good (ok a) d h good after = good
    handle-Good (err Error.unreachable) d h good after = after Error.unreachable d good
    handle-Good (err Error.out_of_fuel) d h good after = good
    handle-Good (err Error.validation) d h good after = after Error.validation d good
    handle-Good (err Error.type_error) d h good after = after Error.type_error d good
    handle-Good (err Error.not_found) d h good after = after Error.not_found d good
    handle-Good (err Error.conflict) d h good after = after Error.conflict d good
    handle-Good (err Error.no_body) d h good after = after Error.no_body d good

    pub try_except-IsKeeping :
        (body : Action A) (h : Error → Action A)
        → IsKeeping Q body
        → ((e : Error) → IsKeeping Q (h e))
        → IsKeeping Q (try_except body h)
    try_except-IsKeeping body h keeps after c inv =
        handle-Good (body c).0 (body c).1 h (keeps c inv) after

    retry-IsKeeping : (n : ℕ) (body : Action A) → IsKeeping Q body → IsKeeping Q (retry n body)
    unfolding retry
    retry-IsKeeping zero body keeps = keeps
    retry-IsKeeping (suc n) body keeps =
        try_except-IsKeeping body (λ _. retry n body) keeps (λ _. retry-IsKeeping n body keeps)

    pub with_body-IsHandling :
        (address : String) (v : Value) (handler : ChordNode → Action A)
        → IsHandling Q address handler
        → IsHandling Q address (with_body v handler)
    with_body-IsHandling address v handler handles n c live inv = elim (null-cases v) [
      | inl null ↦ rw null inv
      | inr body ↦ rw (body, with_body) (handles n c live inv)
    ]

    pub here-IsKeeping :
        (self : String) (body : ChordNode → Action A)
        → IsHandling Q self body
        → IsKeeping Q (here self body)
    here-IsKeeping self body handles c inv = elim (Option-cases (c.nodes self)) [
      | inl gone ↦ rw (gone, here) inv
      | inr (n, live) ↦ rw (live, here) (handles n c live inv)
    ]

  module _ {A B : Type 0} (P : A → Type 0) (Q : B → Type 0) where
    and_then-Good :
        (r : Result A) (d : Cluster) (f : A → Action B)
        → Good P (r, d)
        → ((a : A) → P a → IsKeeping Q (f a))
        → Good Q (and_then r f d)
    and_then-Good (ok a) d f (inv, p) next = next a p d inv
    and_then-Good (err e) d f inv next = inv

    pub >>=-IsKeeping :
        (body : Action A) (f : A → Action B)
        → IsKeeping P body
        → ((a : A) → P a → IsKeeping Q (f a))
        → IsKeeping Q (body >>= f)
    >>=-IsKeeping body f keeps next c inv = and_then-Good (body c).0 (body c).1 f (keeps c inv) next

  abbrev pub Any : {A : Type 0} → A → Type 0
  Any a = Unit

  Good-Any : {A : Type 0} (r : Result A) (d : Cluster) → Inv d.nodes → Good Any (r, d)
  Good-Any (ok a) d inv = (inv, tt)
  Good-Any (err e) d inv = inv

  -- A computation that changes no process.
  pub IsQuiet-IsKeeping : {A : Type 0} (body : Action A) → IsQuiet body → IsKeeping Any body
  IsQuiet-IsKeeping body quiet c inv =
      Good-Any (body c).0 (body c).1 (subst Inv (sym (quiet c)) inv)

  module _ {A : Type 0} (Q : A → Type 0) (world : World) (address : String)
      (handler : ChordNode → Action A) (handles : IsHandling Q address handler) where
    -- What holds of a response.
    abbrev Answered : Result A → Type 0
    Answered (ok a) = Q a
    Answered (err e) = Unit

    answer-Good :
        (r : Result A) (d : Cluster) → Good Q (r, d) → Good {A = Result A} Answered (ok r, d)
    answer-Good (ok a) d good = good
    answer-Good (err e) d good = (good, tt)

    answer-IsKeeping :
        (o : Option ChordNode) (c : Cluster)
        → c.nodes address ≡ o
        → Inv c.nodes
        → Good Answered (answer handler o c)
    answer-IsKeeping none c live inv = inv
    answer-IsKeeping (some n) c live inv =
        answer-Good (handler n c).0 (handler n c).1 (handles n c live inv)

    moved : (r : Result (Result A)) (d : Cluster) → Good Answered (r, d) → Inv d.nodes
    moved (ok r) d good = good.0
    moved (err e) d good = good

    call-IsKeeping : IsKeeping Answered (call world address handler)
    unfolding call
    call-IsKeeping c inv = delivery (world c.calls address)
      where
        out : Result (Result A) × Cluster
        out = answer handler (c.nodes address) (tick c)

        good : Good Answered out
        good = answer-IsKeeping (c.nodes address) (tick c) refl inv

        delivery :
            (d : Delivery)
            → Good Answered (elim d as (λ _. Result (Result A) × Cluster) [
              | delivered ↦ out
              | dropped ↦ (err Error.unreachable, tick c)
              | reply_lost ↦ (err Error.unreachable, out.1)
            ])
        delivery delivered = good
        delivery dropped = inv
        delivery reply_lost = moved out.0 out.1 good

    pub request-IsKeeping : IsKeeping Q (request world address handler)
    unfolding request
    request-IsKeeping =
        >>=-IsKeeping Answered Q (retry rpc_retries (call world address handler)) lift
          (retry-IsKeeping Answered rpc_retries (call world address handler) call-IsKeeping) respond
      where
        respond : (r : Result A) → Answered r → IsKeeping Q (lift r)
        respond (ok a) q c inv = (inv, q)
        respond (err e) q c inv = inv
