-- ===== src/Transport/Quiet.antt =====
-- Computations that change no process, over any network.
use distributed_chord_infras.Network.{delivered, dropped, reply_lost, tick}
use distributed_chord_infras.Network.{
  Action, Result, Cluster, Error, World, and_then, ◌>>=◌, handle, ok, try_except, err, lift,
  Delivery,
}
use distributed_chord_infras.Transport.{call, request, retry, rpc_retries, answer}
use distributed_chord_infras.Common.{ℕ, String, suc, ◌∙◌, ◌≡◌, zero, Option, refl, some, none}
use distributed_chord_infras.Node.{ChordNode}

abbrev pub IsQuiet : {A : Type 0} → Action A → Type 0
IsQuiet body = (c : Cluster) → (body c).1.nodes ≡ c.nodes

module _ {A : Type 0} where
  handle-IsQuiet :
      (r : Result A) (h : Error → Action A) → ((e : Error) → IsQuiet (h e)) → IsQuiet (handle r h)
  handle-IsQuiet (ok a) h quiet c = refl
  handle-IsQuiet (err Error.unreachable) h quiet c = quiet Error.unreachable c
  handle-IsQuiet (err Error.out_of_fuel) h quiet c = refl
  handle-IsQuiet (err Error.validation) h quiet c = quiet Error.validation c
  handle-IsQuiet (err Error.type_error) h quiet c = quiet Error.type_error c
  handle-IsQuiet (err Error.not_found) h quiet c = quiet Error.not_found c
  handle-IsQuiet (err Error.conflict) h quiet c = quiet Error.conflict c
  handle-IsQuiet (err Error.no_body) h quiet c = quiet Error.no_body c

  pub try_except-IsQuiet :
      (body : Action A) (h : Error → Action A)
      → IsQuiet body
      → ((e : Error) → IsQuiet (h e))
      → IsQuiet (try_except body h)
  try_except-IsQuiet body h quiet after c = handle-IsQuiet (body c).0 h after (body c).1 ∙ quiet c

  pub retry-IsQuiet : (n : ℕ) (body : Action A) → IsQuiet body → IsQuiet (retry n body)
  unfolding retry
  retry-IsQuiet zero body quiet = quiet
  retry-IsQuiet (suc n) body quiet =
      try_except-IsQuiet body (λ _. retry n body) quiet (λ _. retry-IsQuiet n body quiet)

  call-IsQuiet :
      (world : World) (address : String) (handler : ChordNode → Action A)
      → ((n : ChordNode) → IsQuiet (handler n))
      → IsQuiet (call world address handler)
  unfolding call
  call-IsQuiet world address handler quiet c = delivery (world c.calls address)
    where
      answered : (o : Option ChordNode) (d : Cluster) → (answer handler o d).1.nodes ≡ d.nodes
      answered none d = refl
      answered (some n) d = quiet n d

      delivery :
          (d : Delivery)
          → (elim d as (λ _. Result (Result A) × Cluster) [
            | delivered ↦ answer handler (c.nodes address) (tick c)
            | dropped ↦ (err Error.unreachable, tick c)
            | reply_lost ↦ (err Error.unreachable, (answer handler (c.nodes address) (tick c)).1)
          ]).1.nodes
            ≡ c.nodes
      delivery delivered = answered (c.nodes address) (tick c)
      delivery dropped = refl
      delivery reply_lost = answered (c.nodes address) (tick c)

module _ {A B : Type 0} where
  and_then-IsQuiet :
      (r : Result A) (f : A → Action B) → ((a : A) → IsQuiet (f a)) → IsQuiet (and_then r f)
  and_then-IsQuiet (ok a) f quiet c = quiet a c
  and_then-IsQuiet (err e) f quiet c = refl

  pub >>=-IsQuiet :
      (body : Action A) (f : A → Action B)
      → IsQuiet body
      → ((a : A) → IsQuiet (f a))
      → IsQuiet (body >>= f)
  >>=-IsQuiet body f quiet next c = and_then-IsQuiet (body c).0 f next (body c).1 ∙ quiet c

pub request-IsQuiet :
    {A : Type 0} (world : World) (address : String) (handler : ChordNode → Action A)
    → ((n : ChordNode) → IsQuiet (handler n))
    → IsQuiet (request world address handler)
unfolding request
request-IsQuiet world address handler quiet =
    >>=-IsQuiet (retry rpc_retries (call world address handler)) lift
      (retry-IsQuiet rpc_retries (call world address handler)
        (call-IsQuiet world address handler quiet))
      (λ r c. refl)
