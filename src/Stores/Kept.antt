-- ===== src/Stores/Kept.antt =====
-- Every call of the result service and of the assignment service keeps what holds of all values
-- stored, over any network.
use distributed_chord_infras.Replication.{attempt_each}
use distributed_chord_infras.Node
use distributed_chord_infras.Transport
use distributed_chord_infras.Lookup.{here, find_successor}
use distributed_chord_infras.Network.{
  ◌>>◌, ◌>>=◌, pure, lift, reads, local, try_except, Action, Result, World, Error, ok, err,
}
use distributed_chord_infras.Common.{
  String, ℕ, Option, List, some, none, [], ◌∷◌, suc, true, Bool-cases, zero, ◌==◌, inl, inr,
}
use distributed_chord_infras.Stores.Values.{
  Stored, IfThere, put-IsHandling, delete-IsHandling, get-IsHandling,
}
use distributed_chord_infras.Transport.Kept.{
  IsKeeping, >>=-IsKeeping, request-IsKeeping, IsQuiet-IsKeeping, here-IsKeeping,
  try_except-IsKeeping, with_body-IsHandling,
}
use distributed_chord_infras.Records.{Value, NodeRef}
use distributed_chord_infras.Replication.{
  caught, each_replica, first_answer, Outcomes, get_successor_chain,
}
use distributed_chord_infras.Tasks.{
  delete_on_node, get_on_node, owner_for_key, put_on_node, put_remote, primary_write_retries,
}
use distributed_chord_infras.Replication.Reads.{get_successor_chain-IsQuiet}
use distributed_chord_infras.Ring.{sha1_id}
use distributed_chord_infras.Tasks.Reads.{here-IsQuiet, find_successor-IsQuiet}
use distributed_chord_infras.Transport.{with_body}

module _ (Fits : Value → Type 0) where
  abbrev pub Keeps : {A : Type 0} → (A → Type 0) → Action A → Type 0
  Keeps Q body = IsKeeping (Stored Fits) Q body

  abbrev pub Plain : {A : Type 0} → A → Type 0
  Plain a = Unit

  pub pure-Keeps : {A : Type 0} (Q : A → Type 0) (a : A) → Q a → Keeps Q (pure a)
  pure-Keeps Q a q c inv = (inv, q)

  pub then-Keeps :
      {A B : Type 0} (body : Action A) (f : A → Action B) (Q : B → Type 0)
      → Keeps (Plain {A = A}) body
      → ((a : A) → Keeps Q (f a))
      → Keeps Q (body >>= f)
  then-Keeps body f Q keeps next = >>=-IsKeeping (Stored Fits) Plain Q body f keeps (λ a _. next a)

  pub lift-Keeps : {A : Type 0} (r : Result A) → Keeps (Plain {A = A}) (lift r)
  lift-Keeps (ok a) c inv = (inv, tt)
  lift-Keeps (err e) c inv = inv

  -- The loops over replicas.
  pub caught-Keeps :
      (body : Action Unit) → Keeps Plain body → Keeps (Plain {A = Option Error}) (caught body)
  unfolding caught
  caught-Keeps body keeps =
      try_except-IsKeeping (Stored Fits) Plain (body >> pure none) (λ e. pure (some e))
        (then-Keeps body (λ _. pure none) Plain keeps
          (λ _. pure-Keeps {A = Option Error} Plain none tt))
        (λ e. pure-Keeps Plain (some e) tt)

  pub each_replica-Keeps :
      (act : NodeRef → Action (Option Error)) (rs : List NodeRef)
      → ((r : NodeRef) → Keeps Plain (act r))
      → Keeps (Plain {A = Outcomes}) (each_replica act rs)
  unfolding each_replica
  each_replica-Keeps act [] keeps = λ c inv. (inv, tt)
  each_replica-Keeps act (r ∷ rs) keeps = then-Keeps (act r) _ Plain (keeps r) (λ error.
      then-Keeps (each_replica act rs) _ Plain (each_replica-Keeps act rs keeps)
        (λ rest c inv. (inv, tt)))

  pub attempt_each-Keeps :
      {A : Type 0} (act : NodeRef → Action A) (rs : List NodeRef)
      → ((r : NodeRef) → Keeps Plain (act r))
      → Keeps Plain (attempt_each act rs)
  unfolding attempt_each
  attempt_each-Keeps act [] keeps = λ c inv. (inv, tt)
  attempt_each-Keeps act (r ∷ rs) keeps =
      then-Keeps (try_except (act r >> pure tt) (λ _. pure tt)) (λ _. attempt_each act rs) Plain
        (try_except-IsKeeping (Stored Fits) Plain (act r >> pure tt) (λ _. pure tt)
          (then-Keeps (act r) (λ _. pure tt) Plain (keeps r) (λ _. pure-Keeps Plain tt tt))
          (λ e. pure-Keeps Plain tt tt))
        (λ _. attempt_each-Keeps act rs keeps)

  answered-Keeps :
      (rest : Action (Option Value)) (o : Option Value)
      → Keeps (IfThere Fits) rest
      → IfThere Fits o
      → Keeps
          (IfThere Fits)
          (elim o as (λ _. Action (Option Value)) [ none ↦ rest | some a ↦ pure (some a) ])
  answered-Keeps rest none keeps fits = keeps
  answered-Keeps rest (some v) keeps fits = λ c inv. (inv, fits)

  pub first_answer-Keeps :
      (ask : NodeRef → Action (Option Value)) (rs : List NodeRef)
      → ((r : NodeRef) → Keeps (IfThere Fits) (ask r))
      → Keeps (IfThere Fits) (first_answer ask rs)
  unfolding first_answer
  first_answer-Keeps ask [] keeps = λ c inv. (inv, tt)
  first_answer-Keeps ask (r ∷ rs) keeps =
      >>=-IsKeeping (Stored Fits) (IfThere Fits) (IfThere Fits)
        (try_except (ask r) (λ _. pure none)) _
        (try_except-IsKeeping (Stored Fits) (IfThere Fits) (ask r) (λ _. pure none) (keeps r)
          (λ e. pure-Keeps (IfThere Fits) none tt))
        (λ o fits. answered-Keeps (first_answer ask rs) o (first_answer-Keeps ask rs keeps) fits)

  module _ (digest : String → ℕ) (fuel : ℕ) (world : World) (self : String) (k : ℕ) where
    pub chain-Keeps :
        (primary : NodeRef) → Keeps (Plain {A = List NodeRef}) (get_successor_chain world k primary)
    chain-Keeps primary =
        IsQuiet-IsKeeping (Stored Fits) (get_successor_chain world k primary)
          (get_successor_chain-IsQuiet world k primary)

    pub owner-Keeps :
        (key : String) → Keeps (Plain {A = NodeRef}) (owner_for_key digest fuel world self k key)
    unfolding owner_for_key
    owner-Keeps key =
        IsQuiet-IsKeeping (Stored Fits)
          (here self (λ n. find_successor fuel world n (sha1_id digest key)))
          (here-IsQuiet self (λ n. find_successor fuel world n (sha1_id digest key))
            (λ n. find_successor-IsQuiet fuel world n (sha1_id digest key)))

    pub transport_put-Keeps :
        (address key : String) (v : Value)
        → Fits v
        → Keeps Plain (Transport.put world address key v)
    unfolding Transport.put
    transport_put-Keeps address key v fits =
        request-IsKeeping (Stored Fits) Plain world address
          (with_body v (local address λ n. (true, Node.put key v n)))
          (with_body-IsHandling (Stored Fits) Plain address v
            (local address λ n. (true, Node.put key v n))
            (put-IsHandling Fits address key v true fits))

    put_remote-Keeps :
        (n : ℕ) (r : NodeRef) (key : String) (v : Value)
        → Fits v
        → Keeps Plain (put_remote digest fuel world self k n r key v)
    unfolding put_remote
    put_remote-Keeps zero r key v fits =
        then-Keeps (Transport.put world r.address key v) (λ _. pure tt) Plain
          (transport_put-Keeps r.address key v fits) (λ _. pure-Keeps Plain tt tt)
    put_remote-Keeps (suc n) r key v fits =
        try_except-IsKeeping (Stored Fits) Plain (Transport.put world r.address key v >> pure tt) _
          (then-Keeps (Transport.put world r.address key v) (λ _. pure tt) Plain
            (transport_put-Keeps r.address key v fits) (λ _. pure-Keeps Plain tt tt))
          (λ e.
            then-Keeps (owner_for_key digest fuel world self k key)
              (λ p. put_remote digest fuel world self k n p key v) Plain (owner-Keeps key)
              (λ p. put_remote-Keeps n p key v fits))

    pub put_on_node-Keeps :
        (r : NodeRef) (key : String) (v : Value)
        → Fits v
        → Keeps Plain (put_on_node digest fuel world self k r key v)
    unfolding put_on_node
    put_on_node-Keeps r key v fits = here-IsKeeping (Stored Fits) Plain self _ (λ n c live inv.
        elim (Bool-cases (r.id == n.node_id)) [
          | inl mine ↦ rw mine (put-IsHandling Fits self key v tt fits n c live inv)
          | inr theirs ↦ rw theirs (put_remote-Keeps primary_write_retries r key v fits c inv)
        ])

    pub get_on_node-Keeps :
        (r : NodeRef) (key : String)
        → Keeps (IfThere Fits) (get_on_node digest fuel world self k r key)
    unfolding get_on_node Transport.get
    get_on_node-Keeps r key = here-IsKeeping (Stored Fits) (IfThere Fits) self _ (λ n c live inv.
        elim (Bool-cases (r.id == n.node_id)) [
          | inl mine ↦ rw mine (get-IsHandling Fits self key n c live inv)
          | inr theirs ↦ rw theirs (
              request-IsKeeping (Stored Fits) (IfThere Fits) world r.address (reads (Node.get key))
                (get-IsHandling Fits r.address key) c inv)
        ])

    pub delete_on_node-Keeps :
        (r : NodeRef) (key : String) → Keeps Plain (delete_on_node digest fuel world self k r key)
    unfolding delete_on_node Transport.delete
    delete_on_node-Keeps r key = here-IsKeeping (Stored Fits) Plain self _ (λ n c live inv.
        elim (Bool-cases (r.id == n.node_id)) [
          | inl mine ↦ rw mine (delete-IsHandling Fits self key (λ b. b) n c live inv)
          | inr theirs ↦ rw theirs (
              request-IsKeeping (Stored Fits) Plain world r.address
                (local r.address (Node.delete key)) (delete-IsHandling Fits r.address key (λ b. b))
                c inv)
        ])
