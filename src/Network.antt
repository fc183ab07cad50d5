-- ===== src/Network.antt =====
-- The processes of a deployment and the calls between them (chord/transport.py). A process is
-- found by its address; a crashed one is absent. The network is a parameter: for each call, by its
-- number, it delivers the request and the reply, drops the request, or loses the reply after the
-- request has taken effect.
pub mod Nodes
pub mod Ends
use distributed_chord_infras.Common.{ℕ, ◌+◌, String, Option, some, str_eq, if◌then◌else◌}
use distributed_chord_infras.Node.{ChordNode}

-- `out_of_fuel` is the model's own: a routing loop that the program leaves by its time limits.
pub data Error : Type 0 where
  unreachable out_of_fuel validation type_error not_found conflict no_body : Error

pub data Result (A : Type 0) : Type 0 where
  ok : A → Result A
  err : Error → Result A

pub data Delivery : Type 0 where
  delivered dropped reply_lost : Delivery

abbrev pub World : Type 0
World = (call : ℕ) (address : String) → Delivery

pub record Cluster : Type 0 where
  pub nodes : String → Option ChordNode
  pub calls : ℕ

-- What a statement does: the processes keep what was written before an exception.
abbrev pub Action : Type 0 → Type 0
Action A = Cluster → Result A × Cluster

module _ {A : Type 0} where
  abbrev pub pure : A → Action A
  pure a c = (ok a, c)

  abbrev pub raise : Error → Action A
  raise e c = (err e, c)

  abbrev pub lift : Result A → Action A
  lift r c = (r, c)

  -- `except Exception`: it does not see the model's `out_of_fuel`.
  abbrev pub handle : Result A → (Error → Action A) → Action A
  handle (ok a) h = pure a
  handle (err Error.out_of_fuel) h = raise Error.out_of_fuel
  handle (err e) h = h e

  abbrev pub try_except : Action A → (Error → Action A) → Action A
  try_except body h c = let (r, c') = body c in handle r h c'

module _ {A B : Type 0} where
  abbrev pub and_then : Result A → (A → Action B) → Action B
  and_then (ok a) f = f a
  and_then (err e) f = raise e

  infixl 5 ◌>>=◌ ◌>>◌
  abbrev pub ◌>>=◌ : Action A → (A → Action B) → Action B
  ◌>>=◌ body f c = let (r, c') = body c in and_then r f c'

  abbrev pub ◌>>◌ : Action A → Action B → Action B
  body >> next = body >>= λ _. next

-- The process at an address, with what it has become.
unfoldable pub set_node : String → ChordNode → Cluster → Cluster
set_node address n c = record c { nodes = λ a. if str_eq a address then some n else c.nodes a }

abbrev pub tick : Cluster → Cluster
tick c = record c { calls = c.calls + 1 }

-- A handler that changes the state of the process at the address.
abbrev pub local : {A : Type 0} → String → (ChordNode → A × ChordNode) → ChordNode → Action A
local address f n c = let (a, n') = f n in (ok a, set_node address n' c)

-- A handler that only reads the state of the process.
abbrev pub reads : {A : Type 0} → (ChordNode → A) → ChordNode → Action A
reads f n = pure (f n)
