-- ===== src/Replication/Chain.antt =====
-- The successor chain of storage/replication.py.
use distributed_chord_infras.Node
use distributed_chord_infras.Transport
use distributed_chord_infras.Common.{
  List, String, Option, ◌∷◌, elem, ℕ, ◌≡◌, false, length, some, [], none, suc, ◌≤◌, Bool-cases,
  arith, ◌⊎◌, inl, refl, subst, inr, sym, str_eq, zero, max, ◌-◌,
}
use distributed_chord_infras.Network.{World, Cluster, ok}
use distributed_chord_infras.Records.{NodeRef}
use distributed_chord_infras.Node.{ChordNode, successor}
use distributed_chord_infras.Replication.{chain_from, fetch_state, get_successor_chain}
use distributed_chord_infras.Transport.Reads.{request-reads}

-- No address of the list is among those visited, and none occurs twice.
abbrev pub Fresh : List String → List NodeRef → Type 0
Fresh visited [] = Unit
Fresh visited (r ∷ rs) = (elem r.address visited ≡ false) × Fresh (r.address ∷ visited) rs

-- Each reference is the successor of the process before it, that of `r` for the first.
abbrev pub Follows : (String → Option ChordNode) → NodeRef → List NodeRef → Type 0
Follows nodes r [] = Unit
Follows nodes r (q ∷ qs) =
    ((n : ChordNode) × (nodes r.address ≡ some n) × (q ≡ successor n)) × Follows nodes q qs

module _ (world : World) (nodes : String → Option ChordNode) where
  abbrev at : ℕ → Cluster
  at k = record { nodes = nodes; calls = k }

  fetch_state_lem :
      (address : String) (k : ℕ)
      → (l : ℕ) × ((fetch_state world address (at k) ≡ (ok none, at l))
          ⊎ ((n : ChordNode) × (nodes address ≡ some n)
              × (fetch_state world address (at k) ≡ (ok (some (Node.state n)), at l))))
  unfolding fetch_state Transport.get_state
  fetch_state_lem address k =
      let (l, got) = request-reads world address Node.state nodes k in
      (
        l,
        elim got [
          | inl raised ↦ inl (rw raised refl)
          | inr (n, live, e) ↦ inr (n, live, rw e refl)
        ],
      )

  -- What a chain is that begins at `current`.
  abbrev IsChain : ℕ → List String → NodeRef → List NodeRef → Type 0
  IsChain k visited current [] = Unit
  IsChain k visited current (r ∷ rs) =
      (r ≡ current) × (length (r ∷ rs) ≤ k) × Fresh visited (r ∷ rs) × Follows nodes current rs

  one :
      (k : ℕ) (visited : List String) (current : NodeRef)
      → elem current.address visited ≡ false
      → IsChain (suc k) visited current (current ∷ [])
  one k visited current fresh = (refl, omega arith, (fresh, tt), tt)

  more :
      (k : ℕ) (visited : List String) (current : NodeRef) (n : ChordNode) (rs : List NodeRef)
      → elem current.address visited ≡ false
      → nodes current.address ≡ some n
      → IsChain k (current.address ∷ visited) (successor n) rs
      → IsChain (suc k) visited current (current ∷ rs)
  more k visited current n [] fresh live rest = (refl, omega arith, (fresh, tt), tt)
  more k visited current n (r ∷ rs) fresh live (head, short, distinct, follows) = (
    refl,
    omega (arith, short),
    (fresh, distinct),
    ((n, live, head), subst (λ q. Follows nodes q rs) (sym head) follows),
  )

  abbrev Found : ℕ → List String → NodeRef → ℕ → Type 0
  Found k visited current calls =
      (rs : List NodeRef) × (l : ℕ) × (chain_from world k visited current (at calls)
        ≡ (ok rs, at l))
      × IsChain k visited current rs

  -- A chain with room for another process, from an address that is not visited.
  abbrev Begun : ℕ → List String → NodeRef → ℕ → Type 0
  Begun k visited current calls =
      (rs : List NodeRef) × (l : ℕ) × (chain_from world k visited current (at calls)
        ≡ (ok (current ∷ rs), at l))
      × IsChain k visited current (current ∷ rs)

  begin :
      (k : ℕ) (visited : List String) (current : NodeRef) (calls : ℕ)
      → elem current.address visited ≡ false
      → ((n : ChordNode) (l : ℕ) → Found k (current.address ∷ visited) (successor n) l)
      → Begun (suc k) visited current calls
  unfolding chain_from Node.state
  begin k visited current calls fresh rest =
      let (l, got) = fetch_state_lem current.address calls in
      elim got [
        | inl raised ↦ ([], l, rw fresh (rw raised refl), one k visited current fresh)
        | inr (n, live, fetched) ↦
            elim (Bool-cases (str_eq (successor n).address current.address)) [
              | inl alone ↦
                  ([], l, rw fresh (rw fetched (rw alone refl)), one k visited current fresh)
              | inr other ↦
                  let (rs, l', e, chain) = rest n l in
                  (
                    rs,
                    l',
                    rw fresh (rw fetched (rw other (rw e refl))),
                    more k visited current n rs fresh live chain,
                  )
            ]
      ]

  chain_from-IsChain :
      (k : ℕ) (visited : List String) (current : NodeRef) (calls : ℕ)
      → Found k visited current calls
  unfolding chain_from
  chain_from-IsChain zero visited current calls = ([], calls, refl, tt)
  chain_from-IsChain (suc k) visited current calls =
      elim (Bool-cases (elem current.address visited)) [
        | inl seen ↦ ([], calls, rw seen refl, tt)
        | inr fresh ↦
            let (rs, l, e, chain) =
              begin k visited current calls fresh
                (λ n l. chain_from-IsChain k (current.address ∷ visited) (successor n) l) in
            (current ∷ rs, l, e, chain)
      ]

-- Over any network the successor chain is found without an exception and without a change to any
-- process. It begins with the primary, it is no longer than asked for, it visits no address twice,
-- and each other reference in it is the successor of the process before it.
pub get_successor_chain-IsChain :
    (world : World) (c : Cluster) (k : ℕ) (primary : NodeRef)
    → (rs : List NodeRef) × (l : ℕ) × (get_successor_chain world k primary c
        ≡ (ok (primary ∷ rs), record c { calls = l }))
      × (length (primary ∷ rs) ≤ max 1 k)
      × Fresh [] (primary ∷ rs)
      × Follows c.nodes primary rs
unfolding get_successor_chain
get_successor_chain-IsChain world c k primary =
    let (j, room) = positive k in
    let (rs, l, e, (_, short, fresh, follows)) =
      begin world c.nodes j [] primary c.calls refl
        (λ n l. chain_from-IsChain world c.nodes j (primary.address ∷ []) (successor n) l) in
    (
      rs,
      l,
      subst (λ i. chain_from world i [] primary c ≡ (ok (primary ∷ rs), record c { calls = l }))
          (sym room) e,
      subst (λ i. length (primary ∷ rs) ≤ i) (sym room) short,
      fresh,
      follows,
    )
  where
    positive : (k : ℕ) → (j : ℕ) × (max 1 k ≡ suc j)
    positive k = (max 1 k - 1, omega arith)
