-- ===== src/Lookup/Routed.antt =====
-- The routed endpoints `/put` and `/get` of chord/server.py in a ring at rest.
use distributed_chord_infras.Node
use distributed_chord_infras.Transport
use distributed_chord_infras.Common.{
  String, ℕ, ◌<◌, ◌^◌, ◌≡◌, some, Bool-cases, arith, ◌≤◌, inl, inr, ◌≢◌, sym, ◌==◌, ◌∙◌, ==_iff, ap,
  refl, ◌+◌,
}
use distributed_chord_infras.Ring.{sha1_id, m}
use distributed_chord_infras.Records.{Value, NodeRef}
use distributed_chord_infras.Node.{ChordNode, stored}
use distributed_chord_infras.Network.{World, Cluster, ok, set_node, tick, reads}
use distributed_chord_infras.Transport.Delivery.{IsReliable, request_delivered, retry_ok}
use distributed_chord_infras.Lookup.Stable.{IsStable, IsOwner}
use distributed_chord_infras.Common.Dict.{dict_laws}
use distributed_chord_infras.Lookup.{
  routed_get, routed_put, here, put_attempt, find_successor, get_attempt, routed_retries,
}
use distributed_chord_infras.Lookup.Owner.{find_successor-IsOwner, IsOwner-unique}
use distributed_chord_infras.Lookup.Writes.{
  put-SamePointers, becomes, set_node-IsStable, set_node-IsOwner,
}
use distributed_chord_infras.Network.Nodes.{set_node_self}
use distributed_chord_infras.Records.Dynamic.{Json}
use distributed_chord_infras.Transport.Calls.{put_lem}
use distributed_chord_infras.Node.Laws.{null-cases}

pub sha1_id-lt : (digest : String → ℕ) (key : String) → sha1_id digest key < 2 ^ m
unfolding sha1_id
sha1_id-lt digest key = omega arith

pub get-put :
    (key : String) (value : Value) (n : ChordNode)
    → Node.get key (Node.put key value n) ≡ stored (some value)
unfolding Node.get Node.put
get-put key value n = elim (Bool-cases n.persistent) [
  | inl kept ↦ rw kept (simp dict_laws)
  | inr lost ↦ rw lost (simp dict_laws)
]

transport_get_lem :
    (world : World) (address key : String) (c : Cluster) (o : ChordNode)
    → IsReliable world
    → c.nodes address ≡ some o
    → Transport.get world address key c ≡ (ok (Node.get key o), tick c)
unfolding Transport.get
transport_get_lem world address key c o reliable at =
    request_delivered world address (reads (Node.get key)) c o (ok (Node.get key o)) (tick c)
      reliable at refl

module _ (digest : String → ℕ) (world : World) (fuel : ℕ) (reliable : IsReliable world)
    (enough : 2 ^ m ≤ fuel) (c : Cluster) (self : String) (n : ChordNode) (key : String)
    (stable : IsStable c.nodes) (live : c.nodes self ≡ some n)
    (start : sha1_id digest key ≢ n.node_id) where
  -- The lookup that begins an attempt, where the owner is known.
  pub find_owner :
      (r : NodeRef)
      → IsOwner c.nodes (sha1_id digest key) r
      → (k : ℕ) × (here self (λ n'. find_successor fuel world n' (sha1_id digest key)) c
          ≡ (ok r, record c { calls = k }))
  find_owner r owns =
      let (s, k, found, owns') =
        find_successor-IsOwner world fuel c self n (sha1_id digest key) reliable stable live
          (sha1_id-lt digest key) (inl start) enough in
      let (p, q) =
        IsOwner-unique c.nodes (sha1_id digest key) s r stable (sha1_id-lt digest key) owns' owns in
      (
        k,
        rw (live, here)
            (found ∙ (λ i. (ok (record { id = p i; address = q i }), record c { calls = k }))),
      )

  -- The owner is the process itself where the identifiers agree.
  pub owner_is_self :
      (r : NodeRef) (o : ChordNode)
      → IsOwner c.nodes (sha1_id digest key) r
      → c.nodes r.address ≡ some o
      → r.id ≡ n.node_id
      → (self ≡ r.address) × (n ≡ o)
  owner_is_self r o ((o', at', same), first) at e =
      let p : self ≡ r.address = stable.distinct self r.address n o' live at' (sym (same ∙ e)) in
      let found : some n ≡ some o = sym live ∙ ap c.nodes p ∙ at in (p, cc)

  put_attempt_lem :
      (value : Value) (r : NodeRef) (o : ChordNode)
      → IsOwner c.nodes (sha1_id digest key) r
      → c.nodes r.address ≡ some o
      → stored (some value) ≡ some value
      → (k : ℕ) × (put_attempt digest fuel world self key value c
          ≡ (ok r.id, record (set_node r.address (Node.put key value o) c) { calls = k }))
  unfolding put_attempt set_node
  put_attempt_lem value r o owns at body =
      let (k, found) = find_owner r owns in
      elim (Bool-cases (r.id == n.node_id)) [
        | inl mine ↦
            let e : r.id ≡ n.node_id = (==_iff _ _).0 mine in
            let (p, q) = owner_is_self r o owns at e in
            (
              k,
              rw (found, live, mine)
                  (λ i. (
                    ok (sym e i),
                    record (set_node (p i) (Node.put key value (q i)) c) { calls = k },
                  )),
            )
        | inr theirs ↦ (
          k + 1,
          rw (found, live, theirs)
              (rw (put_lem world reliable r.address (record c { calls = k }) o at key value body)
                refl),
        )
      ]

  get_attempt_lem :
      (r : NodeRef) (o : ChordNode)
      → IsOwner c.nodes (sha1_id digest key) r
      → c.nodes r.address ≡ some o
      → (k : ℕ) × (get_attempt digest fuel world self key c
          ≡ (ok (Node.get key o), record c { calls = k }))
  unfolding get_attempt
  get_attempt_lem r o owns at =
      let (k, found) = find_owner r owns in
      elim (Bool-cases (r.id == n.node_id)) [
        | inl mine ↦
            let (p, q) = owner_is_self r o owns at ((==_iff _ _).0 mine) in
            (k, rw (found, live, mine) (λ i. (ok (Node.get key (q i)), record c { calls = k })))
        | inr theirs ↦ (
          k + 1,
          rw (found, live, theirs)
              (rw (transport_get_lem world r.address key (record c { calls = k }) o reliable at)
                refl),
        )
      ]

value_there : (value : Value) → value ≢ Value.other Json.null → stored (some value) ≡ some value
value_there value some_value = elim (null-cases value) [
  | inl null ↦ absurd (some_value null)
  | inr body ↦ body
]

-- In a ring at rest, over a network that delivers every call and with fuel of at least 2 ^ m, what
-- one process stores through `/put/<key>` any process then reads through `/get/<key>`, if the value
-- is not null and the identifier of the key is not that of one of the two processes.
pub routed_get-routed_put :
    (digest : String → ℕ) (world : World) (fuel : ℕ) (c : Cluster) (a b : String) (n o : ChordNode)
    (key : String) (value : Value)
    → IsReliable world
    → 2 ^ m ≤ fuel
    → IsStable c.nodes
    → c.nodes a ≡ some n
    → c.nodes b ≡ some o
    → sha1_id digest key ≢ n.node_id
    → sha1_id digest key ≢ o.node_id
    → value ≢ Value.other Json.null
    → (id : ℕ) × (c' : Cluster) × (routed_put digest fuel world a key value c ≡ (ok id, c'))
      × ((routed_get digest fuel world b key c').0 ≡ ok (some value))
unfolding routed_put routed_get
routed_get-routed_put digest world fuel c a b n o key value reliable enough stable live live' ne ne'
      some_value =
    let kid = sha1_id digest key in
    let bound = sha1_id-lt digest key in
    let body = value_there value some_value in
    let (r, _, _, owns) =
      find_successor-IsOwner world fuel c a n kid reliable stable live bound (inl ne) enough in
    let (p, at, same) = owns.0 in
    let (k, stored) =
      put_attempt_lem digest world fuel reliable enough c a n key stable live ne value r p owns at
        body in
    let p' = Node.put key value p in
    let pointers = put-SamePointers key value p in
    let (o', live'', same') = becomes c r.address p p' at pointers b o live' in
    let (l, read) =
      get_attempt_lem digest world fuel reliable enough
        (record (set_node r.address p' c) { calls = k }) b o' key
        (set_node-IsStable c r.address p p' at pointers stable) live'' (λ e. ne' (e ∙ same')) r p'
        (set_node-IsOwner c r.address p p' at pointers kid r owns) (set_node_self r.address p' c) in
    (
      r.id,
      record (set_node r.address p' c) { calls = k },
      retry_ok routed_retries (put_attempt digest fuel world a key value) c r.id
          (record (set_node r.address p' c) { calls = k }) stored,
      ap (λ x. x.0)
            (retry_ok routed_retries (get_attempt digest fuel world b key)
              (record (set_node r.address p' c) { calls = k }) (Node.get key p')
              (record (set_node r.address p' c) { calls = l }) read)
          ∙ ap ok (get-put key value p ∙ body),
    )
