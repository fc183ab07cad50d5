-- ===== src/Lookup/Samples.antt =====
-- A ring of two processes at rest, and a network that delivers every call.
use distributed_chord_infras.Node.{ChordNode, FingerEntry, finger_ref}
use distributed_chord_infras.Network.{Cluster, World, delivered}
use distributed_chord_infras.Transport.Delivery.{IsReliable}
use distributed_chord_infras.Lookup.Stable.{IsStable, IsLive}
use distributed_chord_infras.Common.{
  String, ℕ, refl, ◌<◌, ◌≡◌, none, some, ◌^◌, Bool-cases, [], arith, str_eq, true, ◌==◌, inl, ◌⊎◌,
  inr, subst, ◌≢◌, sym, eq_iff, ◌≤◌, if◌then◌else◌,
}
use distributed_chord_infras.Ring.{m, clockwise}

abbrev pub always : World
always call address = delivered

pub always-IsReliable : IsReliable always
always-IsReliable n address = refl

abbrev pub node : String → ℕ → (ℕ → FingerEntry) → ChordNode
node address node_id fingers = record {
  address = address;
  node_id = node_id;
  predecessor = none;
  fingers = fingers;
  data_store = [];
  jobs_completed = 0;
  jobs_failed = 0;
  pred_fail_count = 0;
  persistent = true;
  snapshot = none;
}

abbrev pub finger : ℕ → String → FingerEntry
finger node_id address = record { start = 0; node_id = node_id; node_address = address }

abbrev pub first : ChordNode
first = node "h:1" 10 (λ i. finger 200 "h:2")

-- The last finger of 200 starts at 72, whose successor is 200 itself.
abbrev pub second : ChordNode
second = node "h:2" 200 (λ i. if i == 7 then finger 200 "h:2" else finger 10 "h:1")

abbrev pub pair : Cluster
pair = record {
  nodes = λ a. if str_eq a "h:1" then some first else if str_eq a "h:2" then some second else none;
  calls = 0;
}

-- What holds of both processes holds of every process.
pub each :
    (P : String → ChordNode → Type 0)
    → P "h:1" first
    → P "h:2" second
    → (a : String) (n : ChordNode) → pair.nodes a ≡ some n
    → P a n
each P p q a n at = elim (Bool-cases (str_eq a "h:1")) [
  | inl one ↦
      let found : some first ≡ some n = rw one at at in
      let e : first ≡ n = cc in
      subst (λ x. P a x) e (subst (λ x. P x first) (sym ((eq_iff a "h:1").0 one)) p)
  | inr rest ↦ elim (Bool-cases (str_eq a "h:2")) [
    | inl two ↦
        let found : some second ≡ some n = rw (rest, two) at at in
        let e : second ≡ n = cc in
        subst (λ x. P a x) e (subst (λ x. P x second) (sym ((eq_iff a "h:2").0 two)) q)
    | inr other ↦ let found : none ≡ some n = rw (rest, other) at at in absurd (none_ne_some found)
  ]
]
  where
    none_ne_some : none ≡ some n → ⊥
    none_ne_some e = cc

second_fingers : (i : ℕ) → IsLive pair.nodes (finger_ref (second.fingers i))
second_fingers i = elim (Bool-cases (i == 7)) [
  | inl last ↦ rw last (second, refl, refl)
  | inr low ↦ rw low (first, refl, refl)
]

pub pair-IsStable : IsStable pair.nodes
pair-IsStable = record {
  ids = each (λ a n. n.node_id < 2 ^ m) (omega arith) (omega arith);
  addresses = each (λ a n. n.address ≡ a) refl refl;
  distinct = λ a b n o at bt.
      each (λ a n. n.node_id ≡ o.node_id → a ≡ b)
        (each (λ b o. first.node_id ≡ o.node_id → "h:1" ≡ b) (λ e. refl) (λ e. absurd (omega arith))
          b o bt)
        (each (λ b o. second.node_id ≡ o.node_id → "h:2" ≡ b) (λ e. absurd (omega arith))
          (λ e. refl) b o bt)
        a n at;
  fingers_live = λ a n i at lt.
      each (λ a n. IsLive pair.nodes (finger_ref (n.fingers i))) (second, refl, refl)
        (second_fingers i) a n at;
  nothing_between = λ a b n o at bt.
      each
        (λ a n.
          (o.node_id ≡ n.node_id)
          ⊎ ((n.fingers 0).node_id ≢ n.node_id)
            × (clockwise n.node_id (n.fingers 0).node_id ≤ clockwise n.node_id o.node_id))
        (each
          (λ b o.
            (o.node_id ≡ 10) ⊎ (◌≢◌ {A = ℕ} 200 10) × (clockwise 10 200 ≤ clockwise 10 o.node_id))
          (inl refl) (inr (omega arith, omega arith)) b o bt)
        (each
          (λ b o.
            (o.node_id ≡ 200) ⊎ (◌≢◌ {A = ℕ} 10 200) × (clockwise 200 10 ≤ clockwise 200 o.node_id))
          (inr (omega arith, omega arith)) (inl refl) b o bt)
        a n at;
}
