-- ===== src/Registry/Turns.antt =====
-- `round_robin_assign` of chord/worker_registry.py while the live workers stay the same.
use native.Mathlib.Nat.{mod-lt, mod-eq_of_lt, mod-add-mod, add-mod-mod, add-mod_right}
use distributed_chord_infras.Common.{
  String, ℕ, List, Option, ◌≡◌, ◌∷◌, [], ◌<◌, ◌%◌, ◌+◌, zero, suc, arith, length, refl, ◌-◌, ◌∙◌,
  ap, sym,
}
use distributed_chord_infras.Registry.{WorkerRegistry, live_workers, round_robin_assign, nth}

-- What the call after so many calls returns.
abbrev pub turn : ℕ → ℕ → WorkerRegistry → Option String
turn zero now r = (round_robin_assign now r).0
turn (suc k) now r = turn k now (round_robin_assign now r).1

live_again :
    (now i : ℕ) (r : WorkerRegistry)
    → live_workers now (record r { rr_next = i }) ≡ live_workers now r
unfolding live_workers
live_again now i r = refl

module _ (now : ℕ) (w : String) (ws : List String) where
  abbrev n : ℕ
  n = length (w ∷ ws)

  assigned :
      (r : WorkerRegistry)
      → live_workers now r ≡ w ∷ ws
      → round_robin_assign now r
        ≡ (nth (r.rr_next % n) (w ∷ ws), record r { rr_next = r.rr_next % n + 1 })
  unfolding round_robin_assign
  assigned r live = rw (live, round_robin_assign) refl

  turn_lem :
      (k : ℕ) (r : WorkerRegistry)
      → live_workers now r ≡ w ∷ ws
      → turn k now r ≡ nth ((r.rr_next + k) % n) (w ∷ ws)
  turn_lem zero r live =
      ap (λ out. out.0) (assigned r live) ∙ ap (λ j. nth (j % n) (w ∷ ws)) (omega arith)
  turn_lem (suc k) r live =
      let i = r.rr_next % n + 1 in
      ap (λ out. turn k now out.1) (assigned r live)
      ∙ turn_lem k (record r { rr_next = i }) (live_again now i r ∙ live)
      ∙ ap (λ j. nth j (w ∷ ws)) next
    where
      reorder : (a b : ℕ) → a + 1 + b ≡ a + suc b
      reorder a b = omega arith

      next : (r.rr_next % n + 1 + k) % n ≡ (r.rr_next + suc k) % n
      next = ap (λ s. s % n) (reorder (r.rr_next % n) k) ∙ mod-add-mod r.rr_next n (suc k)

  -- The call that reaches an index.
  reach : (p j : ℕ) → j < n → (k : ℕ) × (k < n) × ((p + k) % n ≡ j)
  reach p j lt =
      let a = p % n in
      let below : a < n = mod-lt p (omega arith) in
      (
        (j + (n - a)) % n,
        mod-lt (j + (n - a)) (omega arith),
        add-mod-mod p (j + (n - a)) n
            ∙ sym (mod-add-mod p n (j + (n - a)))
            ∙ ap (λ s. s % n) (shifted a below)
            ∙ add-mod_right j n
            ∙ mod-eq_of_lt lt,
      )
    where
      shifted : (a : ℕ) → a < n → a + (j + (n - a)) ≡ j + n
      shifted a below = omega arith

-- While the same workers stay live, each of them is assigned by one of the next calls, of which
-- there are as many as live workers: no live worker is passed over in a round.
pub turn-nth :
    (now j : ℕ) (r : WorkerRegistry)
    → j < length (live_workers now r)
    → (k : ℕ) × (k < length (live_workers now r)) × (turn k now r ≡ nth j (live_workers now r))
turn-nth now j r lt = go (live_workers now r) refl lt
  where
    go :
        (ws : List String)
        → live_workers now r ≡ ws
        → j < length ws
        → (k : ℕ) × (k < length ws) × (turn k now r ≡ nth j ws)
    go [] live lt = absurd (omega arith)
    go (w ∷ ws) live lt =
        let (k, below, e) = reach now w ws r.rr_next j lt in
        (k, below, turn_lem now w ws k r live ∙ ap (λ i. nth i (w ∷ ws)) e)
