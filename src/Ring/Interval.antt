-- ===== src/Ring/Interval.antt =====
-- `in_range` of chord/node.py as an interval of clockwise distances.
use distributed_chord_infras.Common.{ℕ, ◌+◌, ◌^◌, ◌≤◌, ◌<◌, ◌≡◌, ◌≢◌, ◌↔◌, true, false, arith}
use distributed_chord_infras.Ring.{m, in_range, clockwise}

-- Between two different identifiers, the open test is true exactly of the identifiers that lie
-- strictly between them on the clockwise way from the first to the second.
pub in_range_open :
    (x a b : ℕ)
    → x < 2 ^ m
    → a < 2 ^ m
    → b < 2 ^ m
    → a ≢ b
    → (in_range x a b false ≡ true) ↔ ((0 < clockwise a x) × (clockwise a x < clockwise a b))
unfolding in_range
in_range_open x a b hx ha hb ne = ground arith

-- Between two different identifiers, the closed test is true exactly of the identifiers on the
-- clockwise way from the first to the second, the second included.
pub in_range_closed :
    (x a b : ℕ)
    → x < 2 ^ m
    → a < 2 ^ m
    → b < 2 ^ m
    → a ≢ b
    → (in_range x a b true ≡ true) ↔ ((0 < clockwise a x) × (clockwise a x ≤ clockwise a b))
unfolding in_range
in_range_closed x a b hx ha hb ne = ground arith

-- From `a` the two ways round the ring add up: past `b` the way to `x` goes on from `b`.
pub clockwise_via :
    (a b x : ℕ)
    → x < 2 ^ m
    → a < 2 ^ m
    → b < 2 ^ m
    → clockwise a b ≤ clockwise a x
    → clockwise b x + clockwise a b ≡ clockwise a x
clockwise_via a b x hx ha hb le = omega arith
