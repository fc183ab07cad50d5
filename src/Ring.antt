-- ===== src/Ring.antt =====
-- The identifier ring of chord/node.py: 2^M identifiers, the hash of a key, and the test for an
-- interval of the ring.
pub mod Interval
use distributed_chord_infras.Common.{
  ℕ, ◌+◌, ◌-◌, ◌%◌, ◌^◌, String, Bool, true, ◌&&◌, ◌||◌, ltb, leb, ◌==◌, if◌then◌else◌,
}

-- `M`
abbrev pub m : ℕ
m = 8

-- `hashlib.sha1(key.encode()).hexdigest()` read as a number is the argument.
unfoldable pub sha1_id : (String → ℕ) → String → ℕ
sha1_id digest key = digest key % 2 ^ m

unfoldable pub in_range : ℕ → ℕ → ℕ → Bool → Bool
in_range x a b inclusive_b =
    if a == b
    then true
    else if ltb a b
    then (if inclusive_b then ltb a x && leb x b else ltb a x && ltb x b)
    else if inclusive_b
    then ltb a x || leb x b
    else ltb a x || ltb x b

-- The clockwise way from `a` to `b`, the measure by which the ring's order is stated.
abbrev pub clockwise : ℕ → ℕ → ℕ
clockwise a b = (b + 2 ^ m - a) % 2 ^ m
