-- ===== src/Retry/Tests.antt =====
-- An operation that fails twice.
use distributed_chord_infras.Common.{ℕ, String, if◌then◌else◌, ◌≡◌, ◌==◌, ◌∷◌, [], ◌+◌, ◌≤◌}
use distributed_chord_infras.Retry.{Attempt, with_timeout_and_retry}
use distributed_chord_infras.Retry.Calls.{Fails, backoffs, with_timeout_and_retry-Fails}
use distributed_chord_infras.Network.{Error}

abbrev third_time : ℕ → Attempt String × ℕ
third_time n = (if n == 2 then Attempt.done "ok" else Attempt.failed Error.unreachable, n + 1)

with_timeout_and_retry-Fails_example :
    (k : ℕ) × (u : ℕ) × Fails third_time k 0 u
    × (third_time u ≡ (Attempt.done "ok", 3))
    × ((100 ∷ 200 ∷ []) ≡ backoffs 2 k 100)
    × (k ≤ 3)
unfolding with_timeout_and_retry
with_timeout_and_retry-Fails_example = with_timeout_and_retry-Fails 2 third_time 3 100 0
