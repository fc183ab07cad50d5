-- ===== src/Retry.antt =====
-- `with_timeout_and_retry` of chord/retry.py, over any state `S` that the operation changes. Times are
-- in milliseconds, and the waits are listed instead of slept.
pub mod Calls
mod Tests
use distributed_chord_infras.Common.{ℕ, List, [], ◌∷◌, suc, zero, ◌*◌}
use distributed_chord_infras.Network.{Error}

-- What an operation does: it returns, raises `FatalError`, or raises another exception.
pub data Attempt (A : Type 0) : Type 0 where
  done : A → Attempt A
  fatal : Attempt A
  failed : Error → Attempt A

-- What the helper does: it returns, raises `FatalError`, or raises `RuntimeError` with the last
-- exception.
pub data Outcome (A : Type 0) : Type 0 where
  returned : A → Outcome A
  stopped : Outcome A
  exhausted : Error → Outcome A

-- `MAX_RETRIES`, `INITIAL_BACKOFF_MS`, `BACKOFF_MULTIPLIER` and `TOTAL_ACCEPT_TIMEOUT_MS`
abbrev pub max_retries : ℕ
max_retries = 3

abbrev pub initial_backoff_ms : ℕ
initial_backoff_ms = 100

abbrev pub backoff_multiplier : ℕ
backoff_multiplier = 2

abbrev pub total_accept_timeout_ms : ℕ
total_accept_timeout_ms = 5000

-- The end of the helper, the waits before it, and the state.
abbrev pub Run : Type 0 → Type 0 → Type 0
Run S A = Outcome A × List ℕ × S

module _ {S A : Type 0} (multiplier : ℕ) (op : S → Attempt A × S) where
  abbrev waited : ℕ → Run S A → Run S A
  waited backoff (out, slept, s) = (out, backoff ∷ slept, s)

  -- What follows an attempt, with the run that a retry would be.
  abbrev after_attempt : ℕ → ℕ → Attempt A × S → (S → Run S A) → Run S A
  after_attempt retries backoff (Attempt.done a, s) again = (Outcome.returned a, [], s)
  after_attempt retries backoff (Attempt.fatal, s) again = (Outcome.stopped, [], s)
  after_attempt zero backoff (Attempt.failed e, s) again = (Outcome.exhausted e, [], s)
  after_attempt (suc n) backoff (Attempt.failed e, s) again = waited backoff (again s)

  -- The loop, with so many retries left.
  unfoldable pub with_timeout_and_retry : ℕ → ℕ → S → Run S A
  with_timeout_and_retry zero backoff s =
      after_attempt zero backoff (op s) (λ t. (Outcome.stopped, [], t))
  with_timeout_and_retry (suc n) backoff s =
      after_attempt (suc n) backoff (op s) (with_timeout_and_retry n (backoff * multiplier))
