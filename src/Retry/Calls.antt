-- ===== src/Retry/Calls.antt =====
-- How often the helper of chord/retry.py calls its operation, and how long it waits.
use distributed_chord_infras.Retry.{Outcome, waited, Attempt, after_attempt, Run}
use distributed_chord_infras.Common.{ℕ, List, [], suc, ◌∷◌, ◌≡◌, ◌*◌, zero, ap, arith, ◌≤◌, refl}
use distributed_chord_infras.Retry.{Attempt, Run, with_timeout_and_retry}
use distributed_chord_infras.Network.{Error}

module _ {S A : Type 0} (op : S → Attempt A × S) where
  -- So many calls in a row that fail, from one state to another.
  pub data Fails : ℕ → S → S → Type 0 where
    start : {s : S} → Fails 0 s s
    again :
        {k : ℕ} {s t u : S} {e : Error}
        → op s ≡ (Attempt.failed e, t)
        → Fails k t u
        → Fails (suc k) s u

-- The waits before so many retries: each is the one before it times the multiplier.
abbrev pub backoffs : ℕ → ℕ → ℕ → List ℕ
backoffs multiplier zero backoff = []
backoffs multiplier (suc k) backoff = backoff ∷ backoffs multiplier k (backoff * multiplier)

-- The last call.
abbrev pub as_attempt : {A : Type 0} → Outcome A → Attempt A
as_attempt (Outcome.returned a) = Attempt.done a
as_attempt Outcome.stopped = Attempt.fatal
as_attempt (Outcome.exhausted e) = Attempt.failed e

-- Only an exhausted run uses up the retries.
abbrev pub Within : {A : Type 0} → ℕ → ℕ → Outcome A → Type 0
Within n k (Outcome.exhausted e) = k ≡ n
Within n k _ = k ≤ n

module _ {S A : Type 0} (multiplier : ℕ) (op : S → Attempt A × S) where
  abbrev Explains : ℕ → ℕ → S → Run S A → Type 0
  Explains n backoff s (out, slept, t) =
      (k : ℕ) × (u : S) × Fails op k s u
      × (op u ≡ (as_attempt out, t))
      × (slept ≡ backoffs multiplier k backoff)
      × Within n k out

  one_more :
      (n backoff : ℕ) (s t : S) (e : Error) (run : Run S A)
      → op s ≡ (Attempt.failed e, t)
      → Explains n (backoff * multiplier) t run
      → Explains (suc n) backoff s (waited multiplier op backoff run)
  one_more n backoff s t e (Outcome.returned a, slept, v) first (k, u, fails, last, waits, within) =
      (suc k, u, Fails.again first fails, last, ap (λ l. backoff ∷ l) waits, omega (arith, within))
  one_more n backoff s t e (Outcome.stopped, slept, v) first (k, u, fails, last, waits, within) =
      (suc k, u, Fails.again first fails, last, ap (λ l. backoff ∷ l) waits, omega (arith, within))
  one_more n backoff s t e (Outcome.exhausted x, slept, v) first
        (k, u, fails, last, waits, within) =
      (suc k, u, Fails.again first fails, last, ap (λ l. backoff ∷ l) waits, omega (arith, within))

  -- The helper calls the operation until it returns or raises `FatalError`, and at most once more
  -- than the retries; it gives up only when that many calls have failed, and then with the error of
  -- the last one. Its result is that of the last call, and it waits between two calls, each time
  -- longer by the multiplier.
  pub with_timeout_and_retry-Fails :
      (n backoff : ℕ) (s : S)
      → (k : ℕ) × (u : S) × Fails op k s u
        × (op u ≡ (
          as_attempt (with_timeout_and_retry multiplier op n backoff s).0,
          (with_timeout_and_retry multiplier op n backoff s).2,
        ))
        × ((with_timeout_and_retry multiplier op n backoff s).1 ≡ backoffs multiplier k backoff)
        × Within n k (with_timeout_and_retry multiplier op n backoff s).0
  unfolding with_timeout_and_retry
  with_timeout_and_retry-Fails zero backoff s = go (op s) refl
    where
      go :
          (out : Attempt A × S)
          → op s ≡ out
          → Explains zero backoff s
              (after_attempt multiplier op zero backoff out (λ t. (Outcome.stopped, [], t)))
      go (Attempt.done a, t) e = (0, s, Fails.start, e, refl, omega arith)
      go (Attempt.fatal, t) e = (0, s, Fails.start, e, refl, omega arith)
      go (Attempt.failed x, t) e = (0, s, Fails.start, e, refl, omega arith)
  with_timeout_and_retry-Fails (suc n) backoff s =
      go (op s) refl (with_timeout_and_retry-Fails n (backoff * multiplier))
    where
      go :
          (out : Attempt A × S)
          → op s ≡ out
          → ((t : S)
              → Explains n
                  (backoff * multiplier)
                  t
                  (with_timeout_and_retry multiplier op n (backoff * multiplier) t))
          → Explains (suc n) backoff s (
              after_attempt multiplier op
                (suc n)
                backoff
                out
                (with_timeout_and_retry multiplier op n (backoff * multiplier)))
      go (Attempt.done a, t) e ih = (0, s, Fails.start, e, refl, omega arith)
      go (Attempt.fatal, t) e ih = (0, s, Fails.start, e, refl, omega arith)
      go (Attempt.failed x, t) e ih =
          one_more n backoff s t x (with_timeout_and_retry multiplier op n (backoff * multiplier) t)
            e (ih t)
