-- ===== src/Recovery/Detected.antt =====
-- Which records the scan of chord/recovery.py takes up again.
use distributed_chord_infras.Common.{
  String, ℕ, List, [], ◌∷◌, none, Bool, false, ◌≡◌, refl, arith, elem-snoc, Option, elem, inl, inr,
  ◌⊎◌, true,
}
use distributed_chord_infras.Records.{ResultRecord}
use distributed_chord_infras.Recovery.{
  give_up, is_none, head, is_timed_out, is_failed, is_stuck, is_due, failing, is_unfinished,
}

-- No method of the scan takes up the record: not for a crash of a worker in whose list the task is,
-- not for a timeout, not for a failure, not as stuck, whether its worker is live or not, and not as
-- due, at any time.
abbrev pub IsLeft : ResultRecord → Type 0
IsLeft r =
    (is_unfinished r ≡ false)
    × (is_timed_out r ≡ false)
    × (is_failed r ≡ false)
    × ((live : Bool) → is_stuck live r ≡ false)
    × ((now : ℕ) → is_due now r ≡ false)

-- The task is over: it succeeded, or it failed and was given up, and it does not wait for a retry.
abbrev pub IsOver : ResultRecord → Type 0
IsOver r =
    (r.recovery_status ≡ none)
    × ((r.status ≡ "SUCCESS") ⊎ (r.status ≡ "FAILURE") × (elem "GIVE_UP" r.recovery_history ≡ true))

pub give_up-IsOver :
    (failure_type : Option String) (now : ℕ) (r : ResultRecord)
    → r.recovery_status ≡ none
    → IsOver (give_up (failing failure_type now r))
unfolding give_up
give_up-IsOver failure_type now r calm =
    (calm, inr (refl, ground (arith, elem-snoc "GIVE_UP" "GIVE_UP" r.recovery_history)))

filled : (t : String) (ts : List String) → elem t ts ≡ true → is_none (head ts) ≡ false
filled t [] e = absurd (ground arith)
filled t (x ∷ ts) e = refl

pub IsOver-IsLeft : (r : ResultRecord) → IsOver r → IsLeft r
unfolding is_unfinished is_timed_out is_failed is_stuck is_due
IsOver-IsLeft r (calm, inl success) =
    rw (calm, success) (refl, refl, refl, (λ live. refl), (λ now. refl))
IsOver-IsLeft r (calm, inr (failure, given_up)) =
    rw (calm, failure)
      (
        refl,
        ground (arith, filled "GIVE_UP" r.recovery_history given_up),
        ground (arith, given_up),
        (λ live. refl),
        (λ now. refl),
      )
