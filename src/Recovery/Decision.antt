-- ===== src/Recovery/Decision.antt =====
-- The decision of chord/recovery.py, and the worker of a retry.
use distributed_chord_infras.Common.{ltb, arith, refl, sym, eq_iff, inr, subst, ap, ◌∙◌}
use distributed_chord_infras.Common.{
  String, List, [], ◌∷◌, some, none, Option, Bool, true, false, if◌then◌else◌, str_eq, ◌≡◌, elem,
  ◌||◌, ◌↔◌, ◌&&◌, ◌≢◌, Bool-cases, leb, ◌⊎◌, inl,
}
use distributed_chord_infras.Records.{ResultRecord}
use distributed_chord_infras.Recovery.{
  choose_recovery_path, pick_worker, retry_or_wait, head, others, limit, attempts, or_first,
  is_kind,
}
use distributed_chord_infras.Registry.{get_or}
use distributed_chord_infras.Common.Dict.{str_eq_refl}

-- The failures that a retry may mend: a task that ended with an error only where its record says so.
abbrev pub is_retryable : ResultRecord → Option String → Bool
is_retryable r failure_type =
    is_kind failure_type "task_timeout"
    || is_kind failure_type "worker_crash"
    || is_kind failure_type "task_failure" && get_or false r.retry_on_failure

-- A retry of the task is allowed: attempts are left, and the failure is one that a retry may mend.
abbrev pub may_retry : ResultRecord → Option String → Bool
may_retry r failure_type = ltb (attempts r) (limit r) && is_retryable r failure_type

differ : (a b : String) → str_eq a b ≡ false → a ≢ b
differ a b other same = ground (arith, eq_iff a b)

clash : true ≡ false → ⊥
clash e = ground arith

abbrev path_of : Bool → Bool → String
path_of may live = if may then retry_or_wait live else "GIVE_UP"

choose-path_of :
    (r : ResultRecord) (failure_type : Option String) (live : Bool)
    → choose_recovery_path r failure_type live ≡ path_of (may_retry r failure_type) live
unfolding choose_recovery_path
choose-path_of r failure_type live = elim (Bool-cases (leb (limit r) (attempts r))) [
  | inl used ↦
      let none_left : ltb (attempts r) (limit r) ≡ false = ground arith in rw (used, none_left) refl
  | inr left ↦
      let some_left : ltb (attempts r) (limit r) ≡ true = ground arith in
      rw (left, some_left)
        (kinds (is_kind failure_type "task_timeout") (is_kind failure_type "worker_crash")
          (is_kind failure_type "task_failure") (get_or false r.retry_on_failure))
]
  where
    kinds :
        (a b c d : Bool)
        → (if a
            then retry_or_wait live
            else if b
            then retry_or_wait live
            else if c
            then (if d then retry_or_wait live else "GIVE_UP")
            else "GIVE_UP")
          ≡ (if a || b || c && d then retry_or_wait live else "GIVE_UP")
    kinds true b c d = refl
    kinds false true c d = refl
    kinds false false true true = refl
    kinds false false true false = refl
    kinds false false false d = refl

-- The decision: a retry on another worker exactly where a retry is allowed and a worker is live, a
-- wait exactly where a retry is allowed and no worker is live, and to give up exactly where no
-- retry is allowed. No failure leads to a retry on the same worker.
pub choose_recovery_path_lem :
    (r : ResultRecord) (failure_type : Option String) (live : Bool)
    → ((choose_recovery_path r failure_type live ≡ "RETRY_DIFFERENT")
        ↔ (may_retry r failure_type ≡ true) × (live ≡ true))
      × ((choose_recovery_path r failure_type live ≡ "WAIT_AND_RETRY")
          ↔ (may_retry r failure_type ≡ true) × (live ≡ false))
      × ((choose_recovery_path r failure_type live ≡ "GIVE_UP")
          ↔ (may_retry r failure_type ≡ false))
      × (choose_recovery_path r failure_type live ≢ "RETRY_SAME")
choose_recovery_path_lem r failure_type live =
    rw (choose-path_of r failure_type live) (table (may_retry r failure_type) live)
  where
    table :
        (may live : Bool)
        → ((path_of may live ≡ "RETRY_DIFFERENT") ↔ (may ≡ true) × (live ≡ true))
          × ((path_of may live ≡ "WAIT_AND_RETRY") ↔ (may ≡ true) × (live ≡ false))
          × ((path_of may live ≡ "GIVE_UP") ↔ (may ≡ false))
          × (path_of may live ≢ "RETRY_SAME")
    table true true = (
      ((λ e. (refl, refl)), (λ e. refl)),
      ((λ e. absurd (differ "RETRY_DIFFERENT" "WAIT_AND_RETRY" refl e)), (λ e. absurd (clash e.1))),
      ((λ e. absurd (differ "RETRY_DIFFERENT" "GIVE_UP" refl e)), (λ e. absurd (clash e))),
      differ "RETRY_DIFFERENT" "RETRY_SAME" refl,
    )
    table true false = (
      (
        (λ e. absurd (differ "WAIT_AND_RETRY" "RETRY_DIFFERENT" refl e)),
        (λ e. absurd (clash (sym e.1))),
      ),
      ((λ e. (refl, refl)), (λ e. refl)),
      ((λ e. absurd (differ "WAIT_AND_RETRY" "GIVE_UP" refl e)), (λ e. absurd (clash e))),
      differ "WAIT_AND_RETRY" "RETRY_SAME" refl,
    )
    table false live = (
      ((λ e. absurd (differ "GIVE_UP" "RETRY_DIFFERENT" refl e)), (λ e. absurd (clash (sym e.0)))),
      ((λ e. absurd (differ "GIVE_UP" "WAIT_AND_RETRY" refl e)), (λ e. absurd (clash (sym e.0)))),
      ((λ e. refl), (λ e. refl)),
      differ "GIVE_UP" "RETRY_SAME" refl,
    )

some_inj : (x w : String) → some x ≡ some w → x ≡ w
some_inj x w e = cc

some-none : (x : String) → ◌≢◌ {A = Option String} (some x) none
some-none x e = cc

nothing : (ws : List String) → head ws ≡ none → ws ≡ []
nothing [] e = refl
nothing (w ∷ ws) e = absurd (some-none w e)

head-elem : (w : String) (l : List String) → head l ≡ some w → elem w l ≡ true
head-elem w [] e = let no : none ≡ some w = e in absurd (cc)
head-elem w (x ∷ l) e = let same : x ≡ w = some_inj x w e in rw (same, str_eq_refl w) refl

elem-others :
    (w current : String) (l : List String) → elem w (others current l) ≡ true → elem w l ≡ true
elem-others w current [] e = e
elem-others w current (x ∷ l) e = elim (Bool-cases (str_eq x current)) [
  | inl same ↦
      let e' : elem w (others current l) ≡ true = rw same at e in
      ground (arith, elem-others w current l e')
  | inr other ↦
      let e' : str_eq x w || elem w (others current l) ≡ true = rw other at e in
      elim (Bool-cases (str_eq x w)) [
        | inl here ↦ rw here refl
        | inr there ↦
            let e'' : elem w (others current l) ≡ true = rw there at e' in
            rw there (elem-others w current l e'')
      ]
]

-- A retry on another worker goes to a live one; to the first in the ranking that is not the worker
-- before; and to that worker again only where no other is live. It fails to find one only where
-- none is live.
pub pick_worker_lem :
    (current : String) (ws : List String) (b : Bool)
    → ((w : String)
        → pick_worker "RETRY_DIFFERENT" current ws b ≡ some w
        → (elem w ws ≡ true)
          × ((head (others current ws) ≡ some w) ⊎ (others current ws ≡ []) × (head ws ≡ some w)))
      × (pick_worker "RETRY_DIFFERENT" current ws b ≡ none → ws ≡ [])
unfolding pick_worker
pick_worker_lem current ws b = go (others current ws) refl
  where
    go :
        (l : List String)
        → others current ws ≡ l
        → ((w : String)
            → or_first ws (head l) ≡ some w
            → (elem w ws ≡ true)
              × ((head (others current ws) ≡ some w)
                  ⊎ (others current ws ≡ []) × (head ws ≡ some w)))
          × (or_first ws (head l) ≡ none → ws ≡ [])
    go [] e = ((λ w first. (head-elem w ws first, inr (e, first))), nothing ws)
    go (x ∷ l) e = (
      (λ w first.
          let same : x ≡ w = some_inj x w first in
          (
            subst (λ y. elem y ws ≡ true) same
                (elem-others x current ws (ap (λ k. elem x k) e ∙ rw (str_eq_refl x) refl)),
            inl (ap head e ∙ ap some same),
          )),
      (λ e'. absurd (some-none x e')),
    )
