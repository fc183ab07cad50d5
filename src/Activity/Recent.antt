-- ===== src/Activity/Recent.antt =====
-- What the activity log of chord/activity.py holds after any number of events.
use distributed_chord_infras.Common.{
  ◌++◌, [], List, ℕ, length, ◌≤◌, ◌<◌, ◌∷◌, ◌≡◌, ap, suc, ◌-◌, ◌⊎◌, arith, sym, inl, refl, ◌∙◌, inr,
  length-append, ◌==◌, false,
}
use distributed_chord_infras.Activity.{get_entries, log, Entry, last, max_entries}

le_total : (a b : ℕ) → (a ≤ b) ⊎ (b < a)
le_total a b = ground arith

module _ {ℓ} {A : Type ℓ} where
  last_short : (n : ℕ) (xs : List A) → length xs ≤ n → last n xs ≡ xs
  last_short n xs short = let e : length xs - n ≡ 0 = omega arith in rw e refl

  last_long : (n : ℕ) (x : A) (xs : List A) → n ≤ length xs → last n (x ∷ xs) ≡ last n xs
  last_long n x xs long =
      let e : suc (length xs) - n ≡ suc (length xs - n) = omega arith in rw e refl

  -- The last entries with one more, of a list or of its last entries.
  last-last : (n : ℕ) (xs ys : List A) → last n (last n xs ++ ys) ≡ last n (xs ++ ys)
  last-last n [] ys = ap (λ zs. last n (zs ++ ys)) (last_short n [] (omega arith))
  last-last n (x ∷ xs) ys = elim (le_total (suc (length xs)) n) [
    | inl short ↦ ap (λ zs. last n (zs ++ ys)) (last_short n (x ∷ xs) short)
    | inr long ↦
        let room = length-append xs ys in
        ap (λ zs. last n (zs ++ ys)) (last_long n x xs (omega arith))
        ∙ last-last n xs ys
        ∙ sym (last_long n x (xs ++ ys) (omega arith))
  ]

  last_shorter : (l n : ℕ) (xs : List A) → l ≤ n → last l (last n xs) ≡ last l xs
  last_shorter l n [] le = ap (λ zs. last l zs) (last_short n [] (omega arith))
  last_shorter l n (x ∷ xs) le = elim (le_total (suc (length xs)) n) [
    | inl short ↦ ap (λ zs. last l zs) (last_short n (x ∷ xs) short)
    | inr long ↦
        ap (λ zs. last l zs) (last_long n x xs (omega arith))
        ∙ last_shorter l n xs le
        ∙ sym (last_long l x xs (omega arith))
  ]

-- The log after a list of events, from one that holds the last of the events before them.
abbrev pub log_all : List Entry → List Entry → List Entry
log_all [] entries = entries
log_all (e ∷ es) entries = log_all es (log e entries)

log_all-last :
    (es before : List Entry)
    → log_all es (last max_entries before) ≡ last max_entries (before ++ es)
unfolding log
log_all-last [] before = ap (λ xs. last max_entries xs) (sym (append_nil before))
  where
    append_nil : (xs : List Entry) → xs ++ [] ≡ xs
    append_nil [] = refl
    append_nil (x ∷ xs) = ap (λ ys. x ∷ ys) (append_nil xs)
log_all-last (e ∷ es) before =
    ap (λ xs. log_all es xs) (last-last max_entries before (e ∷ []))
    ∙ log_all-last es (before ++ (e ∷ []))
    ∙ ap (λ xs. last max_entries xs) (append_assoc before)
  where
    append_assoc : (xs : List Entry) → (xs ++ (e ∷ [])) ++ es ≡ xs ++ (e ∷ es)
    append_assoc [] = refl
    append_assoc (x ∷ xs) = ap (λ ys. x ∷ ys) (append_assoc xs)

-- After any events, a request for some of the entries, not more than the log can hold, is answered
-- with that many of the last events, in their order.
pub get_entries-log_all :
    (es : List Entry) (limit : ℕ)
    → 0 < limit
    → limit ≤ max_entries
    → get_entries limit (log_all es []) ≡ last limit es
unfolding get_entries
get_entries-log_all es limit some_wanted fits =
    rw (not_zero limit some_wanted)
      (ap (λ xs. last limit xs) (log_all-last es []) ∙ last_shorter limit max_entries es fits)
  where
    not_zero : (k : ℕ) → 0 < k → (k == 0) ≡ false
    not_zero k positive = ground arith
