-- ===== src/Recovery/Guard.antt =====
-- The guard against two attempts at one task in chord/recovery.py.
use distributed_chord_infras.Registry.{Floats, WorkerRegistry}
use distributed_chord_infras.Stores.{Stores}
use distributed_chord_infras.Network.{Error}
use distributed_chord_infras.Recovery.Manager.{Manager, attempt_recovery, emit_event, found}
use distributed_chord_infras.Common.{
  String, ℕ, List, [], ◌∷◌, Option, Bool, true, false, elem, ◌||◌, ◌≡◌, arith, All, Bool-cases,
  refl, str_eq, inl, inr, ap, sym, ◌∙◌,
}
use distributed_chord_infras.Recovery.Steps.{IsClosed, IsStepped, recover_read_kept}
use distributed_chord_infras.Records.{ResultRecord}
use distributed_chord_infras.Recovery.Scan.{trigger}
use distributed_chord_infras.Recovery.Invariant.{IsKept, trigger_kept}
use distributed_chord_infras.Recovery.{others, result_records}
use distributed_chord_infras.Common.Dict.{str_eq_refl}
use distributed_chord_infras.Text.{is_empty}

-- Of two parts of the manager nothing has changed.
abbrev Same : {S : Type 0} → WorkerRegistry → List String → Manager S → Type 0
Same r l m = (m.registry ≡ r) × (m.in_progress ≡ l)

abbrev Any : ResultRecord → Type 0
Any r = Unit

Any-IsClosed : IsClosed Any
Any-IsClosed = record {
  gives_up = λ f now r good. tt;
  waits = λ reason f now t r good. tt;
  retries = λ path w f now r good left. tt;
}

module _ {S : Type 0} (stores : Stores S) (floats : Floats)
    (on_no_workers : Option (S → Option String × S)) (describe : Error → String)
    (r : WorkerRegistry) where
  Same-steps : (l : List String) → IsStepped stores on_no_workers Any (Same r l)
  unfolding emit_event
  Same-steps l = record {
    saved = λ q m good inv. inv;
    appended = λ w t now m inv. inv;
    unassigned = λ w t now m inv. inv;
    emitted = λ type t w message now m inv. inv;
    spawned = λ spawn now m e inv. inv;
  }

  others_absent : (t : String) (l : List String) → elem t l ≡ false → others t l ≡ l
  others_absent t [] absent = refl
  others_absent t (x ∷ l) absent = elim (Bool-cases (str_eq x t)) [
    | inl same ↦ let found : true ≡ false = rw same at absent in absurd (ground arith)
    | inr other ↦
        let rest : elem t l ≡ false = rw other at absent in
        rw other (ap (λ k. x ∷ k) (others_absent t l rest))
  ]

  others_back : (t : String) (l : List String) → elem t l ≡ false → others t (t ∷ l) ≡ l
  others_back t l absent = rw (str_eq_refl t) (others_absent t l absent)

  attempt-Same :
      (task_id : String) (failure_type : Option String) (now : ℕ) (l : List String) (m : Manager S)
      → Same r l m
      → Same r l (attempt_recovery stores floats on_no_workers describe task_id failure_type now m)
  unfolding attempt_recovery
  attempt-Same task_id failure_type now l m (same, guard) =
      elim (Bool-cases (is_empty task_id || elem task_id m.in_progress)) [
        | inl e ↦ rw e (same, guard)
        | inr e ↦
            let absent : elem task_id l ≡ false =
              ap (λ k. elem task_id k) (sym guard)
              ∙ right (is_empty task_id) (elem task_id m.in_progress) e in
            let (same', guard') =
              recover_read_kept stores floats on_no_workers describe Any (Same r (task_id ∷ l))
                Any-IsClosed (Same-steps (task_id ∷ l)) task_id failure_type now
                (found (stores.get task_id m.store).0)
                (record m {
                  store = (stores.get task_id m.store).1;
                  in_progress = task_id ∷ m.in_progress;
                })
                (λ q found. tt) (same, ap (λ k. task_id ∷ k) guard) in
            rw e (same', ap (λ k. others task_id k) guard' ∙ others_back task_id l absent)
      ]
    where
      right : (a b : Bool) → a || b ≡ false → b ≡ false
      right a b e = ground arith

  Same-IsKept :
      (l : List String)
      → IsKept stores (attempt_recovery stores floats on_no_workers describe) Any (Same r l)
  unfolding emit_event
  Same-IsKept l = record {
    attempted = λ t f now m inv. attempt-Same t f now l m inv;
    emitted = λ type t w message now m inv. inv;
    read = λ t m inv. inv;
    read_list = λ w m inv. inv;
    resumed = λ q now m good inv. inv;
    listed = λ m inv. all_any (result_records (stores.local_values m.store));
  }
    where
      all_any : (rs : List ResultRecord) → All Any rs
      all_any [] = tt
      all_any (q ∷ rs) = (tt, all_any rs)

-- Over any services and in every case, errors included, a scan releases each task that it took up
-- and leaves the registry of workers as it was: afterwards the same tasks are in progress as before.
pub trigger-in_progress :
    {S : Type 0} (stores : Stores S) (floats : Floats)
    (on_no_workers : Option (S → Option String × S)) (describe : Error → String) (now : ℕ)
    (m : Manager S)
    → ((trigger stores floats on_no_workers describe now m).registry ≡ m.registry)
      × ((trigger stores floats on_no_workers describe now m).in_progress ≡ m.in_progress)
trigger-in_progress stores floats on_no_workers describe now m =
    trigger_kept stores floats on_no_workers describe Any (Same m.registry m.in_progress)
      (Same-IsKept stores floats on_no_workers describe m.registry m.in_progress) now m (refl, refl)
