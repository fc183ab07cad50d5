-- ===== src/Recovery/Quiet.antt =====
-- A scan of chord/recovery.py that takes up no record.
use distributed_chord_infras.Registry
use distributed_chord_infras.Recovery.Scan.{attempt_each}
use distributed_chord_infras.Recovery.Manager.{Manager, found}
use distributed_chord_infras.Common.{
  String, ℕ, List, [], ◌∷◌, some, none, Option, All, Bool, filter, ◌≡◌, refl, false, map, not,
}
use distributed_chord_infras.Network.{ok, err, Error, Result}
use distributed_chord_infras.Records.{ResultRecord}
use distributed_chord_infras.Stores.{Stores}
use distributed_chord_infras.Registry.{Floats}
use distributed_chord_infras.Recovery.Detected.{IsLeft}
use distributed_chord_infras.Recovery.Scan.{
  crashed, crashed_tasks, crashed_workers, detect_failed_tasks, detect_stuck_tasks,
  detect_timed_out_tasks, retry_waiting_tasks, trigger, all_ht1_records, scan,
  detect_worker_crashes, retry_each,
}
use distributed_chord_infras.Recovery.{result_records, is_due, is_failed, is_stuck, is_timed_out}

-- Where `Rest` holds of a service, every record that it reads or lists is left alone by the scan,
-- and no read ends it.
pub record IsResting {S : Type 0} (stores : Stores S) (Rest : S → Type 0) : Type 0 where
  pub get_rest : (t : String) (s : S) → Rest s → Rest (stores.get t s).1
  pub get_left :
      (t : String) (s : S) (r : ResultRecord)
      → Rest s
      → found (stores.get t s).0 ≡ some r
      → IsLeft r
  pub assigned_rest : (w : String) (s : S) → Rest s → Rest (stores.assigned w s).1
  pub listed_left : (s : S) → Rest s → All IsLeft (result_records (stores.local_values s))

filter-none :
    (p : ResultRecord → Bool) (rs : List ResultRecord)
    → All (λ r. p r ≡ false) rs
    → filter p rs ≡ []
filter-none p [] all = refl
filter-none p (r ∷ rs) (fails, all) = rw fails (filter-none p rs all)

pub All-map :
    (P Q : ResultRecord → Type 0) (f : (r : ResultRecord) → P r → Q r) (rs : List ResultRecord)
    → All P rs
    → All Q rs
All-map P Q f [] all = tt
All-map P Q f (r ∷ rs) (p, all) = (f r p, All-map P Q f rs all)

module _ {S : Type 0} (stores : Stores S) (floats : Floats)
    (on_no_workers : Option (S → Option String × S)) (describe : Error → String) (Rest : S → Type 0)
    (resting : IsResting stores Rest) (m : Manager S) where
  -- Only the store has changed, and it still rests.
  abbrev Calm : Manager S → Type 0
  Calm m' = (s : S) × Rest s × (m' ≡ record m { store = s })

  crashed_calm :
      (worker_id task_id : String) (now : ℕ) (o : Option ResultRecord) (m' : Manager S)
      → ((r : ResultRecord) → o ≡ some r → IsLeft r)
      → crashed stores floats on_no_workers describe worker_id task_id now o m' ≡ m'
  crashed_calm worker_id task_id now none m' left = refl
  crashed_calm worker_id task_id now (some r) m' left = rw (left r refl).0 refl

  crashed_tasks-Calm :
      (worker_id : String) (now : ℕ) (ts : List String) (s : S)
      → Rest s
      → Calm (
          crashed_tasks stores floats on_no_workers describe worker_id now ts
            (record m { store = s }))
  unfolding crashed_tasks
  crashed_tasks-Calm worker_id now [] s rest = (s, rest, refl)
  crashed_tasks-Calm worker_id now (t ∷ ts) s rest =
      let s' = (stores.get t s).1 in
      rw
        (crashed_calm worker_id t now (found (stores.get t s).0) (record m { store = s' })
          (λ r e. resting.get_left t s r rest e))
        (crashed_tasks-Calm worker_id now ts s' (resting.get_rest t s rest))

  crashed_workers-Calm :
      (now : ℕ) (ws : List String) (s : S)
      → Rest s
      → Calm
          (crashed_workers stores floats on_no_workers describe now ws (record m { store = s })).1
  unfolding crashed_workers
  crashed_workers-Calm now [] s rest = (s, rest, refl)
  crashed_workers-Calm now (w ∷ ws) s rest =
      go (stores.assigned w s).0 (λ s. crashed_workers-Calm now ws s)
    where
      s' : S
      s' = (stores.assigned w s).1

      rest' : Rest s'
      rest' = resting.assigned_rest w s rest

      go :
          (out : Result (List String))
          → ((s : S)
              → Rest s
              → Calm
                  (crashed_workers stores floats on_no_workers describe now ws
                    (record m { store = s })).1)
          → Calm
              (elim out as (λ _. Result Unit × Manager S) [
                | ok ts ↦ crashed_workers stores floats on_no_workers describe now ws (
                    crashed_tasks stores floats on_no_workers describe w now ts
                      (record m { store = s' }))
                | err e ↦ (err e, record m { store = s' })
              ]).1
      go (ok ts) ih =
          let (s2, rest2, e) = crashed_tasks-Calm w now ts s' rest' in rw e (ih s2 rest2)
      go (err e) ih = (s', rest', refl)

  -- Of the records that a process at rest lists none meets the condition.
  none_listed :
      (p : ResultRecord → Bool) (s : S)
      → ((r : ResultRecord) → IsLeft r → p r ≡ false)
      → Rest s
      → filter p (result_records (stores.local_values s)) ≡ []
  none_listed p s fails rest = filter-none p _ (
      All-map IsLeft (λ r. p r ≡ false) fails (result_records (stores.local_values s))
        (resting.listed_left s rest))

  timed_out_calm :
      (now : ℕ) (s : S)
      → Rest s
      → detect_timed_out_tasks stores floats on_no_workers describe now (record m { store = s })
        ≡ record m { store = s }
  unfolding detect_timed_out_tasks all_ht1_records attempt_each
  timed_out_calm now s rest =
      rw (none_listed is_timed_out s (λ r left. let (u, t, f, k, d) = left in t) rest) refl

  failed_calm :
      (now : ℕ) (s : S)
      → Rest s
      → detect_failed_tasks stores floats on_no_workers describe now (record m { store = s })
        ≡ record m { store = s }
  unfolding detect_failed_tasks all_ht1_records attempt_each
  failed_calm now s rest =
      rw (none_listed is_failed s (λ r left. let (u, t, f, k, d) = left in f) rest) refl

  stuck_calm :
      (now : ℕ) (s : S)
      → Rest s
      → detect_stuck_tasks stores floats on_no_workers describe now (record m { store = s })
        ≡ record m { store = s }
  unfolding detect_stuck_tasks all_ht1_records attempt_each
  stuck_calm now s rest =
      rw
        (none_listed (λ r. is_stuck (Registry.is_live r.worker_id now m.registry) r) s
          (λ r left.
            (let (u, t, f, k, d) = left in k) (Registry.is_live r.worker_id now m.registry))
          rest)
        refl

  waiting_calm :
      (now : ℕ) (s : S)
      → Rest s
      → retry_waiting_tasks stores floats on_no_workers describe now (record m { store = s })
        ≡ record m { store = s }
  unfolding retry_waiting_tasks all_ht1_records retry_each
  waiting_calm now s rest =
      rw (none_listed (is_due now) s (λ r left. (let (u, t, f, k, d) = left in d) now) rest) refl

  -- Over a service at rest a scan changes nothing but what reads change.
  pub trigger-Calm :
      (now : ℕ) → Rest m.store → Calm (trigger stores floats on_no_workers describe now m)
  unfolding trigger scan detect_worker_crashes
  trigger-Calm now rest =
      let (s, rest', e) = crashed_workers-Calm now dead m.store rest in
      go (crashed_workers stores floats on_no_workers describe now dead m).0 s rest' e
    where
      dead : List String
      dead =
          filter (λ w. not (Registry.is_live w now m.registry))
            (map (λ e. e.0) (Registry.all_workers now m.registry))

      m' : Manager S
      m' = (crashed_workers stores floats on_no_workers describe now dead m).1

      go :
          (out : Result Unit) (s : S)
          → Rest s
          → m' ≡ record m { store = s }
          → Calm
              (elim out as (λ _. Result Unit × Manager S) [
                | err e ↦ (err e, m')
                | ok u ↦ (
                  ok tt,
                  retry_waiting_tasks stores floats on_no_workers describe now (
                      detect_stuck_tasks stores floats on_no_workers describe now (
                        detect_failed_tasks stores floats on_no_workers describe now
                          (detect_timed_out_tasks stores floats on_no_workers describe now m'))),
                )
              ]).1
      go (err x) s rest e = (s, rest, e)
      go (ok u) s rest e = (
        s,
        rest,
        rw e (
            rw (timed_out_calm now s rest)
              (rw (failed_calm now s rest) (rw (stuck_calm now s rest) (waiting_calm now s rest)))),
      )
