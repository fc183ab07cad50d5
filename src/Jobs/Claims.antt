-- ===== src/Jobs/Claims.antt =====
-- Claims are exclusive: `_try_claim` of chord/worker.py.
use distributed_chord_infras.Common.Dict.{str_eq_refl, lookup-insert}
use distributed_chord_infras.Common.{
  String, ℕ, ◌≡◌, if◌then◌else◌, none, some, true, false, str_eq, Bool, Bool-cases, refl,
  Option-cases, inl, ap, inr, ◌∙◌,
}
use distributed_chord_infras.Jobs.{set_job, try_claim, job_at}
use distributed_chord_infras.Records.{Job}
use distributed_chord_infras.Node.{ChordNode}

pub job_at-set_job :
    (k key : String) (j : Job) (n : ChordNode)
    → job_at k (set_job key j n) ≡ (if str_eq key k then some j else job_at k n)
unfolding set_job
job_at-set_job k key j n = elim (Bool-cases (str_eq key k)) [
  | inl same ↦ rw lookup-insert (rw same refl)
  | inr other ↦ rw lookup-insert (rw other refl)
]

pub job_at-set_job_self :
    (key : String) (j : Job) (n : ChordNode) → job_at key (set_job key j n) ≡ some j
job_at-set_job_self key j n = rw job_at-set_job (rw (str_eq_refl key) refl)

pub try_claim_pending :
    (key : String) (now : ℕ) (n : ChordNode) (j : Job)
    → job_at key n ≡ some j
    → str_eq j.status "pending" ≡ true
    → try_claim key now n ≡ (
      true,
      set_job key
          (record j { status = "claimed"; claimed_by = some n.address; started_at = some now })
          n,
    )
unfolding try_claim
try_claim_pending key now n j at pending = rw (at, try_claim) (rw pending refl)

pub try_claim_other :
    (key : String) (now : ℕ) (n : ChordNode) (j : Job)
    → job_at key n ≡ some j
    → str_eq j.status "pending" ≡ false
    → try_claim key now n ≡ (false, n)
unfolding try_claim
try_claim_other key now n j at other = rw (at, try_claim) (rw other refl)

pub try_claim-none :
    (key : String) (now : ℕ) (n : ChordNode)
    → job_at key n ≡ none
    → try_claim key now n ≡ (false, n)
unfolding try_claim
try_claim-none key now n gone = rw (gone, try_claim) refl

-- A successful claim records the claimer and the time, and as long as the job of the key is as that
-- claim left it, whatever else the node has done since, a later claim of the key fails and changes
-- nothing.
pub try_claim_exclusive :
    (key : String) (now later : ℕ) (n n' : ChordNode)
    → (try_claim key now n).0 ≡ true
    → job_at key n' ≡ job_at key (try_claim key now n).1
    → (j : Job) × (job_at key n ≡ some j)
      × (job_at key (try_claim key now n).1
          ≡ some
              (record j { status = "claimed"; claimed_by = some n.address; started_at = some now }))
      × (try_claim key later n' ≡ (false, n'))
try_claim_exclusive key now later n n' claimed kept = elim (Option-cases (job_at key n)) [
  | inl gone ↦ absurd (false_ne_true (ap (λ x. x.0) (try_claim-none key now n gone)) claimed)
  | inr (j, at) ↦ elim (Bool-cases (str_eq j.status "pending")) [
    | inr other ↦
        absurd (false_ne_true (ap (λ x. x.0) (try_claim_other key now n j at other)) claimed)
    | inl pending ↦
        let e = try_claim_pending key now n j at pending in
        let j' : Job = record j {
          status = "claimed";
          claimed_by = some n.address;
          started_at = some now;
        } in
        let found : job_at key (try_claim key now n).1 ≡ some j' =
          ap (λ x. job_at key x.1) e ∙ job_at-set_job_self key j' n in
        (j, at, found, try_claim_other key later n' j' (kept ∙ found) refl)
  ]
]
  where
    false_ne_true : {b : Bool} → b ≡ false → b ≡ true → ⊥
    false_ne_true e h = cc
