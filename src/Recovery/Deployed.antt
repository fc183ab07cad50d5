-- ===== src/Recovery/Deployed.antt =====
-- Recovery by the processes of a ring, with the services of storage/.
use distributed_chord_infras.Results
use distributed_chord_infras.Assignments
use distributed_chord_infras.Recovery.Bounded.{IsBounded, IsFine, trigger-IsBounded}
use distributed_chord_infras.Recovery.Manager.{Manager}
use distributed_chord_infras.Stores.{chord_stores, ignored}
use distributed_chord_infras.Stores.Values.{Stored}
use distributed_chord_infras.Stores.Kept.{Plain}
use distributed_chord_infras.Stores.Services.{IfRecord, get_result-Keeps, put_result-Keeps}
use distributed_chord_infras.Transport.Kept.{Good}
use distributed_chord_infras.Network.{ok, err, Cluster, Result, World, Error}
use distributed_chord_infras.Common.{String, ℕ, none, arith}
use distributed_chord_infras.Records.{Value}
use distributed_chord_infras.Registry.{Floats}
use distributed_chord_infras.Stores.Lists.{append-Keeps, remove-Keeps, get-Keeps}
use distributed_chord_infras.Recovery.Scan.{trigger}
use distributed_chord_infras.Recovery.Listed.{OnRecords, read-Sound, listed-Sound}

-- A result record is within its limit of attempts.
abbrev pub IsWithin : Value → Type 0
IsWithin = OnRecords IsBounded

-- Every process stores only such records.
abbrev pub AllWithin : Cluster → Type 0
AllWithin c = Stored IsWithin c.nodes

kept :
    {A : Type 0} (Q : A → Type 0) (out : Result A × Cluster)
    → Good (Stored IsWithin) Q out
    → AllWithin out.1
kept Q (ok a, d) good = good.0
kept Q (err e, d) good = good

kept_ignored :
    {A : Type 0} (Q : A → Type 0) (out : Result A × Cluster)
    → Good (Stored IsWithin) Q out
    → AllWithin (ignored out).1
kept_ignored Q (ok a, d) good = good.0
kept_ignored Q (err e, d) good = good

module _ (digest : String → ℕ) (fuel : ℕ) (world : World) (self : String) (k : ℕ) where
  services-IsFine : IsFine (chord_stores digest fuel world self k) none AllWithin
  unfolding chord_stores
  services-IsFine = record {
    get_bounded = λ t c r fine e.
        read-Sound IsBounded (Results.get_result digest fuel world self k t c) r
          (get_result-Keeps IsWithin digest fuel world self k t c fine) e;
    get_fine = λ t c fine.
        kept (IfRecord IsWithin) (Results.get_result digest fuel world self k t c)
          (get_result-Keeps IsWithin digest fuel world self k t c fine);
    put_fine = λ t r c b fine.
        kept_ignored (Plain IsWithin) (Results.put_result digest fuel world self k t r c)
          (put_result-Keeps IsWithin digest fuel world self k t r b c fine);
    append_fine = λ w t now c fine.
        kept_ignored (Plain IsWithin) (Assignments.append digest fuel world k self w t now c)
          (append-Keeps IsWithin (λ w. tt) digest fuel world k self w t now c fine);
    unassign_fine = λ w t now c fine.
        kept_ignored (Plain IsWithin) (Assignments.remove digest fuel world k self w t now c)
          (remove-Keeps IsWithin (λ w. tt) digest fuel world k self w t now c fine);
    assigned_fine = λ w c fine.
        kept (Plain IsWithin) (Assignments.get digest fuel world k self w c)
          (get-Keeps IsWithin (λ w. tt) digest fuel world k self w c fine);
    local_fine = λ c fine. listed-Sound IsBounded (c.nodes self) (λ n live. fine self n live);
    spawn_fine = λ spawn c e fine. absurd (ground arith);
  }

  -- Over any network, where workers are not started by the manager: if every process stores only
  -- result records whose number of attempts is at most their limit, it does so after any scan of
  -- recovery, whatever calls fail and wherever it stops.
  pub trigger-AllWithin :
      (floats : Floats) (describe : Error → String) (now : ℕ) (m : Manager Cluster)
      → AllWithin m.store
      → AllWithin (trigger (chord_stores digest fuel world self k) floats none describe now m).store
  trigger-AllWithin floats describe now m fine =
      trigger-IsBounded (chord_stores digest fuel world self k) floats none describe AllWithin
        services-IsFine now m fine
