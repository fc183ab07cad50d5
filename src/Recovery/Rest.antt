-- ===== src/Recovery/Rest.antt =====
-- Processes at which a scan of chord/recovery.py takes up no record.
use distributed_chord_infras.Assignments.Reads.{get-IsQuiet}
use distributed_chord_infras.Recovery.Detected.{IsLeft, IsOver, IsOver-IsLeft}
use distributed_chord_infras.Recovery.Quiet.{IsResting, trigger-Calm, All-map}
use distributed_chord_infras.Results.Reads.{get_result-IsQuiet}
use distributed_chord_infras.Stores.Services.{get_result-Keeps}
use distributed_chord_infras.Stores.{chord_stores, data_of}
use distributed_chord_infras.Stores.Values.{Stored}
use distributed_chord_infras.Results
use distributed_chord_infras.Network.{Cluster, World, Error}
use distributed_chord_infras.Common.{String, ℕ, ◌≡◌, Option, subst, ◌∙◌, refl, sym}
use distributed_chord_infras.Registry.{Floats}
use distributed_chord_infras.Recovery.Manager.{Manager}
use distributed_chord_infras.Recovery.Scan.{trigger}
use distributed_chord_infras.Recovery.Listed.{OnRecords, read-Sound, listed-Sound}
use distributed_chord_infras.Recovery.{result_records}

-- Every result record that a process stores is that of a task that is over.
abbrev pub AllOver : Cluster → Type 0
AllOver c = Stored (OnRecords IsOver) c.nodes

module _ (digest : String → ℕ) (fuel : ℕ) (world : World) (self : String) (k : ℕ) where
  services-IsResting :
      (c : Cluster)
      → AllOver c
      → IsResting (chord_stores digest fuel world self k) (λ d. d.nodes ≡ c.nodes)
  unfolding chord_stores
  services-IsResting c left = record {
    get_rest = λ t d same. get_result-IsQuiet digest fuel world self k t d ∙ same;
    get_left = λ t d r same e. IsOver-IsLeft r (
        read-Sound IsOver (Results.get_result digest fuel world self k t d) r
          (get_result-Keeps (OnRecords IsOver) digest fuel world self k t d (at_rest d same)) e);
    assigned_rest = λ w d same. get-IsQuiet digest fuel world k self w d ∙ same;
    listed_left = λ d same.
        All-map IsOver IsLeft IsOver-IsLeft (result_records (data_of (d.nodes self)))
          (listed-Sound IsOver (d.nodes self) (λ n live. at_rest d same self n live));
  }
    where
      at_rest : (d : Cluster) → d.nodes ≡ c.nodes → AllOver d
      at_rest d same = subst (λ nodes. Stored (OnRecords IsOver) nodes) (sym same) left

  -- Over any network: if every result record that a process stores has no recovery status, and its
  -- status is SUCCESS, or FAILURE with GIVE_UP in its history, then a scan of recovery, at any time
  -- and for any live workers, changes nothing: no store, no event, no task in progress, not the
  -- registry, and it starts no worker. Only calls are made.
  pub trigger-rests :
      (floats : Floats) (on_no_workers : Option (Cluster → Option String × Cluster))
      (describe : Error → String) (now : ℕ) (m : Manager Cluster)
      → AllOver m.store
      → (l : ℕ) × (trigger
            (chord_stores digest fuel world self k)
            floats
            on_no_workers
            describe
            now
            m
          ≡ record m { store = record m.store { calls = l } })
  trigger-rests floats on_no_workers describe now m left =
      let (d, same, e) =
        trigger-Calm (chord_stores digest fuel world self k) floats on_no_workers describe
          (λ d. d.nodes ≡ m.store.nodes) (services-IsResting m.store left) m now refl in
      (d.calls, e ∙ (λ i. record m { store = record { nodes = same i; calls = d.calls } }))
