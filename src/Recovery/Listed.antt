-- ===== src/Recovery/Listed.antt =====
-- What holds of every result record that the processes store, for chord/recovery.py.
use distributed_chord_infras.Recovery.Manager.{found}
use distributed_chord_infras.Stores.{data_of}
use distributed_chord_infras.Stores.Values.{Stored, AllFit}
use distributed_chord_infras.Stores.Services.{IfRecord}
use distributed_chord_infras.Transport.Kept.{Good}
use distributed_chord_infras.Network.{ok, err, Cluster, Result}
use distributed_chord_infras.Common.{
  Option, some, none, [], ◌∷◌, All, ◌≡◌, subst, Bool-cases, refl, inl, inr,
}
use distributed_chord_infras.Node.{ChordNode}
use distributed_chord_infras.Common.Dict.{Dict}
use distributed_chord_infras.Records.{Value, ResultRecord}
use distributed_chord_infras.Recovery.{result_records, starts_with}

module _ (Sound : ResultRecord → Type 0) where
  abbrev pub OnRecords : Value → Type 0
  OnRecords (Value.result_details r) = Sound r
  OnRecords _ = Unit

  pub read-Sound :
      (out : Result (Option ResultRecord) × Cluster) (r : ResultRecord)
      → Good (Stored OnRecords) (IfRecord OnRecords) out
      → found out.0 ≡ some r
      → Sound r
  read-Sound (ok none, d) r good e = let no : none ≡ some r = e in absurd (cc)
  read-Sound (ok (some q), d) r (inv, b) e = let same : q ≡ r = cc in subst (λ x. Sound x) same b
  read-Sound (err x, d) r good e = let no : none ≡ some r = e in absurd (cc)

  records-Sound : (s : Dict Value) → AllFit OnRecords s → All Sound (result_records s)
  records-Sound [] all = tt
  records-Sound ((k, Value.result_details r) ∷ s) (b, all) =
      elim (Bool-cases (starts_with "result:" k)) [
        | inl e ↦ rw e (b, records-Sound s all)
        | inr e ↦ rw e (records-Sound s all)
      ]
  records-Sound ((k, Value.task q) ∷ s) (b, all) = records-Sound s all
  records-Sound ((k, Value.worker_assignment q) ∷ s) (b, all) = records-Sound s all
  records-Sound ((k, Value.job q) ∷ s) (b, all) = records-Sound s all
  records-Sound ((k, Value.other q) ∷ s) (b, all) = records-Sound s all

  pub listed-Sound :
      (o : Option ChordNode)
      → ((n : ChordNode) → o ≡ some n → AllFit OnRecords n.data_store)
      → All Sound (result_records (data_of o))
  listed-Sound none all = tt
  listed-Sound (some n) all = records-Sound n.data_store (all n refl)
