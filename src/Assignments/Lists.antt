-- ===== src/Assignments/Lists.antt =====
-- The list of a worker's tasks under appends and removals of storage/worker_assignment.py.
use distributed_chord_infras.Common.{
  String, List, elem, if◌then◌else◌, ◌∷◌, Bool-cases, ◌++◌, ◌≡◌, [], false, str_eq, ◌&&◌, inl, not,
  ◌∙◌, arith, inr, eq_iff, refl, true, ap, elem-snoc,
}
use distributed_chord_infras.Assignments.{without}
use distributed_chord_infras.Common.Dict.{str_eq_refl}

-- No task occurs twice.
abbrev pub Distinct : List String → Type 0
Distinct [] = Unit
Distinct (t ∷ ts) = (elem t ts ≡ false) × Distinct ts

abbrev pub added : String → List String → List String
added t ts = if elem t ts then ts else ts ++ (t ∷ [])

elem-without :
    (s t : String) (ts : List String) → elem s (without t ts) ≡ elem s ts && not (str_eq s t)
unfolding without
elem-without s t [] = refl
elem-without s t (x ∷ ts) = ground (arith, eq_iff x t, eq_iff x s, eq_iff s t, elem-without s t ts)

snoc-Distinct :
    (t : String) (ts : List String) → elem t ts ≡ false → Distinct ts → Distinct (ts ++ (t ∷ []))
snoc-Distinct t [] new distinct = (refl, tt)
snoc-Distinct t (x ∷ ts) new (fresh, distinct) = elim (Bool-cases (str_eq x t)) [
  | inl same ↦ let found : true ≡ false = rw same at new in absurd (ground arith)
  | inr other ↦
      let rest : elem t ts ≡ false = rw other at new in
      (elem-snoc x t ts ∙ rw fresh (flip other), snoc-Distinct t ts rest distinct)
]
  where
    flip : str_eq x t ≡ false → str_eq t x ≡ false
    flip other = ground (arith, eq_iff x t, eq_iff t x)

pub without-Distinct : (t : String) (ts : List String) → Distinct ts → Distinct (without t ts)
unfolding without
without-Distinct t [] distinct = tt
without-Distinct t (x ∷ ts) (fresh, distinct) = elim (Bool-cases (str_eq x t)) [
  | inl same ↦ rw same (without-Distinct t ts distinct)
  | inr other ↦ rw other (elem-without x t ts ∙ rw fresh refl, without-Distinct t ts distinct)
]

pub elem-added : (t : String) (ts : List String) → elem t (added t ts) ≡ true
elem-added t ts = elim (Bool-cases (elem t ts)) [
  | inl there ↦ rw (there, added) there
  | inr new ↦ rw (new, added) (elem-snoc t t ts ∙ rw (new, str_eq_refl t) refl)
]

pub added-Distinct : (t : String) (ts : List String) → Distinct ts → Distinct (added t ts)
added-Distinct t ts distinct = elim (Bool-cases (elem t ts)) [
  | inl there ↦ rw (there, added) distinct
  | inr new ↦ rw (new, added) (snoc-Distinct t ts new distinct)
]

pub elem-without_self : (t : String) (ts : List String) → elem t (without t ts) ≡ false
elem-without_self t ts = elem-without t t ts ∙ ground (arith, str_eq_refl t)

-- A removal of a task that is not there.
pub without_absent : (t : String) (ts : List String) → elem t ts ≡ false → without t ts ≡ ts
unfolding without
without_absent t [] absent = refl
without_absent t (x ∷ ts) absent = elim (Bool-cases (str_eq x t)) [
  | inl same ↦ let found : true ≡ false = rw same at absent in absurd (ground arith)
  | inr other ↦
      let rest : elem t ts ≡ false = rw other at absent in
      rw other (ap (λ l. x ∷ l) (without_absent t ts rest))
]
