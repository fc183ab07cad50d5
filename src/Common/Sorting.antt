-- ===== src/Common/Sorting.antt =====
-- Python's `sorted`: the stable sort by a test which of two elements comes first.
use mathlib.Core.Path.{◌≡◌}
use mathlib.Core.Bool.{Bool, true, false}
use mathlib.Core.List.{List, [], ◌∷◌, Perm}
use mathlib.Core.List.Perm
use mathlib.Core.Logic.{inl, inr}
use Prim.Native.Nat.{ℕ, ◌+◌}
use native.Mathlib.Omega.{arith}
use distributed_chord_infras.Common.Tests.{if◌then◌else◌, Bool-cases}
use distributed_chord_infras.Common.Lists.{All}
use distributed_chord_infras.Common.{refl}

module _ {ℓ} {A : Type ℓ} where
  -- How many elements pass a test.
  abbrev pub count : (A → Bool) → List A → ℕ
  count p [] = 0
  count p (x ∷ xs) = (if p x then 1 else 0) + count p xs

module _ {ℓ} {A : Type ℓ} (before : A → A → Bool) where
  -- Elements that come before `x` stay in front of it, equal ones follow it.
  unfoldable pub sorted_insert : A → List A → List A
  sorted_insert x [] = x ∷ []
  sorted_insert x (y ∷ ys) =
      let rest = sorted_insert x ys in if before y x then y ∷ rest else x ∷ y ∷ ys

  unfoldable pub sorted : List A → List A
  unfolding sorted_insert
  sorted [] = []
  sorted (x ∷ xs) = sorted_insert x (sorted xs)

  -- No element comes before one that stands in front of it.
  abbrev pub IsSorted : List A → Type 0
  IsSorted [] = Unit
  IsSorted (x ∷ xs) = All (λ y. before y x ≡ false) xs × IsSorted xs

  sorted_insert-perm : (x : A) (l : List A) → Perm (sorted_insert x l) (x ∷ l)
  unfolding sorted_insert
  sorted_insert-perm x [] = Perm.rfl
  sorted_insert-perm x (y ∷ ys) = elim (Bool-cases (before y x)) [
    | inl first ↦ rw first (Perm.trans (Perm.cons y (sorted_insert-perm x ys)) (Perm.swap x y ys))
    | inr last ↦ rw last Perm.rfl
  ]

  pub sorted-perm : (l : List A) → Perm (sorted l) l
  unfolding sorted
  sorted-perm [] = Perm.rfl
  sorted-perm (x ∷ xs) =
      Perm.trans (sorted_insert-perm x (sorted xs)) (Perm.cons x (sorted-perm xs))

  count-sorted_insert :
      (p : A → Bool) (x : A) (l : List A)
      → count p (sorted_insert x l) ≡ (if p x then 1 else 0) + count p l
  unfolding sorted_insert
  count-sorted_insert p x [] = refl
  count-sorted_insert p x (y ∷ l) = elim (Bool-cases (before y x)) [
    | inl first ↦ rw first (omega (arith, count-sorted_insert p x l))
    | inr last ↦ rw last refl
  ]

  pub count-sorted : (p : A → Bool) (l : List A) → count p (sorted l) ≡ count p l
  unfolding sorted
  count-sorted p [] = refl
  count-sorted p (x ∷ xs) = omega (arith, count-sorted_insert p x (sorted xs), count-sorted p xs)

  sorted_insert-All :
      (P : A → Type 0) (x : A) (l : List A) → P x → All P l → All P (sorted_insert x l)
  unfolding sorted_insert
  sorted_insert-All P x [] held all = (held, tt)
  sorted_insert-All P x (y ∷ l) held (first, all) = elim (Bool-cases (before y x)) [
    | inl e ↦ rw e (first, sorted_insert-All P x l held all)
    | inr e ↦ rw e (held, (first, all))
  ]

  pub sorted-All : (P : A → Type 0) (l : List A) → All P l → All P (sorted l)
  unfolding sorted
  sorted-All P [] all = tt
  sorted-All P (x ∷ xs) (held, all) = sorted_insert-All P x (sorted xs) held (sorted-All P xs all)

  module _ (asymmetric : (x y : A) → before x y ≡ true → before y x ≡ false)
      (transitive : (x y z : A)
        → before x y ≡ false
        → before y z ≡ false
        → before x z ≡ false) where
    insert-All :
        (x y : A) (l : List A)
        → before x y ≡ false
        → All (λ z. before z y ≡ false) l
        → All (λ z. before z y ≡ false) (sorted_insert x l)
    unfolding sorted_insert
    insert-All x y [] later all = (later, tt)
    insert-All x y (z ∷ l) later (first, all) = elim (Bool-cases (before z x)) [
      | inl e ↦ rw e (first, insert-All x y l later all)
      | inr e ↦ rw e (later, (first, all))
    ]

    all_after :
        (x y : A) (l : List A)
        → before y x ≡ false
        → All (λ z. before z y ≡ false) l
        → All (λ z. before z x ≡ false) l
    all_after x y [] e all = tt
    all_after x y (z ∷ l) e (first, all) = (transitive z y x first e, all_after x y l e all)

    sorted_insert-IsSorted : (x : A) (l : List A) → IsSorted l → IsSorted (sorted_insert x l)
    unfolding sorted_insert
    sorted_insert-IsSorted x [] ordered = (tt, tt)
    sorted_insert-IsSorted x (y ∷ l) (all, ordered) = elim (Bool-cases (before y x)) [
      | inl first ↦
          rw first (insert-All x y l (asymmetric y x first) all, sorted_insert-IsSorted x l ordered)
      | inr last ↦ rw last ((last, all_after x y l last all), (all, ordered))
    ]

    pub sorted-IsSorted : (l : List A) → IsSorted (sorted l)
    unfolding sorted
    sorted-IsSorted [] = tt
    sorted-IsSorted (x ∷ xs) = sorted_insert-IsSorted x (sorted xs) (sorted-IsSorted xs)
