-- ===== src/Network/Ends.antt =====
-- How a computation may end: a relation between the processes before and after, what holds of a
-- value it returns, and which exceptions it may raise.
use distributed_chord_infras.Network.{Cluster, Error, Result, Action, ok, and_then, err, handle}
use distributed_chord_infras.Transport.{retry}
use distributed_chord_infras.Common.{ℕ, suc, zero}

-- The exceptions that `except Exception` sees.
abbrev pub IsCaught : Error → Type 0
IsCaught Error.out_of_fuel = ⊥
IsCaught _ = Unit

module _ (R : Cluster → Cluster → Type 0)
    (transitive : (c d e : Cluster) → R c d → R d e → R c e) where
  abbrev pub Post :
      {A : Type 0}
      → (Error → Type 0)
      → (A → Cluster → Type 0)
      → Cluster
      → Result A × Cluster
      → Type 0
  Post E Q c (ok a, c') = R c c' × Q a c'
  Post E Q c (err e, c') = R c c' × E e

  pub Post-later :
      {A : Type 0} (E : Error → Type 0) (Q : A → Cluster → Type 0) (c d : Cluster) (r : Result A)
      (c' : Cluster)
      → R c d
      → Post E Q d (r, c')
      → Post E Q c (r, c')
  Post-later E Q c d (ok a) c' first (rest, q) = (transitive c d c' first rest, q)
  Post-later E Q c d (err e) c' first (rest, q) = (transitive c d c' first rest, q)

  pub Post-handle :
      {A : Type 0} (E : Error → Type 0) (Q : A → Cluster → Type 0) (c : Cluster) (r : Result A)
      (c' : Cluster) (h : Error → Action A)
      → Post IsCaught Q c (r, c')
      → ((e : Error) → Post E Q c' (h e c'))
      → Post E Q c (handle r h c')
  Post-handle E Q c (ok a) c' h p after = p
  Post-handle E Q c (err Error.unreachable) c' h (p, _) after =
      Post-later E Q c c' (h Error.unreachable c').0 (h Error.unreachable c').1 p
        (after Error.unreachable)
  Post-handle E Q c (err Error.out_of_fuel) c' h (p, stuck) after = absurd stuck
  Post-handle E Q c (err Error.validation) c' h (p, _) after =
      Post-later E Q c c' (h Error.validation c').0 (h Error.validation c').1 p
        (after Error.validation)
  Post-handle E Q c (err Error.type_error) c' h (p, _) after =
      Post-later E Q c c' (h Error.type_error c').0 (h Error.type_error c').1 p
        (after Error.type_error)
  Post-handle E Q c (err Error.not_found) c' h (p, _) after =
      Post-later E Q c c' (h Error.not_found c').0 (h Error.not_found c').1 p
        (after Error.not_found)
  Post-handle E Q c (err Error.conflict) c' h (p, _) after =
      Post-later E Q c c' (h Error.conflict c').0 (h Error.conflict c').1 p (after Error.conflict)
  Post-handle E Q c (err Error.no_body) c' h (p, _) after =
      Post-later E Q c c' (h Error.no_body c').0 (h Error.no_body c').1 p (after Error.no_body)

  pub Post-and_then :
      {A B : Type 0} (E : Error → Type 0) (Q : A → Cluster → Type 0) (S : B → Cluster → Type 0)
      (c : Cluster) (r : Result A) (c' : Cluster) (f : A → Action B)
      → Post E Q c (r, c')
      → ((a : A) → Q a c' → Post E S c' (f a c'))
      → Post E S c (and_then r f c')
  Post-and_then E Q S c (ok a) c' f (p, q) next =
      Post-later E S c c' (f a c').0 (f a c').1 p (next a q)
  Post-and_then E Q S c (err e) c' f (p, e') next = (p, e')

  pub retry-Post :
      {A : Type 0} (Q : A → Cluster → Type 0) (n : ℕ) (body : Action A)
      → ((c : Cluster) → Post IsCaught Q c (body c))
      → (c : Cluster) → Post IsCaught Q c (retry n body c)
  unfolding retry
  retry-Post Q zero body ends c = ends c
  retry-Post Q (suc n) body ends c =
      Post-handle IsCaught Q c (body c).0 (body c).1 (λ _. retry n body) (ends c)
        (λ _. retry-Post Q n body ends (body c).1)
