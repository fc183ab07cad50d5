-- ===== src/Text/Strip.antt =====
-- Stripping a text twice is stripping it once.
use Prim.Native.Char.{Char}
use distributed_chord_infras.Common.{String, ◌≡◌, refl, false, inl, inr, Bool-cases}
use distributed_chord_infras.Text.{is_space, lstrip, push, rstrip, strip}

-- A text that no leading space begins.
abbrev NoLead : String → Type 0
NoLead String.[] = Unit
NoLead (String.◌∷◌ c s) = is_space c ≡ false

lstrip-NoLead : (s : String) → NoLead (lstrip s)
unfolding lstrip
lstrip-NoLead String.[] = tt
lstrip-NoLead (String.◌∷◌ c s) = elim (Bool-cases (is_space c)) [
  | inl space ↦ rw space (lstrip-NoLead s)
  | inr other ↦ rw other other
]

lstrip_of_NoLead : (s : String) → NoLead s → lstrip s ≡ s
unfolding lstrip
lstrip_of_NoLead String.[] h = refl
lstrip_of_NoLead (String.◌∷◌ c s) h = rw h

push-NoLead : (c : Char) (s : String) → is_space c ≡ false → NoLead (push c s)
unfolding push
push-NoLead c String.[] h = rw h h
push-NoLead c (String.◌∷◌ d s) h = h

rstrip-NoLead : (s : String) → NoLead s → NoLead (rstrip s)
unfolding rstrip
rstrip-NoLead String.[] h = tt
rstrip-NoLead (String.◌∷◌ c s) h = push-NoLead c (rstrip s) h

rstrip-push : (c : Char) (s : String) → rstrip s ≡ s → rstrip (push c s) ≡ push c s
unfolding rstrip push
rstrip-push c String.[] h = elim (Bool-cases (is_space c)) [
  | inl space ↦ rw space
  | inr other ↦ rw other (rw other)
]
rstrip-push c (String.◌∷◌ d s) h = rw h

rstrip-rstrip : (s : String) → rstrip (rstrip s) ≡ rstrip s
unfolding rstrip
rstrip-rstrip String.[] = refl
rstrip-rstrip (String.◌∷◌ c s) = rstrip-push c (rstrip s) (rstrip-rstrip s)

pub strip-strip : (s : String) → strip (strip s) ≡ strip s
unfolding strip
strip-strip s =
    rw (lstrip_of_NoLead (rstrip (lstrip s)) (rstrip-NoLead (lstrip s) (lstrip-NoLead s)))
      (rstrip-rstrip (lstrip s))
