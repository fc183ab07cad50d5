-- ===== src/Records/Dynamic.antt =====
-- JSON values, as far as the code tells them apart. The content of an array or an object is its
-- text between the brackets: the code only copies it and asks whether it is empty.
use distributed_chord_infras.Common.{ℕ, String, Bool, true, false, not, ◌==◌}
use distributed_chord_infras.Text.{is_empty}

-- `negsuc n` is -(n + 1).
pub data ℤ : Type 0 where
  pos : ℕ → ℤ
  negsuc : ℕ → ℤ

pub data Json : Type 0 where
  null : Json
  boolean : Bool → Json
  integer : ℤ → Json
  text : String → Json
  array : String → Json
  object : String → Json

-- Python's truth of a value.
abbrev pub truthy : Json → Bool
truthy null = false
truthy (boolean b) = b
truthy (integer (pos n)) = not (n == 0)
truthy (integer (negsuc n)) = true
truthy (text s) = not (is_empty s)
truthy (array s) = not (is_empty s)
truthy (object s) = not (is_empty s)

-- `isinstance(v, int)`, which holds of the Booleans too.
abbrev pub is_int : Json → Bool
is_int (boolean b) = true
is_int (integer n) = true
is_int _ = false

-- `isinstance(v, dict)`
abbrev pub is_object : Json → Bool
is_object (object s) = true
is_object _ = false
