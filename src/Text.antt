-- ===== src/Text.antt =====
-- `str.strip`, the truth of a text, and `str` of a number, as the modules of the program use them.
pub mod Strip
use Prim.Native.Char.{Char, code}
use Prim.Native.String.{◌++◌ as text_append}
use distributed_chord_infras.Common.{
  ℕ, String, Bool, true, false, not, ◌||◌, ◌&&◌, List, [], ◌∷◌, leb, ◌==◌, if◌then◌else◌, suc, ◌/◌,
  ltb, ◌%◌, zero,
}

-- The code points that `str.isspace` accepts.
unfoldable pub is_space : Char → Bool
is_space c =
    let n = code c in
    leb 9 n && leb n 13
    || leb 28 n && leb n 32
    || n == 133
    || n == 160
    || n == 5760
    || leb 8192 n && leb n 8202
    || n == 8232
    || n == 8233
    || n == 8239
    || n == 8287
    || n == 12288

abbrev pub is_empty : String → Bool
is_empty String.[] = true
is_empty (String.◌∷◌ c s) = false

-- `s.lstrip()`
pub lstrip : String → String
lstrip String.[] = String.[]
lstrip (String.◌∷◌ c s) = let rest = lstrip s in if is_space c then rest else String.◌∷◌ c s

-- `c` before the stripped rest of the text: dropped where it ends the text and is a space.
pub push : Char → String → String
push c String.[] = if is_space c then String.[] else String.◌∷◌ c String.[]
push c (String.◌∷◌ d s) = String.◌∷◌ c (String.◌∷◌ d s)

-- `s.rstrip()`
pub rstrip : String → String
rstrip String.[] = String.[]
rstrip (String.◌∷◌ c s) = push c (rstrip s)

-- The decimal digits of a number below ten, and of a number by as many divisions as the first
-- argument allows; the number itself allows enough.
abbrev pub digit : ℕ → String
digit n =
    if n == 0
    then "0"
    else if n == 1
    then "1"
    else if n == 2
    then "2"
    else if n == 3
    then "3"
    else if n == 4
    then "4"
    else if n == 5
    then "5"
    else if n == 6
    then "6"
    else if n == 7
    then "7"
    else if n == 8
    then "8"
    else "9"

pub digits : ℕ → ℕ → String
digits zero n = digit n
digits (suc fuel) n =
    let rest = digits fuel (n / 10) in
    if ltb n 10 then digit n else text_append rest (digit (n % 10))

-- `str(n)`
unfoldable pub decimal : ℕ → String
unfolding digits
decimal n = digits n n

unfoldable pub strip : String → String
unfolding lstrip rstrip push is_space
strip s = rstrip (lstrip s)
