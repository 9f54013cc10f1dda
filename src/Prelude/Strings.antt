-- ===== src/Prelude/Strings.antt =====
-- Text as the list of its code points, byte strings as lists of numbers below 256.
use Prim.Native.Nat.{ℕ, ◌+◌, ◌/◌, ◌%◌}
use Prim.Native.Char.{code}
use Prim.Native.String.{String}
use mathlib.Core.Path.{◌≡◌}
use mathlib.Core.Logic.{◌↔◌}
use mathlib.Core.Bool.{Bool, true, false, ◌&&◌}
use mathlib.Core.List.{List, [], ◌∷◌, ◌++◌, map}
use native.Mathlib.Omega.{arith}
use lscamoflash.Prelude.Tests.{ltb, leb, ◌==◌, if◌then◌else◌}

-- A Python `str`, as its code points.
abbrev pub Text : Type 0
Text = List ℕ

-- A Python `bytes`.
abbrev pub Bytes : Type 0
Bytes = List ℕ

abbrev pub codes : String → Text
codes String.[] = []
codes (String.◌∷◌ c s) = code c ∷ codes s

unfoldable pub text_eq : List ℕ → List ℕ → Bool
text_eq [] [] = true
text_eq [] (y ∷ ys) = false
text_eq (x ∷ xs) [] = false
text_eq (x ∷ xs) (y ∷ ys) = (x == y) && text_eq xs ys

pub text_eq_iff : (s t : List ℕ) → (text_eq s t ≡ true) ↔ (s ≡ t)
unfolding text_eq
text_eq_iff [] [] = ground arith
text_eq_iff [] (y ∷ ys) = ground arith
text_eq_iff (x ∷ xs) [] = ground arith
text_eq_iff (x ∷ xs) (y ∷ ys) = ground (arith, text_eq_iff xs ys)

-- `str.lower` on the letters A to Z; other code points stand for themselves.
unfoldable pub lower : Text → Text
lower = map (λ c. if leb b'A' c && leb c b'Z' then c + 32 else c)

-- `".".join(labels)`
unfoldable pub join_dots : List Text → Text
join_dots [] = []
join_dots (l ∷ []) = l
join_dots (l ∷ l' ∷ ls) = l ++ (b'.' ∷ join_dots (l' ∷ ls))

-- Puts a code point in front of the first label.
unfoldable pub cons_label : ℕ → List Text → List Text
cons_label c [] = (c ∷ []) ∷ []
cons_label c (l ∷ ls) = (c ∷ l) ∷ ls

-- `text.split(".")`
unfoldable pub split_dots : Text → List Text
unfolding cons_label
split_dots [] = [] ∷ []
split_dots (c ∷ cs) = if c == b'.' then [] ∷ split_dots cs else cons_label c (split_dots cs)

-- The UTF-8 bytes of one code point.
unfoldable pub utf8_char : ℕ → Bytes
utf8_char c =
    if ltb c 0x80
    then c ∷ []
    else if ltb c 0x800
    then (0xC0 + c / 64) ∷ (0x80 + c % 64) ∷ []
    else if ltb c 0x10000
    then (0xE0 + c / 4096) ∷ (0x80 + c / 64 % 64) ∷ (0x80 + c % 64) ∷ []
    else (0xF0 + c / 262144) ∷ (0x80 + c / 4096 % 64) ∷ (0x80 + c / 64 % 64) ∷ (0x80 + c % 64) ∷ []

-- `text.encode("utf-8")`, of a text with no surrogates
unfoldable pub utf8_encode : Text → Bytes
unfolding utf8_char
utf8_encode [] = []
utf8_encode (c ∷ cs) = utf8_char c ++ utf8_encode cs
