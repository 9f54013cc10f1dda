-- ===== src/Prelude/Utf8.antt =====
-- `bytes.decode("utf-8", "replace")`: each longest well-formed start of a bad sequence reads as
-- U+FFFD.
use Prim.Native.Nat.{ℕ, ◌+◌, ◌-◌, ◌*◌}
use mathlib.Core.Bool.{◌&&◌}
use mathlib.Core.List.{[], ◌∷◌}
use lscamoflash.Prelude.Tests.{ltb, leb, if◌then◌else◌}
use lscamoflash.Prelude.Strings.{Text, Bytes}

abbrev pub replacement : ℕ
replacement = 0xFFFD

-- What is being read: nothing, or a character with its bits so far, the number of continuation
-- bytes to come, and the range of the next one.
pub data Utf8State : Type 0 where
  idle : Utf8State
  inside : ℕ → ℕ → ℕ → ℕ → Utf8State

-- The first byte of a character
unfoldable pub utf8_start : ℕ → Utf8State
utf8_start b =
    if ltb b 0xC2
    then idle
    else if ltb b 0xE0
    then inside (b - 0xC0) 1 0x80 0xBF
    else if ltb b 0xE1
    then inside 0 2 0xA0 0xBF
    else if ltb b 0xED
    then inside (b - 0xE0) 2 0x80 0xBF
    else if ltb b 0xEE
    then inside 13 2 0x80 0x9F
    else if ltb b 0xF0
    then inside (b - 0xE0) 2 0x80 0xBF
    else if ltb b 0xF1
    then inside 0 3 0x90 0xBF
    else if ltb b 0xF4
    then inside (b - 0xF0) 3 0x80 0xBF
    else if ltb b 0xF5
    then inside 4 3 0x80 0x8F
    else idle

-- A byte where a character may start: what it yields at once, before the rest.
unfoldable pub begin_char : (Utf8State → Bytes → Text) → ℕ → Bytes → Text
unfolding utf8_start
begin_char go b bs = if ltb b 0x80 then b ∷ go idle bs else elim (utf8_start b) [
  | idle ↦ replacement ∷ go idle bs
  | inside acc more lo hi ↦ go (inside acc more lo hi) bs
]

unfoldable pub utf8_decode_from : Utf8State → Bytes → Text
unfolding begin_char
utf8_decode_from idle [] = []
utf8_decode_from (inside acc more lo hi) [] = replacement ∷ []
utf8_decode_from idle (b ∷ bs) = begin_char (λ s r. utf8_decode_from s bs) b bs
utf8_decode_from (inside acc more lo hi) (b ∷ bs) =
    let acc' = acc * 64 + (b - 0x80) in
    if leb lo b && leb b hi
    then if leb more 1
      then acc' ∷ utf8_decode_from idle bs
      else utf8_decode_from (inside acc' (more - 1) 0x80 0xBF) bs
    else replacement ∷ begin_char (λ s r. utf8_decode_from s bs) b bs

unfoldable pub utf8_decode : Bytes → Text
unfolding utf8_decode_from
utf8_decode = utf8_decode_from idle
