-- ===== src/Format/Paths/Utf8.antt =====
-- `std::str::from_utf8`: the well-formed byte sequences of UTF-8.
use pithos.Prelude.{
  ℕ, zero, suc, ◌&&◌, Bool, false, Option, none, some, List, [], ◌∷◌, ltb, leb, ◌==◌, if◌then◌else◌,
}

-- What the next byte has to be: the start of a character, or one of `left` continuation bytes of
-- which the first lies in `low..=high`.
record Expect : Type 0 where
  left : ℕ
  low : ℕ
  high : ℕ

abbrev expect : ℕ → ℕ → ℕ → Option Expect
expect left low high = some (record { left = left; low = low; high = high })

lead : ℕ → Option Expect
lead b =
    if ltb b 0x80
    then expect 0 0x80 0xbf
    else if leb 0xc2 b && leb b 0xdf
    then expect 1 0x80 0xbf
    else if b == 0xe0
    then expect 2 0xa0 0xbf
    else if b == 0xed
    then expect 2 0x80 0x9f
    else if leb 0xe1 b && leb b 0xef
    then expect 2 0x80 0xbf
    else if b == 0xf0
    then expect 3 0x90 0xbf
    else if leb 0xf1 b && leb b 0xf3
    then expect 3 0x80 0xbf
    else if b == 0xf4
    then expect 3 0x80 0x8f
    else none

continuation : ℕ → ℕ → ℕ → ℕ → Option Expect
continuation zero low high b = lead b
continuation (suc left) low high b = if leb low b && leb b high then expect left 0x80 0xbf else none

run : Option Expect → List ℕ → Bool
run none bytes = false
run (some e) [] = e.left == 0
run (some e) (b ∷ bytes) = run (continuation e.left e.low e.high b) bytes

unfoldable pub is_utf8 : List ℕ → Bool
unfolding lead continuation run
is_utf8 bytes = run (expect 0 0x80 0xbf) bytes
