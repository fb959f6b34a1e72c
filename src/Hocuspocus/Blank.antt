-- ===== src/Hocuspocus/Blank.antt =====
-- `str::trim` and `is_empty` on UTF-8 bytes: whether a name is made of white space alone.
use hocuspocu_rs.Base.{
  ℕ, Bool, true, false, ◌||◌, ◌&&◌, [], ◌∷◌, Option, none, some, Str, leb, ◌==◌, if◌then◌else◌,
}

-- Between two bytes of a white space character, what has been read of it.
pub data Prefix : Type 0 where
  start c2 e1 e1_9a e2 e2_80 e2_81 e3 e3_80 : Prefix

abbrev between : ℕ → ℕ → ℕ → Bool
between low high b = leb low b && leb b high

abbrev if_start : Bool → Option Prefix
if_start ends = if ends then some start else none

-- U+0009 to U+000D, U+0020, U+0085, U+00A0, U+1680, U+2000 to U+200A, U+2028, U+2029, U+202F, U+205F
-- and U+3000.
abbrev after_byte : Prefix → ℕ → Option Prefix
after_byte start b =
    if between 9 13 b || b == 32
    then some start
    else if b == 0xc2
    then some c2
    else if b == 0xe1
    then some e1
    else if b == 0xe2
    then some e2
    else if b == 0xe3
    then some e3
    else none
after_byte c2 b = if_start (b == 0x85 || b == 0xa0)
after_byte e1 b = if b == 0x9a then some e1_9a else none
after_byte e1_9a b = if_start (b == 0x80)
after_byte e2 b = if b == 0x80 then some e2_80 else if b == 0x81 then some e2_81 else none
after_byte e2_80 b = if_start (between 0x80 0x8a b || between 0xa8 0xa9 b || b == 0xaf)
after_byte e2_81 b = if_start (b == 0x9f)
after_byte e3 b = if b == 0x80 then some e3_80 else none
after_byte e3_80 b = if_start (b == 0x80)

-- `none`: some character was not white space.
abbrev next_byte : Option Prefix → ℕ → Option Prefix
next_byte none b = none
next_byte (some p) b = after_byte p b

abbrev at_start : Option Prefix → Bool
at_start (some start) = true
at_start _ = false

blank_from : Option Prefix → Str → Bool
blank_from p [] = at_start p
blank_from p (b ∷ s) = blank_from (next_byte p b) s

unfoldable pub is_blank : Str → Bool
unfolding blank_from
is_blank s = blank_from (some start) s
