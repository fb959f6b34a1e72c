-- ===== src/Codec/Utf8.antt =====
-- `std::str::from_utf8`: whether a byte string is well-formed UTF-8, by the table of RFC 3629.
use hocuspocu_rs.Base.{ℕ, ◌-◌, Bool, false, ◌&&◌, [], ◌∷◌, Bytes, leb, ◌==◌, if◌then◌else◌}

abbrev within : ℕ → ℕ → ℕ → Bool
within lo hi b = leb lo b && leb b hi

-- The bounds of the byte behind a lead byte of three or four bytes.
abbrev second_ok : ℕ → ℕ → Bool
second_ok lead b =
    if lead == 0xe0
    then within 0xa0 0xbf b
    else if lead == 0xed
    then within 0x80 0x9f b
    else if lead == 0xf0
    then within 0x90 0xbf b
    else if lead == 0xf4
    then within 0x80 0x8f b
    else within 0x80 0xbf b

-- `need` continuation bytes are still to come; `lead` is the lead byte if the next one is the first
-- of them, and 0 otherwise.
utf8_from : ℕ → ℕ → Bytes → Bool
utf8_from need lead [] = need == 0
utf8_from need lead (b ∷ bs) =
    let continues = second_ok lead b && utf8_from (need - 1) 0 bs in
    let one = utf8_from 0 0 bs in
    let two = utf8_from 1 b bs in
    let three = utf8_from 2 b bs in
    let four = utf8_from 3 b bs in
    if leb 1 need
    then continues
    else if leb b 0x7f
    then one
    else if within 0xc2 0xdf b
    then two
    else if within 0xe0 0xef b
    then three
    else if within 0xf0 0xf4 b
    then four
    else false

unfoldable pub is_utf8 : Bytes → Bool
unfolding utf8_from
is_utf8 bytes = utf8_from 0 0 bytes
