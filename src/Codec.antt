-- ===== src/Codec.antt =====
-- hocuspocu-rs/src/encoding.rs, and its copy in hocuspocu-rs-common/src/auth.rs: the lib0 numbers,
-- strings and byte arrays that every frame is made of. A byte is a number below 256.
use hocuspocu_rs.Base.{
  ℕ, zero, suc, ◌+◌, ◌-◌, ◌*◌, ◌/◌, ◌%◌, ◌^◌, ◌<◌, bit_and, bit_or, Bool, [], ◌∷◌, ◌++◌, Option,
  none, some, Bytes, Str, length, take, drop, ltb, leb, ◌==◌, if◌then◌else◌,
}
use hocuspocu_rs.Base.Outcome.{Outcome, ok, err, panic}
use Utf8.{is_utf8}
pub mod Utf8
pub mod Write
pub mod Read
pub mod Position
pub mod Panics
pub mod RoundTrip

-- The `u64` values, and `usize` on a 64-bit target.
abbrev pub IsU64 : ℕ → Type 0
IsU64 n = n < 2 ^ 64

abbrev pub wrap_u64 : ℕ → ℕ
wrap_u64 n = n % 2 ^ 64

-- One round: `(value & 0x7F) as u8`, with the top bit set if more follows.
unfoldable pub var_uint_byte : ℕ → ℕ
var_uint_byte value =
    let byte = bit_and value 0x7f in if ltb 0 (value / 2 ^ 7) then bit_or byte 0x80 else byte

-- The bytes that the loop pushes; the first number bounds its rounds.
unfoldable pub var_uint_bytes : ℕ → ℕ → Bytes
var_uint_bytes zero value = []
var_uint_bytes (suc rounds) value =
    let more = var_uint_bytes rounds (value / 2 ^ 7) in
    var_uint_byte value ∷ (if value / 2 ^ 7 == 0 then [] else more)

-- A `u64` takes ten rounds at most.
unfoldable pub write_var_uint : Bytes → ℕ → Bytes
write_var_uint buf value = buf ++ var_uint_bytes 10 value

unfoldable pub write_var_string : Bytes → Str → Bytes
write_var_string buf s = write_var_uint buf (length s) ++ s

unfoldable pub write_var_uint8_array : Bytes → Bytes → Bytes
write_var_uint8_array buf bytes = write_var_uint buf (length bytes) ++ bytes

pub record Decoder : Type 0 where
  pub bytes : Bytes
  pub pos : ℕ

-- The `io::Error`s of the decoder, by their messages.
pub data IoError : Type 0 where
  unexpected_end varuint_too_large string_truncated array_truncated not_enough_data : IoError
  invalid_utf8 : IoError

-- A method of `&mut Decoder`: the result, and the decoder as the method leaves it.
abbrev pub Reader {ℓ} : Type ℓ → Type ℓ
Reader A = Decoder → Outcome IoError A × Decoder

abbrev pub then_read {ℓ κ} :
    {A : Type ℓ} {B : Type κ}
    → Outcome IoError A × Decoder
    → (A → Reader B)
    → Outcome IoError B × Decoder
then_read (ok a, d) f = f a d
then_read (err e, d) f = (err e, d)
then_read (panic, d) f = (panic, d)

infixl 5 ◌>>=◌
abbrev pub ◌>>=◌ {ℓ κ} : {A : Type ℓ} {B : Type κ} → Reader A → (A → Reader B) → Reader B
◌>>=◌ m f d = then_read (m d) f

unfoldable pub new : Bytes → Decoder
new bytes = record { bytes = bytes; pos = 0 }

unfoldable pub has_content : Decoder → Bool
has_content d = ltb d.pos (length d.bytes)

-- `&data[from..to]`; `none` is the panic on a range that does not fit.
unfoldable pub slice : Bytes → ℕ → ℕ → Option Bytes
slice bytes from to =
    if ltb to from
    then none
    else if ltb (length bytes) to
    then none
    else some (take (to - from) (drop from bytes))

pub remaining : Decoder → Outcome IoError Bytes
remaining d = if ltb (length d.bytes) d.pos then panic else ok (drop d.pos d.bytes)

-- `result |= ((byte & 0x7F) as u64) << shift`, where the shift drops what passes bit 63.
unfoldable pub add_group : ℕ → ℕ → ℕ → ℕ
add_group result byte shift = bit_or result (wrap_u64 (bit_and byte 0x7f * 2 ^ shift))

-- The loop of `read_var_uint` over the bytes from `pos` on; it also says where it stopped.
unfoldable pub read_groups : Bytes → ℕ → ℕ → ℕ → Outcome IoError ℕ × ℕ
read_groups [] pos result shift = (err unexpected_end, pos)
read_groups (byte ∷ bytes) pos result shift =
    let more = read_groups bytes (pos + 1) (add_group result byte shift) (shift + 7) in
    if bit_and byte 0x80 == 0
    then (ok (add_group result byte shift), pos + 1)
    else if leb 64 (shift + 7)
    then (err varuint_too_large, pos + 1)
    else more

unfoldable pub read_var_uint : Reader ℕ
read_var_uint d =
    let (r, pos) = read_groups (drop d.pos d.bytes) d.pos 0 0 in (r, record d { pos = pos })

abbrev or_panic {ℓ} : {A : Type ℓ} → Option A → Reader A
or_panic none d = (panic, d)
or_panic (some a) d = (ok a, d)

-- `pos + len` wraps around in a release build; a build with overflow checks panics there instead.
-- The range is sliced before `pos` moves.
unfoldable pub take_bytes : IoError → ℕ → Reader Bytes
unfolding slice
take_bytes truncated len d =
    let to = wrap_u64 (d.pos + len) in
    if ltb (length d.bytes) to then (err truncated, d) else or_panic (slice d.bytes d.pos to) d

abbrev pub skip : ℕ → Decoder → Decoder
skip len d = record d { pos = wrap_u64 (d.pos + len) }

abbrev pub check_utf8 : ℕ → Bytes → Reader Str
check_utf8 len s d = if is_utf8 s then (ok s, skip len d) else (err invalid_utf8, d)

unfoldable pub read_var_string : Reader Str
read_var_string = do len ← read_var_uint; s ← take_bytes string_truncated len; check_utf8 len s

abbrev pub advance : ℕ → Bytes → Reader Bytes
advance len bytes d = (ok bytes, skip len d)

unfoldable pub read_var_uint8_array : Reader Bytes
read_var_uint8_array = do
  len ← read_var_uint
  bytes ← take_bytes array_truncated len
  advance len bytes

unfoldable pub peek_var_uint8_array : Reader Bytes
peek_var_uint8_array d = ((read_var_uint8_array d).0, d)

pub set_position : ℕ → Decoder → Decoder
set_position pos d = record d { pos = pos }

-- `read_exact` into a buffer of `len` bytes: the bytes copied into it.
pub read_exact : ℕ → Reader Bytes
read_exact len = do bytes ← take_bytes not_enough_data len; advance len bytes
