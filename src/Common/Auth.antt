-- ===== src/Common/Auth.antt =====
-- hocuspocu-rs-common/src/auth.rs: the authentication part of a frame, and that crate's own copy of
-- the reader, over `std::io::Cursor`, which reports no error kinds.
pub mod Agree
use hocuspocu_rs.Base.{
  ℕ, ◌+◌, ◌*◌, ◌%◌, ◌^◌, bit_and, bit_or, [], ◌∷◌, ◌++◌, Option, none, some, Bytes, Str, length,
  drop, ltb, leb, ◌==◌, if◌then◌else◌,
}
use hocuspocu_rs.Base.Outcome.{Outcome, ok, err, panic}
use hocuspocu_rs.Codec.{write_var_uint, write_var_string, wrap_u64, slice}
use hocuspocu_rs.Codec.Utf8.{is_utf8}
use hocuspocu_rs.Common.{token, permission_denied, authenticated, auth_code}

unfoldable pub write_authentication : Bytes → Str → Bytes
write_authentication buf auth = write_var_string (write_var_uint buf (auth_code token)) auth

unfoldable pub write_permission_denied : Bytes → Str → Bytes
write_permission_denied buf reason =
    write_var_string (write_var_uint buf (auth_code permission_denied)) reason

unfoldable pub write_authenticated : Bytes → Str → Bytes
write_authenticated buf scope =
    write_var_string (write_var_uint buf (auth_code authenticated)) scope

unfoldable pub write_token_sync_request : Bytes → Bytes
write_token_sync_request buf = write_var_uint buf (auth_code token)

-- `Cursor<&[u8]>`.
pub record Cursor : Type 0 where
  pub inner : Bytes
  pub position : ℕ

-- The loop over the bytes from the position on; a byte is read by `read_exact`.
pub cursor_groups : Bytes → ℕ → ℕ → ℕ → Option (ℕ × ℕ)
cursor_groups [] pos result shift = none
cursor_groups (byte ∷ bytes) pos result shift =
    let result' = bit_or result (wrap_u64 (bit_and byte 0x7f * 2 ^ shift)) in
    let more = cursor_groups bytes (pos + 1) result' (shift + 7) in
    if bit_and byte 0x80 == 0
    then some (result', pos + 1)
    else if leb 64 (shift + 7)
    then none
    else more

abbrev pub move_to : Cursor → Option (ℕ × ℕ) → Option (ℕ × Cursor)
move_to c none = none
move_to c (some (value, pos)) = some (value, record c { position = pos })

pub read_var_uint : Cursor → Option (ℕ × Cursor)
read_var_uint c = move_to c (cursor_groups (drop c.position c.inner) c.position 0 0)

-- `none` in the argument is the panic of `&data[pos..pos + len]`.
abbrev pub utf8_or_none : ℕ → Cursor → Option Bytes → Outcome (Unit {0}) (Str × Cursor)
utf8_or_none to c none = panic
utf8_or_none to c (some s) = if is_utf8 s then ok (s, record c { position = to }) else err tt

abbrev pub read_body : Option (ℕ × Cursor) → Outcome (Unit {0}) (Str × Cursor)
read_body none = err tt
read_body (some (len, c)) =
    let to = wrap_u64 (c.position + len) in
    if ltb (length c.inner) to then err tt else utf8_or_none to c (slice c.inner c.position to)

-- `err tt` is the `None` of the source.
pub read_var_string : Cursor → Outcome (Unit {0}) (Str × Cursor)
read_var_string c = read_body (read_var_uint c)
