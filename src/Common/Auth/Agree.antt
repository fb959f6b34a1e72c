-- ===== src/Common/Auth/Agree.antt =====
-- The reader of auth.rs and the decoder of encoding.rs agree.
use hocuspocu_rs.Base.{
  ℕ, ◌+◌, ◌*◌, ◌^◌, ◌≡◌, ◌≢◌, refl, bit_and, [], ◌∷◌, Option, none, some, Bytes, drop, arith,
  bit_or,
}
use hocuspocu_rs.Base.Outcome.{Outcome, ok, err, panic}
use hocuspocu_rs.Codec.{
  Decoder, IoError, read_groups, wrap_u64, slice, take_bytes, check_utf8, then_read, add_group,
  ◌>>=◌,
}
use hocuspocu_rs.Codec
use hocuspocu_rs.Common.Auth.{Cursor, cursor_groups, move_to, read_body}
use hocuspocu_rs.Common.Auth

abbrev cursor_of : Decoder → Cursor
cursor_of d = record { inner = d.bytes; position = d.pos }

-- What the decoder returned, its error forgotten.
abbrev pub forget {ℓ} : {A : Type ℓ} → Outcome IoError A × Decoder → Outcome (Unit {0}) (A × Cursor)
forget (ok a, d) = ok (a, cursor_of d)
forget (err e, d) = err tt
forget (panic, d) = panic

abbrev forget_number : Outcome IoError ℕ × ℕ → Option (ℕ × ℕ)
forget_number (ok v, pos) = some (v, pos)
forget_number (err e, pos) = none
forget_number (panic, pos) = none

cursor_groups_lem :
    (xs : Bytes) (pos r s : ℕ) → cursor_groups xs pos r s ≡ forget_number (read_groups xs pos r s)
unfolding cursor_groups read_groups add_group
cursor_groups_lem [] pos r s = refl
cursor_groups_lem (b ∷ xs) pos r s =
    ground
      (arith, cursor_groups_lem xs (pos + 1) (bit_or r (wrap_u64 (bit_and b 0x7f * 2 ^ s))) (s + 7))

read_groups-ne-panic : (xs : Bytes) (pos r s : ℕ) → (read_groups xs pos r s).0 ≢ panic
unfolding read_groups
read_groups-ne-panic [] pos r s e = cc
read_groups-ne-panic (b ∷ xs) pos r s e =
    ground (arith, read_groups-ne-panic xs (pos + 1) (add_group r b s) (s + 7))

forget_body :
    (d : Decoder) (r : Outcome IoError ℕ × ℕ)
    → r.0 ≢ panic
    → forget (
        then_read
          (r.0, record d { pos = r.1 })
          (λ len. take_bytes Codec.string_truncated len >>= check_utf8 len))
      ≡ read_body (move_to (cursor_of d) (forget_number r))
unfolding take_bytes slice
forget_body d (ok len, pos) h = ground arith
forget_body d (err e, pos) h = refl
forget_body d (panic, pos) h = absurd (h refl)

-- On any bytes at any position the string reader of auth.rs returns the string that `Decoder` returns,
-- with the same position behind it, `None` where `Decoder` fails, and panics where it panics.
pub read_var_string-agree :
    (d : Decoder)
    → forget (Codec.read_var_string d)
      ≡ Auth.read_var_string (record { inner = d.bytes; position = d.pos })
unfolding Codec.read_var_string Auth.read_var_string Auth.read_var_uint Codec.read_var_uint
read_var_string-agree d = rw (cursor_groups_lem (drop d.pos d.bytes) d.pos 0 0) (
    forget_body d (read_groups (drop d.pos d.bytes) d.pos 0 0)
      (read_groups-ne-panic (drop d.pos d.bytes) d.pos 0 0))
