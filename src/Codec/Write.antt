-- ===== src/Codec/Write.antt =====
-- What `write_var_uint` writes, in plain arithmetic.
use hocuspocu_rs.Base.{
  ℕ, zero, suc, ◌+◌, ◌/◌, ◌%◌, ◌^◌, ◌≤◌, ◌<◌, ◌≡◌, [], ◌∷◌, arith, length, All, bit_and,
}
use hocuspocu_rs.Base.Bits.{and_seven_bits, or_top_bit}
use native.Mathlib.Decide.{dec_lt}
use native.Mathlib.Nat.{pow-suc}
use hocuspocu_rs.Codec.{var_uint_byte, var_uint_bytes}

abbrev pub IsByte : ℕ → Type 0
IsByte b = b < 256

pub var_uint_byte_last : (v : ℕ) → v < 128 → var_uint_byte v ≡ v
unfolding var_uint_byte
var_uint_byte_last v h = ground (arith, and_seven_bits v)

pub var_uint_byte_more : (v : ℕ) → 128 ≤ v → var_uint_byte v ≡ v % 128 + 128
unfolding var_uint_byte
var_uint_byte_more v h = ground (arith, and_seven_bits v, or_top_bit (bit_and v 0x7f))

pub var_uint_bytes_last : (k v : ℕ) → v < 128 → var_uint_bytes (suc k) v ≡ v ∷ []
unfolding var_uint_bytes
var_uint_bytes_last k v h = ground (arith, var_uint_byte_last v h)

pub var_uint_bytes_more :
    (k v : ℕ) → 128 ≤ v → var_uint_bytes (suc k) v ≡ (v % 128 + 128) ∷ var_uint_bytes k (v / 128)
unfolding var_uint_bytes
var_uint_bytes_more k v h = ground (arith, var_uint_byte_more v h)

-- Every round pushes a byte, and there are at most `k` of them.
pub var_uint_bytes_shape :
    (k v : ℕ)
    → v < 128 ^ suc k
    → All IsByte (var_uint_bytes (suc k) v)
      × (1 ≤ length (var_uint_bytes (suc k) v))
      × (length (var_uint_bytes (suc k) v) ≤ suc k)
var_uint_bytes_shape zero v h = rw (var_uint_bytes_last zero v (omega arith)) (omega arith)
var_uint_bytes_shape (suc k) v h = elim (dec_lt v 128) [
  | yes small ↦ rw (var_uint_bytes_last (suc k) v small) (omega arith)
  | no large ↦ rw (var_uint_bytes_more (suc k) v (omega arith)) (
      let (bytes, low, high) =
        var_uint_bytes_shape k (v / 128) (omega (arith, pow-suc 128 (suc k))) in
      ((omega arith, bytes), omega arith, omega arith))
]
