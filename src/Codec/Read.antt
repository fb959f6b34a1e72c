-- ===== src/Codec/Read.antt =====
-- `read_var_uint` and the readers built on it, on any bytes and on what the writers wrote.
use hocuspocu_rs.Base.{
  ℕ, zero, suc, ◌+◌, ◌*◌, ◌/◌, ◌%◌, ◌^◌, ◌<◌, ◌≡◌, ap, ◌∷◌, ◌++◌, arith, Bytes, length,
}
use hocuspocu_rs.Base.Bits.{and_seven_bits, and_top_bit, bit_or_high}
use hocuspocu_rs.Base.Outcome.{ok}
use hocuspocu_rs.Codec.{IsU64, var_uint_bytes, add_group, read_groups}
use hocuspocu_rs.Codec.Write.{var_uint_bytes_last, var_uint_bytes_more}
use native.Mathlib.Decide.{dec_lt}
use native.Mathlib.Numerals.{towards_suc}
use native.Mathlib.Nat.{div-add-mod, pow-suc}

-- A group that fits the word is added.
add_group_fits :
    (r b g s : ℕ)
    → b % 128 ≡ g
    → r < 2 ^ s
    → IsU64 (r + g * 2 ^ s)
    → add_group r b s ≡ r + g * 2 ^ s
unfolding add_group
add_group_fits r b g s e h fits = ground (arith, and_seven_bits b, bit_or_high s r g)

seven_up : (s : ℕ) → 2 ^ (s + 7) ≡ 128 * 2 ^ s
seven_up s = simp towards_suc (omega arith)

split_value : (v s : ℕ) → v * 2 ^ s ≡ v % 128 * 2 ^ s + v / 128 * 2 ^ (s + 7)
split_value v s =
    omega (
      arith,
      ap (λ (t : ℕ). t * 2 ^ s) (div-add-mod v 128),
      ap (λ (t : ℕ). v / 128 * t) (seven_up s),
    )

last_group :
    (v pos r s : ℕ) (rest : Bytes)
    → v < 128
    → r < 2 ^ s
    → IsU64 (r + v * 2 ^ s)
    → read_groups (v ∷ rest) pos r s ≡ (ok (r + v * 2 ^ s), pos + 1)
unfolding read_groups
last_group v pos r s rest h g fits = ground (arith, and_top_bit v, add_group_fits r v v s)

inner_group :
    (w pos r s : ℕ) (rest : Bytes)
    → w < 128
    → s + 7 < 64
    → r < 2 ^ s
    → IsU64 (r + w * 2 ^ s)
    → read_groups ((w + 128) ∷ rest) pos r s ≡ read_groups rest (pos + 1) (r + w * 2 ^ s) (s + 7)
unfolding read_groups
inner_group w pos r s rest h k g fits =
    ground (arith, and_top_bit (w + 128), add_group_fits r (w + 128) w s)

group_bound : (r w s : ℕ) → r < 2 ^ s → w < 128 → r + w * 2 ^ s < 2 ^ (s + 7)
group_bound r w s h g = rw (seven_up s) (grind arith)

-- The loop gives back the value that is still to be read, over the bits read before it.
pub read_groups-var_uint_bytes :
    (k v pos r s : ℕ) (rest : Bytes)
    → v < 128 ^ suc k
    → s + 7 * k < 64
    → r < 2 ^ s
    → IsU64 (r + v * 2 ^ s)
    → read_groups (var_uint_bytes (suc k) v ++ rest) pos r s
      ≡ (ok (r + v * 2 ^ s), pos + length (var_uint_bytes (suc k) v))
read_groups-var_uint_bytes zero v pos r s rest h a g fits =
    let small : v < 128 = omega arith in
    rw (var_uint_bytes_last zero v small)
      (rw (last_group v pos r s rest small g fits) (ground arith))
read_groups-var_uint_bytes (suc k) v pos r s rest h a g fits = elim (dec_lt v 128) [
  | yes small ↦
      rw (var_uint_bytes_last (suc k) v small)
        (rw (last_group v pos r s rest small g fits) (ground arith))
  | no large ↦ rw (var_uint_bytes_more (suc k) v (omega arith)) (
      ground (
        arith,
        split_value v s,
        group_bound r (v % 128) s,
        inner_group (v % 128) pos r s (var_uint_bytes (suc k) (v / 128) ++ rest),
        pow-suc 128 (suc k),
        read_groups-var_uint_bytes k (v / 128) (pos + 1) (r + v % 128 * 2 ^ s) (s + 7) rest,
      ))
]
