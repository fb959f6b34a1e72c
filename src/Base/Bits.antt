-- ===== src/Base/Bits.antt =====
-- `&` and `|` at variables, from the binary digits that the native operations stand for.
use Prim.Native.Nat.{ℕ, zero, suc, ◌+◌, ◌*◌, ◌/◌, ◌%◌, ◌^◌, ◌≤◌, ◌<◌, bit_and, bit_or}
use Prim.Native.Nat.{min, max, digits, bit_and-bitwise, bit_or-bitwise}
use mathlib.Core.Path.{◌≡◌, refl, sym, ap}
use mathlib.Core.Bool.{Bool, true, false, not, ◌&&◌}
use hocuspocu_rs.Base.Tests.{◌==◌, ==_iff, ltb}
use native.Mathlib.Nat.{pow-suc}
use native.Mathlib.Omega.{arith}

-- More fuel than the first number changes nothing.
module _ (z : ℕ → ℕ) (f : ℕ → ℕ → ℕ) where
  fuel_irrelevant : (k l x y : ℕ) → x ≤ k → x ≤ l → digits z f k x y ≡ digits z f l x y
  fuel_irrelevant zero zero x y h g = refl
  fuel_irrelevant zero (suc l) zero y h g = refl
  fuel_irrelevant (suc k) zero zero y h g = refl
  fuel_irrelevant (suc k) (suc l) zero y h g = refl
  fuel_irrelevant zero l (suc x) y h g = absurd (omega arith)
  fuel_irrelevant (suc k) zero (suc x) y h g = absurd (omega arith)
  fuel_irrelevant (suc k) (suc l) (suc x) y h g =
      rw (fuel_irrelevant k l (suc x / 2) (y / 2) (omega arith) (omega arith))

or_digit : (x y : ℕ) → bit_or x y ≡ bit_or (x / 2) (y / 2) * 2 + max (x % 2) (y % 2)
or_digit zero y = simp bit_or-bitwise (omega arith)
or_digit (suc x) y = simp bit_or-bitwise (
    omega (
      arith,
      fuel_irrelevant (λ d. d) max x (suc x / 2) (suc x / 2) (y / 2) (omega arith) (omega arith),
    ))

and_digit : (x y : ℕ) → bit_and x y ≡ bit_and (x / 2) (y / 2) * 2 + min (x % 2) (y % 2)
and_digit zero y = simp bit_and-bitwise (omega arith)
and_digit (suc x) y = simp bit_and-bitwise (
    omega (
      arith,
      fuel_irrelevant (λ d. 0) min x (suc x / 2) (suc x / 2) (y / 2) (omega arith) (omega arith),
    ))

infix 20 ◌⇔◌
abbrev ◌⇔◌ : Bool → Bool → Bool
true ⇔ b = b
false ⇔ b = not b

⇔_sound : (a b : Bool) → (a ⇔ b) ≡ true → a ≡ b
⇔_sound true true e = refl
⇔_sound true false e = sym e
⇔_sound false true e = e
⇔_sound false false e = refl

double_shift : (q s : ℕ) → q * 2 ^ suc s ≡ 2 * (q * 2 ^ s)
double_shift q s = omega (arith, ap (λ (t : ℕ). q * t) (pow-suc 2 s))

zero-bit_or : (y : ℕ) → bit_or 0 y ≡ y
zero-bit_or y = simp bit_or-bitwise (omega arith)

-- A field over the bits that are in use is added.
pub bit_or_high : (s r q : ℕ) → r < 2 ^ s → bit_or r (q * 2 ^ s) ≡ r + q * 2 ^ s
bit_or_high zero r q h = let e : r ≡ 0 = omega arith in rw (e, zero-bit_or) (omega arith)
bit_or_high (suc s) r q h =
    ground
      (arith, or_digit r (q * 2 ^ suc s), double_shift q s, pow-suc 2 s, bit_or_high s (r / 2) q)

-- `|` stays within the width of its arguments.
pub bit_or-lt : (k x y : ℕ) → x < 2 ^ k → y < 2 ^ k → bit_or x y < 2 ^ k
bit_or-lt zero x y h g =
    let e : x ≡ 0 = omega arith in let d : y ≡ 0 = omega arith in rw (e, d) (omega arith)
bit_or-lt (suc k) x y h g = omega (
  arith,
  or_digit x y,
  pow-suc 2 k,
  bit_or-lt k (x / 2) (y / 2) (omega (arith, pow-suc 2 k)) (omega (arith, pow-suc 2 k)),
)

and_zero : (bound x : ℕ) → x ≤ bound → bit_and x 0 ≡ 0
and_zero bound zero h = simp bit_and-bitwise
and_zero zero (suc x) h = absurd (omega arith)
and_zero (suc bound) (suc x) h =
    omega (arith, and_digit (suc x) 0, and_zero bound (suc x / 2) (omega arith))

and_three : (x : ℕ) → bit_and x 3 ≡ x % 4
and_three x =
    omega
      (arith, and_digit x 3, and_digit (x / 2) 1, and_zero (x / 2 / 2) (x / 2 / 2) (omega arith))

-- `x & 0x7F`.
pub and_seven_bits : (x : ℕ) → bit_and x 0x7f ≡ x % 128
and_seven_bits x = omega (
  arith,
  and_digit x 127,
  and_digit (x / 2) 63,
  and_digit (x / 2 / 2) 31,
  and_digit (x / 2 / 2 / 2) 15,
  and_digit (x / 2 / 2 / 2 / 2) 7,
  and_three (x / 2 / 2 / 2 / 2 / 2),
)

below : ℕ → (ℕ → Bool) → Bool
below zero p = true
below (suc n) p = p n && below n p

below_sound : (n : ℕ) (p : ℕ → Bool) (x : ℕ) → below n p ≡ true → x < n → p x ≡ true
unfolding below
below_sound zero p x h g = absurd (omega arith)
below_sound (suc n) p x h g = ground (arith, below_sound n p x)

top_bit_table : below 256 (λ x. (bit_and x 0x80 == 0) ⇔ ltb x 128) ≡ true
unfolding below
top_bit_table = refl

-- `x & 0x80 == 0` of a byte.
pub and_top_bit : (x : ℕ) → x < 256 → (bit_and x 0x80 == 0) ≡ ltb x 128
and_top_bit x h = ⇔_sound _ _ (below_sound 256 _ x top_bit_table h)

set_bit_table : below 128 (λ x. bit_or x 0x80 == x + 128) ≡ true
unfolding below
set_bit_table = refl

-- `x | 0x80` of seven bits.
pub or_top_bit : (x : ℕ) → x < 128 → bit_or x 0x80 ≡ x + 128
or_top_bit x h = (==_iff _ _).0 (below_sound 128 _ x set_bit_table h)
