-- ===== src/Codec/Panics.antt =====
-- The readers on any bytes: where they stop, and on which lengths they panic.
use hocuspocu_rs.Base.{
  ℕ, suc, ◌+◌, ◌-◌, ◌%◌, ◌^◌, ◌≤◌, ◌<◌, ◌≡◌, refl, ◌⊎◌, inl, inr, ap, true, false, [], ◌∷◌, ◌++◌,
  arith, Bytes, Str, length, drop, take, length-drop, bit_and, leb, ◌==◌, Bool-cases,
}
use native.Mathlib.Decide.{dec_le, dec_lt}
use hocuspocu_rs.Base.Bits.{bit_or-lt}
use hocuspocu_rs.Base.Outcome.{Outcome, ok, err, panic}
use hocuspocu_rs.Codec.{
  IsU64, IoError, Decoder, read_groups, add_group, read_var_uint, read_var_string,
  read_var_uint8_array, take_bytes, slice, string_truncated, array_truncated, invalid_utf8, new,
  write_var_uint,
}
use hocuspocu_rs.Codec.RoundTrip.{read_var_uint-write_var_uint}
use hocuspocu_rs.Codec.Utf8.{is_utf8}

-- The decoder stands on or behind its bytes.
pub record IsInside (d : Decoder) : Type 0 where
  pub inside : d.pos ≤ length d.bytes
  pub word : IsU64 (length d.bytes)

add_group-IsU64 : (r b s : ℕ) → IsU64 r → IsU64 (add_group r b s)
unfolding add_group
add_group-IsU64 r b s h = bit_or-lt 64 r _ h (omega arith)

abbrev GoodRead : ℕ → ℕ → Outcome IoError ℕ × ℕ → Type 0
GoodRead pos len (ok v, stop) = IsU64 v × (pos < stop) × (stop ≤ pos + len)
GoodRead pos len (err e, stop) = (pos ≤ stop) × (stop ≤ pos + len)
GoodRead pos len (panic, stop) = ⊥

GoodRead-later :
    (pos len : ℕ) (r : Outcome IoError ℕ × ℕ) → GoodRead (pos + 1) len r → GoodRead pos (suc len) r
GoodRead-later pos len (ok v, stop) g = omega arith
GoodRead-later pos len (err e, stop) g = omega arith
GoodRead-later pos len (panic, stop) g = g

read_groups_good :
    (xs : Bytes) (pos r s : ℕ) → IsU64 r → GoodRead pos (length xs) (read_groups xs pos r s)
unfolding read_groups
read_groups_good [] pos r s h = omega arith
read_groups_good (b ∷ xs) pos r s h =
    let word = add_group-IsU64 r b s h in
    elim (Bool-cases (bit_and b 0x80 == 0)) [
      | inl last ↦ rw last (omega arith)
      | inr more ↦ elim (Bool-cases (leb 64 (s + 7))) [
        | inl long ↦ rw (more, long) (omega arith)
        | inr short ↦
            rw (more, short)
              (GoodRead-later pos (length xs) _
                (read_groups_good xs (pos + 1) (add_group r b s) (s + 7) word))
      ]
    ]

-- What a number reader may do: no panic; a `u64` and at least one byte read, or an error; the bytes
-- kept and the position inside them.
abbrev GoodNumber : Decoder → Outcome IoError ℕ × Decoder → Type 0
GoodNumber d (ok v, e) = IsU64 v × (e.bytes ≡ d.bytes) × (d.pos < e.pos) × (e.pos ≤ length d.bytes)
GoodNumber d (err x, e) = (e.bytes ≡ d.bytes) × (d.pos ≤ e.pos) × (e.pos ≤ length d.bytes)
GoodNumber d (panic, e) = ⊥

GoodRead-GoodNumber :
    (d : Decoder) (r : Outcome IoError ℕ × ℕ)
    → d.pos ≤ length d.bytes
    → GoodRead d.pos (length d.bytes - d.pos) r
    → GoodNumber d (r.0, record d { pos = r.1 })
GoodRead-GoodNumber d (ok v, stop) h g = (g.0, refl, omega arith, omega arith)
GoodRead-GoodNumber d (err x, stop) h g = (refl, omega arith, omega arith)
GoodRead-GoodNumber d (panic, stop) h g = g

-- On any bytes, at any position inside them, `read_var_uint` does not panic: it returns a `u64` and
-- moves on, or an error, and stops inside the bytes.
pub read_var_uint_good : (d : Decoder) → IsInside d → GoodNumber d (read_var_uint d)
unfolding read_var_uint
read_var_uint_good d i = GoodRead-GoodNumber d _ i.inside (
    rw (length-drop d.pos d.bytes) at
      (read_groups_good (drop d.pos d.bytes) d.pos 0 0 (omega arith)))

-- What follows the number. A length that carries the position past the address space panics, one
-- that passes the bytes is refused, and any other gives that many bytes.
abbrev Body : Decoder → ℕ → IoError → Outcome IoError Bytes × Decoder → Type 0
Body d len e r =
    ((2 ^ 64 ≤ d.pos + len) × (r ≡ (panic, d)))
    ⊎ ((length d.bytes < d.pos + len) × (d.pos + len < 2 ^ 64) × (r ≡ (err e, d)))
    ⊎ ((d.pos + len ≤ length d.bytes) × (r ≡ (ok (take len (drop d.pos d.bytes)), d)))

take_bytes_cases :
    (e : IoError) (len : ℕ) (d : Decoder)
    → IsInside d
    → IsU64 len
    → Body d len e (take_bytes e len d)
unfolding take_bytes slice
take_bytes_cases e len d i h = elim (dec_le (2 ^ 64) (d.pos + len)) [
  | yes wraps ↦ inl (wraps, ground arith)
  | no fits ↦
      let n : (d.pos + len) % 2 ^ 64 ≡ d.pos + len = omega arith in
      let k : d.pos + len - d.pos ≡ len = omega arith in
      elim (dec_lt (length d.bytes) (d.pos + len)) [
        | yes long ↦ inr (inl (long, omega arith, rw n (ground arith)))
        | no short ↦ inr (inr (omega arith, rw (n, k) (ground arith)))
      ]
]

abbrev NumberRead : (d d₁ : Decoder) (len : ℕ) → Type 0
NumberRead d d₁ len = read_var_uint d ≡ (ok len, d₁)

good_number :
    (d d₁ : Decoder) (len : ℕ)
    → IsInside d
    → NumberRead d d₁ len
    → IsU64 len × IsInside d₁ × (d₁.bytes ≡ d.bytes)
good_number d d₁ len i e =
    let g : GoodNumber d (ok len, d₁) = rw e at (read_var_uint_good d i) in
    (g.0, record { inside = rw g.1 (g.3); word = rw g.1 i.word }, g.1)

-- What `read_var_uint8_array` does behind a length prefix that it could read, on any bytes: it
-- panics if the end passes 2 ^ 64, refuses if the end passes the bytes, and otherwise returns
-- exactly that many bytes and stands behind them.
read_var_uint8_array_cases :
    (d d₁ : Decoder) (len : ℕ)
    → IsInside d
    → read_var_uint d ≡ (ok len, d₁)
    → ((2 ^ 64 ≤ d₁.pos + len) × (read_var_uint8_array d ≡ (panic, d₁)))
      ⊎ ((length d.bytes < d₁.pos + len)
          × (d₁.pos + len < 2 ^ 64)
          × (read_var_uint8_array d ≡ (err array_truncated, d₁)))
      ⊎ ((d₁.pos + len ≤ length d.bytes)
          × (read_var_uint8_array d
              ≡ (ok (take len (drop d₁.pos d.bytes)), record d { pos = d₁.pos + len })))
unfolding read_var_uint8_array
read_var_uint8_array_cases d d₁ len i e =
    let (h, i₁, same) = good_number d d₁ len i e in
    elim (take_bytes_cases array_truncated len d₁ i₁ h) [
      | inl (big, r) ↦ inl (big, rw (e, r))
      | inr (inl (long, fits, r)) ↦ inr (inl (rw same at long, fits, rw (e, r)))
      | inr (inr (short, r)) ↦ inr (inr (rw same at short, rw (e, r) (ground arith)))
    ]

-- What `read_var_string` does behind a length prefix that it could read, on any bytes: it panics if
-- the end passes 2 ^ 64, refuses if the end passes the bytes, refuses bytes that are not UTF-8 and
-- stays in front of them, and otherwise returns exactly that many bytes and stands behind them.
pub read_var_string_cases :
    (d d₁ : Decoder) (len : ℕ)
    → IsInside d
    → read_var_uint d ≡ (ok len, d₁)
    → let s = take len (drop d₁.pos d.bytes) in
      ((2 ^ 64 ≤ d₁.pos + len) × (read_var_string d ≡ (panic, d₁)))
      ⊎ ((length d.bytes < d₁.pos + len)
          × (d₁.pos + len < 2 ^ 64)
          × (read_var_string d ≡ (err string_truncated, d₁)))
      ⊎ ((d₁.pos + len ≤ length d.bytes)
          × (is_utf8 s ≡ false)
          × (read_var_string d ≡ (err invalid_utf8, d₁)))
      ⊎ ((d₁.pos + len ≤ length d.bytes)
          × (is_utf8 s ≡ true)
          × (read_var_string d ≡ (ok s, record d { pos = d₁.pos + len })))
unfolding read_var_string
read_var_string_cases d d₁ len i e =
    let (h, i₁, same) = good_number d d₁ len i e in
    elim (take_bytes_cases string_truncated len d₁ i₁ h) [
      | inl (big, r) ↦ inl (big, rw (e, r))
      | inr (inl (long, fits, r)) ↦ inr (inl (rw same at long, fits, rw (e, r)))
      | inr (inr (short, r)) ↦ elim (Bool-cases (is_utf8 (take len (drop d₁.pos d₁.bytes)))) [
        | inl valid ↦ inr (inr (inr (rw same at short, rw same at valid, rw (e, r) (ground arith))))
        | inr bad ↦ inr (inr (inl (rw same at short, rw same at bad, rw (e, r) (ground arith))))
      ]
    ]

-- Bytes that begin with a length which, with the prefix that writes it, reaches 2 ^ 64 make
-- `read_var_string` panic, whatever follows.
read_var_string_panics :
    (len : ℕ) (rest : Bytes)
    → IsU64 len
    → IsU64 (length (write_var_uint [] len ++ rest))
    → 2 ^ 64 ≤ length (write_var_uint [] len) + len
    → (read_var_string (new (write_var_uint [] len ++ rest))).0 ≡ panic
unfolding new
read_var_string_panics len rest h w big =
    let d : Decoder = record { bytes = write_var_uint [] len ++ rest; pos = 0 } in
    let e = read_var_uint-write_var_uint [] rest len h w in
    elim (read_var_string_cases d _ len (record { inside = omega arith; word = w }) e) [
      | inl (_, r) ↦ ap (λ (p : Outcome IoError Str × Decoder). p.0) r
      | inr (inl (_, fits, _)) ↦ absurd (omega arith)
      | inr (inr (inl (short, _, _))) ↦ absurd (omega arith)
      | inr (inr (inr (short, _, _))) ↦ absurd (omega arith)
    ]
