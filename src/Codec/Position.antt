-- ===== src/Codec/Position.antt =====
-- Readers as relations between what stands at the position and what they return, and how they
-- follow one another. `Yields` is what the proofs about whole frames are made of.
use hocuspocu_rs.Base.{
  ℕ, ◌+◌, ◌-◌, ◌%◌, ◌^◌, ◌≤◌, ◌≡◌, refl, ap, ◌∙◌, true, [], ◌++◌, arith, Bytes, Str, length, drop,
  append_assoc, drop_past, length-parts, length-append, take-append,
}
use hocuspocu_rs.Base.Outcome.{ok}
use hocuspocu_rs.Codec.{
  check_utf8, advance, string_truncated, array_truncated, IsU64, IoError, Decoder, Reader, new,
  slice, write_var_uint, write_var_string, write_var_uint8_array, read_var_uint, read_var_string,
  read_var_uint8_array, take_bytes, ◌>>=◌, wrap_u64,
}
use hocuspocu_rs.Codec.Read.{read_groups-var_uint_bytes}
use hocuspocu_rs.Codec.Utf8.{is_utf8}

-- What is left to read is `xs`. A slice is shorter than the address space.
pub record At (d : Decoder) (xs : Bytes) : Type 0 where
  pub here : drop d.pos d.bytes ≡ xs
  pub inside : d.pos ≤ length d.bytes
  pub word : IsU64 (length d.bytes)

abbrev pub step_over : Decoder → Bytes → Decoder
step_over d xs = record d { pos = d.pos + length xs }

pub At-length : (d : Decoder) (xs ys : Bytes) → At d (xs ++ ys) → d.pos + length xs ≤ length d.bytes
At-length d xs ys a = omega (arith, length-parts d.pos d.bytes xs ys a.here a.inside)

pub At-step_over : (d : Decoder) (xs ys : Bytes) → At d (xs ++ ys) → At (step_over d xs) ys
At-step_over d xs ys a = record {
  here = drop_past d.pos (d.pos + length xs) d.bytes xs ys refl a.here;
  inside = At-length d xs ys a;
  word = a.word;
}

pub At-new : (xs : Bytes) → IsU64 (length xs) → At (new xs) xs
unfolding new
At-new xs h = record { here = refl; inside = omega arith; word = h }

-- At `xs`, whatever follows, `m` returns `a` and stops behind `xs`.
abbrev pub Yields {ℓ} : {A : Type ℓ} → Reader A → Bytes → A → Type ℓ
Yields m xs a = (d : Decoder) (rest : Bytes) → At d (xs ++ rest) → m d ≡ (ok a, step_over d xs)

step_over-append :
    (d : Decoder) (xs ys : Bytes) → step_over (step_over d xs) ys ≡ step_over d (xs ++ ys)
step_over-append d xs ys = ground (arith, length-append xs ys)

pub Yields-bind {ℓ κ} :
    {A : Type ℓ} {B : Type κ} (m : Reader A) (f : A → Reader B) (xs ys : Bytes) (a : A) (b : B)
    → Yields m xs a
    → Yields (f a) ys b
    → Yields (m >>= f) (xs ++ ys) b
Yields-bind m f xs ys a b hm hf d rest at =
    let at' : At d (xs ++ (ys ++ rest)) = rw (append_assoc xs ys rest) at at in
    rw (hm d (ys ++ rest) at') (
      hf (step_over d xs) rest (At-step_over d xs (ys ++ rest) at')
      ∙ ap (λ (e : Decoder). (ok b, e)) (step_over-append d xs ys))

-- A number that the writer wrote is read back.
pub read_var_uint-Yields : (v : ℕ) → IsU64 v → Yields read_var_uint (write_var_uint [] v) v
unfolding read_var_uint write_var_uint
read_var_uint-Yields v h d rest at =
    rw
      (
        at.here,
        read_groups-var_uint_bytes 9 v d.pos 0 0 rest (omega arith) (omega arith) (omega arith)
            (omega arith),
      )
      (ground arith)

-- Taking `length s` bytes out of what is left, without moving.
take_bytes_lem :
    (e : IoError) (s : Bytes) (d : Decoder) (rest : Bytes)
    → At d (s ++ rest)
    → take_bytes e (length s) d ≡ (ok s, d)
unfolding take_bytes slice
take_bytes_lem e s d rest at =
    let n : (d.pos + length s) % 2 ^ 64 ≡ d.pos + length s = omega (arith, At-length d s rest at) in
    let k : d.pos + length s - d.pos ≡ length s = omega arith in
    rw (n, k, at.here, take-append s rest) (ground (arith, At-length d s rest at))

word_pos :
    (d : Decoder) (xs rest : Bytes)
    → At d (xs ++ rest)
    → wrap_u64 (d.pos + length xs) ≡ d.pos + length xs
word_pos d xs rest at = omega (arith, At-length d xs rest at)

pub length-word : (d : Decoder) (xs rest : Bytes) → At d (xs ++ rest) → IsU64 (length xs)
length-word d xs rest at = omega (arith, At-length d xs rest at)

body_word : (d : Decoder) (n s rest : Bytes) → At d ((n ++ s) ++ rest) → IsU64 (length s)
body_word d n s rest at = omega (arith, length-word d (n ++ s) rest at, length-append n s)

check_body-Yields :
    (e : IoError) (s : Bytes)
    → is_utf8 s ≡ true
    → Yields (take_bytes e (length s) >>= check_utf8 (length s)) s s
check_body-Yields e s valid d rest at =
    rw (take_bytes_lem e s d rest at) (rw (valid, word_pos d s rest at))

advance_body-Yields :
    (e : IoError) (s : Bytes) → Yields (take_bytes e (length s) >>= advance (length s)) s s
advance_body-Yields e s d rest at = rw (take_bytes_lem e s d rest at) (rw (word_pos d s rest at))

-- A string that the writer wrote is read back.
pub read_var_string-Yields :
    (s : Str) → is_utf8 s ≡ true → Yields read_var_string (write_var_string [] s) s
unfolding read_var_string write_var_string
read_var_string-Yields s valid d rest at =
    Yields-bind read_var_uint _ (write_var_uint [] (length s)) s (length s) s
      (read_var_uint-Yields (length s) (body_word d (write_var_uint [] (length s)) s rest at))
      (check_body-Yields string_truncated s valid) d rest at

-- And so is a byte array.
pub read_var_uint8_array-Yields :
    (s : Bytes) → Yields read_var_uint8_array (write_var_uint8_array [] s) s
unfolding read_var_uint8_array write_var_uint8_array
read_var_uint8_array-Yields s d rest at =
    Yields-bind read_var_uint _ (write_var_uint [] (length s)) s (length s) s
      (read_var_uint-Yields (length s) (body_word d (write_var_uint [] (length s)) s rest at))
      (advance_body-Yields array_truncated s) d rest at
