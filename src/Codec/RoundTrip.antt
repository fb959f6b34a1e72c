-- ===== src/Codec/RoundTrip.antt =====
-- Writing after whatever a buffer holds, and reading it back from there.
use hocuspocu_rs.Base.{
  ℕ, ◌≡◌, refl, true, [], ◌++◌, arith, Bytes, Str, length, append_assoc, length-append, drop-append,
}
use hocuspocu_rs.Base.Outcome.{ok}
use hocuspocu_rs.Codec.{
  IsU64, Reader, write_var_uint, write_var_string, write_var_uint8_array, read_var_uint,
  read_var_string, read_var_uint8_array,
}
use hocuspocu_rs.Codec.Position.{
  Yields, At, read_var_uint-Yields, read_var_string-Yields, read_var_uint8_array-Yields,
}
use hocuspocu_rs.Codec.Utf8.{is_utf8}

pub write_var_uint-buf : (buf : Bytes) (v : ℕ) → write_var_uint buf v ≡ buf ++ write_var_uint [] v
unfolding write_var_uint
write_var_uint-buf buf v = refl

pub write_var_string-buf : (buf s : Bytes) → write_var_string buf s ≡ buf ++ write_var_string [] s
unfolding write_var_string write_var_uint
write_var_string-buf buf s = append_assoc buf _ s

pub write_var_uint8_array-buf :
    (buf s : Bytes) → write_var_uint8_array buf s ≡ buf ++ write_var_uint8_array [] s
unfolding write_var_uint8_array write_var_uint
write_var_uint8_array-buf buf s = append_assoc buf _ s

-- The writers only append.
pub ruleset write_appends = (write_var_uint-buf, write_var_string-buf, write_var_uint8_array-buf)

At-behind :
    (buf xs : Bytes)
    → IsU64 (length (buf ++ xs))
    → At (record { bytes = buf ++ xs; pos = length buf }) xs
At-behind buf xs h = record {
  here = drop-append buf xs;
  inside = omega (arith, length-append buf xs);
  word = h;
}

Yields-behind {ℓ} :
    {A : Type ℓ} (m : Reader A) (buf xs rest out : Bytes) (a : A)
    → Yields m xs a
    → out ≡ buf ++ xs
    → IsU64 (length (out ++ rest))
    → m (record { bytes = out ++ rest; pos = length buf })
      ≡ (ok a, record { bytes = out ++ rest; pos = length out })
Yields-behind m buf xs rest out a y e h =
    rw (e, length-append buf xs, append_assoc buf xs rest)
      (y (record { bytes = buf ++ (xs ++ rest); pos = length buf }) rest
        (At-behind buf (xs ++ rest) (rw (e, append_assoc buf xs rest) at h)))

-- A `u64` written behind any bytes, with any bytes after it, is read back from where it was
-- written, and the decoder then stands right behind it.
pub read_var_uint-write_var_uint :
    (buf rest : Bytes) (v : ℕ)
    → IsU64 v
    → IsU64 (length (write_var_uint buf v ++ rest))
    → read_var_uint (record { bytes = write_var_uint buf v ++ rest; pos = length buf })
      ≡ (ok v, record { bytes = write_var_uint buf v ++ rest; pos = length (write_var_uint buf v) })
read_var_uint-write_var_uint buf rest v h w =
    Yields-behind read_var_uint buf (write_var_uint [] v) rest _ v (read_var_uint-Yields v h)
      (write_var_uint-buf buf v) w

-- A well-formed UTF-8 text written behind any bytes, with any bytes after it, is read back from where
-- it was written, and the decoder then stands right behind it.
read_var_string-write_var_string :
    (buf rest : Bytes) (s : Str)
    → is_utf8 s ≡ true
    → IsU64 (length (write_var_string buf s ++ rest))
    → read_var_string (record { bytes = write_var_string buf s ++ rest; pos = length buf }) ≡ (
      ok s,
      record { bytes = write_var_string buf s ++ rest; pos = length (write_var_string buf s) },
    )
read_var_string-write_var_string buf rest s valid w =
    Yields-behind read_var_string buf (write_var_string [] s) rest _ s
      (read_var_string-Yields s valid) (write_var_string-buf buf s) w

-- A byte array written behind any bytes, with any bytes after it, is read back from where it was
-- written, and the decoder then stands right behind it.
read_var_uint8_array-write_var_uint8_array :
    (buf rest bytes : Bytes)
    → IsU64 (length (write_var_uint8_array buf bytes ++ rest))
    → let out = write_var_uint8_array buf bytes in
      read_var_uint8_array (record { bytes = out ++ rest; pos = length buf })
      ≡ (ok bytes, record { bytes = out ++ rest; pos = length out })
read_var_uint8_array-write_var_uint8_array buf rest bytes w =
    Yields-behind read_var_uint8_array buf (write_var_uint8_array [] bytes) rest _ bytes
      (read_var_uint8_array-Yields bytes) (write_var_uint8_array-buf buf bytes) w
