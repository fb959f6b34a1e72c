-- ===== src/Tests/Wire.antt =====
-- The codec, the frames and the keys on concrete bytes.
use hocuspocu_rs.Base.{
  ◌+◌, ◌^◌, ◌<◌, ◌≤◌, ◌≡◌, ◌⊎◌, refl, true, false, [], ◌∷◌, ◌++◌, none, some, text, length, arith,
}
use hocuspocu_rs.Base.Outcome.{ok, err, panic}
use hocuspocu_rs.Codec
use hocuspocu_rs.Codec.{
  Decoder, write_var_uint, write_var_string, read_var_uint, read_var_string, string_truncated,
  invalid_utf8, IsU64,
}
use hocuspocu_rs.Codec.Panics.{IsInside, read_var_string_cases}
use hocuspocu_rs.Codec.Utf8.{is_utf8}
use hocuspocu_rs.Common.RoutingKey.{parse_routing_key}
use hocuspocu_rs.Common.Auth
use hocuspocu_rs.Common.Auth.Agree.{read_var_string-agree, forget}
use hocuspocu_rs.Message.Frame.{read_frame, stateless_frame}
use hocuspocu_rs.Message.RoundTrip.{build, read_frame-build}
use hocuspocu_rs.Message.{to_vec}
use hocuspocu_rs.Types.{try_from, code}

write_300 : write_var_uint [] 300 ≡ 0xac ∷ 0x02 ∷ []
unfolding write_var_uint Codec.var_uint_bytes Codec.var_uint_byte
write_300 = refl

-- Three bytes are announced, two are there.
abbrev short : Decoder
short = record { bytes = 3 ∷ 97 ∷ 98 ∷ []; pos = 0 }

short-IsInside : IsInside short
short-IsInside = record { inside = omega arith; word = omega arith }

read_var_string_cases_example :
    ((2 ^ 64 ≤ 1 + 3) × (read_var_string short ≡ (panic, record short { pos = 1 })))
    ⊎ ((3 < 1 + 3)
        × (1 + 3 < 2 ^ 64)
        × (read_var_string short ≡ (err string_truncated, record short { pos = 1 })))
    ⊎ ((1 + 3 ≤ 3)
        × (is_utf8 (97 ∷ 98 ∷ []) ≡ false)
        × (read_var_string short ≡ (err invalid_utf8, record short { pos = 1 })))
    ⊎ ((1 + 3 ≤ 3)
        × (is_utf8 (97 ∷ 98 ∷ []) ≡ true)
        × (read_var_string short ≡ (ok (97 ∷ 98 ∷ []), record short { pos = 1 + 3 })))
unfolding read_var_uint Codec.read_groups Codec.add_group
read_var_string_cases_example =
    read_var_string_cases short (record short { pos = 1 }) 3 short-IsInside refl

read_frame-build_example :
    read_frame
      (Codec.new (to_vec (build (text "doc") (stateless_frame (text "hello"))) ++ (9 ∷ [])))
    ≡ (
      ok (text "doc", stateless_frame (text "hello")),
      record {
        bytes = to_vec (build (text "doc") (stateless_frame (text "hello"))) ++ (9 ∷ []);
        pos = length (to_vec (build (text "doc") (stateless_frame (text "hello"))));
      },
    )
unfolding to_vec build is_utf8 hocuspocu_rs.Message.write_stateless write_var_string write_var_uint
    hocuspocu_rs.Message.new Codec.var_uint_bytes code
read_frame-build_example =
    read_frame-build (text "doc") (stateless_frame (text "hello")) (9 ∷ []) refl refl (omega arith)

read_var_string-agree_example :
    forget (Codec.read_var_string short)
    ≡ Auth.read_var_string (record { inner = short.bytes; position = short.pos })
read_var_string-agree_example = read_var_string-agree short

unknown_number : try_from 11 ≡ none
unfolding try_from
unknown_number = refl

nul_only : parse_routing_key (0 ∷ []) ≡ ([], some [])
unfolding parse_routing_key
nul_only = refl
