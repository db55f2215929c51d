-- ===== src/Dynamic/Msgpack/Examples.antt =====
-- dynamic/src/msgpack.rs: runs, and the theorems at concrete values.
use zust.Prelude.{ℕ, ◌≡◌, refl, arith, true, [], ◌∷◌, ◌++◌, length}
use zust.Prelude.Int.{pos, negsuc}
use zust.Prelude.Outcome.{ok, panic}
use zust.Dynamic.Value.{
  Dynamic, insert, same_text, bool, u8, i16, i64, vec_u16, list, map, nil, cons, end, field,
}
use zust.Dynamic.Msgpack.Encode.{
  encode, encode_str, str_header, encode_i64, wide_i64, encode_vec, list_header, map_header,
}
use zust.Dynamic.Msgpack.Read.{
  Platform, tag_len, read_16, slice, slice_from, to_string, pairs, vec_to_map,
}
use zust.Dynamic.Msgpack.Decode.{decode, decode_array, elements, entries, text}
use zust.Dynamic.Msgpack.Total.{Answers, decode_total}
use zust.Dynamic.Msgpack.Portable.{decoded, IsPortable, has_key}
use zust.Dynamic.Msgpack.RoundTrip.{decode-encode}
use zust.Dynamic.Msgpack.Limits.{decode_panics}

-- A platform on which every byte string is a text, for the runs.
abbrev plain : Platform
plain = record { valid_utf8 = λ s. true; f32_to_f64 = λ b. b; display = λ v. [] }

abbrev same_bits : ℕ → ℕ
same_bits b = b

-- {"a": [-200, 7, true], "v": u16 vector of two elements}
abbrev sample : Dynamic
sample = map (
    field (b'a' ∷ []) (list (cons (i16 (negsuc 199)) (cons (u8 7) (cons (bool true) nil))))
      (field (b'v' ∷ []) (vec_u16 (1 ∷ 0 ∷ 2 ∷ 0 ∷ [])) end))

sample_bytes :
    encode same_bits sample
    ≡ 0x82 ∷ 0xa1 ∷ b'a' ∷ 0x93 ∷ 0xd1 ∷ 0xff ∷ 0x38 ∷ 7 ∷ 0xc3 ∷ 0xa1 ∷ b'v' ∷ 0xc7 ∷ 2 ∷ 2 ∷ 1 ∷ 0
      ∷ 2 ∷ 0 ∷ []
unfolding encode encode_str str_header encode_i64 wide_i64 encode_vec list_header map_header
sample_bytes = refl

decode_sample :
    decode plain (0x81 ∷ 0xa1 ∷ b'a' ∷ 0x92 ∷ 1 ∷ 0xd1 ∷ 255 ∷ 0 ∷ [])
    ≡ ok (map (field (b'a' ∷ []) (list (cons (i64 (pos 1)) (cons (i64 (negsuc 255)) nil))) end), 8)
unfolding decode entries elements text slice slice_from decode_array vec_to_map pairs to_string
    insert read_16
decode_sample = refl

sample-IsPortable : IsPortable same_bits plain sample
unfolding has_key same_text
sample-IsPortable = (
  omega arith,
  (
    (refl, omega arith),
    (omega arith, (omega arith, (omega arith, (tt, tt)))),
    refl,
    ((refl, omega arith), (refl, omega arith, omega arith), refl, tt),
  ),
)

decode-encode_example :
    decode plain (encode same_bits sample ++ 0xc0 ∷ [])
    ≡ ok (decoded same_bits plain sample, length (encode same_bits sample))
decode-encode_example = decode-encode same_bits plain sample (0xc0 ∷ []) sample-IsPortable

decode_total_example : Answers 3 (decode plain (0x92 ∷ 1 ∷ 0xd9 ∷ []))
decode_total_example = decode_total plain (0x92 ∷ 1 ∷ 0xd9 ∷ [])

tag_len_two : tag_len 2 ≡ ok 2
unfolding tag_len
tag_len_two = refl

decode_panics_example : decode plain (0xc7 ∷ 9 ∷ 2 ∷ 1 ∷ 2 ∷ 3 ∷ 4 ∷ []) ≡ panic
decode_panics_example =
    decode_panics plain 9 2 2 (1 ∷ 2 ∷ 3 ∷ 4 ∷ []) tag_len_two (omega arith) (omega arith)
