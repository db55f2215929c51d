-- ===== src/Dynamic/Msgpack/Encode.antt =====
-- dynamic/src/msgpack.rs, `MsgPack::encode`: each function gives the bytes that the source appends
-- to its buffer.
use Prim.Native.Nat.{bit_or}
use zust.Prelude.{ℕ, ◌+◌, ◌/◌, ◌%◌, ◌^◌, Bool, false, [], ◌∷◌, ◌++◌, length, ltb, if◌then◌else◌}
use zust.Prelude.Int.{ℤ, pos, negsuc, to_word, of_word}
use zust.Dynamic.Value.{
  Bytes, Dynamic, null, bool, u8, i8, u16, i16, u32, i32, u64, i64, f16, f32, f64, string,
  string_buf, bytes, vec_i8, vec_u16, vec_i16, vec_u32, vec_i32, vec_f32, vec_u64, vec_i64, vec_f64,
  list, map, struct_view, struct_owned, custom, iter, Items, nil, cons, Fields, end, field,
  items_length, fields_length,
}

-- `n as u8`, and `write_u16`, `write_u32` and `write_u64` of the truncated `n`, big end first.
abbrev pub as_u8 : ℕ → ℕ
as_u8 n = n % 256

abbrev pub write_16 : ℕ → Bytes
write_16 n = as_u8 (n / 256) ∷ as_u8 n ∷ []

abbrev pub write_32 : ℕ → Bytes
write_32 n = as_u8 (n / 2 ^ 24) ∷ as_u8 (n / 2 ^ 16) ∷ write_16 n

abbrev pub write_64 : ℕ → Bytes
write_64 n =
    as_u8 (n / 2 ^ 56) ∷ as_u8 (n / 2 ^ 48) ∷ as_u8 (n / 2 ^ 40) ∷ as_u8 (n / 2 ^ 32) ∷ write_32 n

unfoldable pub str_header : ℕ → Bytes
str_header n =
    if ltb n 0x20
    then bit_or 0xa0 (as_u8 n) ∷ []
    else if ltb n 0x100
    then 0xd9 ∷ as_u8 n ∷ []
    else if ltb n 0x10000
    then 0xda ∷ write_16 n
    else 0xdb ∷ write_32 n

unfoldable pub encode_str : Bytes → Bytes
encode_str s = str_header (length s) ++ s

-- -half ≤ value ≤ half - 1
abbrev pub in_signed : ℕ → ℤ → Bool
in_signed half (pos n) = ltb n half
in_signed half (negsuc n) = ltb n half

-- value ≥ 0 && value < 128, and value < 0 && value > -32
abbrev positive_fix : ℤ → Bool
positive_fix (pos n) = ltb n 128
positive_fix (negsuc n) = false

abbrev negative_fix : ℤ → Bool
negative_fix (pos n) = false
negative_fix (negsuc n) = ltb (n + 1) 32

unfoldable pub wide_i64 : ℤ → Bytes
wide_i64 value =
    if in_signed (2 ^ 7) value
    then 0xd0 ∷ to_word (2 ^ 7) value ∷ []
    else if in_signed (2 ^ 15) value
    then 0xd1 ∷ write_16 (to_word (2 ^ 15) value)
    else if in_signed (2 ^ 31) value
    then 0xd2 ∷ write_32 (to_word (2 ^ 31) value)
    else 0xd3 ∷ write_64 (to_word (2 ^ 63) value)

unfoldable pub encode_i64 : ℤ → Bytes
encode_i64 value =
    if positive_fix value
    then to_word (2 ^ 7) value ∷ []
    else if negative_fix value
    then to_word (2 ^ 7) value ∷ []
    else wide_i64 value

unfoldable pub encode_bytes : Bytes → Bytes
encode_bytes raw =
    let n = length raw in
    (if ltb n 0x100
      then 0xc4 ∷ as_u8 n ∷ []
      else if ltb n 0x10000
      then 0xc5 ∷ write_16 n
      else 0xc6 ∷ write_32 n)
    ++ raw

vec_header : ℕ → ℕ → Bytes
vec_header len tag =
    if ltb len 0x100
    then 0xc7 ∷ as_u8 len ∷ tag ∷ []
    else if ltb len 0x10000
    then 0xc8 ∷ (write_16 len ++ tag ∷ [])
    else 0xc9 ∷ (write_32 len ++ tag ∷ [])

unfoldable pub encode_vec : Bytes → ℕ → ℕ → Bytes
unfolding vec_header
encode_vec raw len tag = vec_header len tag ++ raw

unfoldable pub list_header : ℕ → Bytes
list_header n =
    if ltb n 0x10
    then bit_or 0x90 (as_u8 n) ∷ []
    else if ltb n 0x10000
    then 0xdc ∷ write_16 n
    else 0xdd ∷ write_32 n

unfoldable pub map_header : ℕ → Bytes
map_header n =
    if ltb n 16
    then bit_or 0x80 (as_u8 n) ∷ []
    else if ltb n 0x10000
    then 0xde ∷ write_16 n
    else 0xdf ∷ write_32 n

-- The bytes of the text "@custom".
abbrev pub custom_key : Bytes
custom_key = b'@' ∷ b'c' ∷ b'u' ∷ b's' ∷ b't' ∷ b'o' ∷ b'm' ∷ []

-- `half::f16::to_f64` on bit patterns.
module _ (f16_to_f64 : ℕ → ℕ) where
  unfoldable mutual
    pub encode : Dynamic → Bytes
    encode iter = []
    encode null = 0xc0 ∷ []
    encode (bool b) = (if b then 0xc3 else 0xc2) ∷ []
    encode (i8 i) = encode_i64 i
    encode (i16 i) = encode_i64 i
    encode (i32 i) = encode_i64 i
    encode (i64 i) = encode_i64 i
    encode (u8 i) = encode_i64 (pos i)
    encode (u16 i) = encode_i64 (pos i)
    encode (u32 i) = encode_i64 (pos i)
    encode (u64 i) = encode_i64 (of_word (2 ^ 63) i)
    encode (f16 b) = 0xcb ∷ write_64 (f16_to_f64 b)
    encode (f32 b) = 0xca ∷ write_32 b
    encode (f64 b) = 0xcb ∷ write_64 b
    encode (string s) = encode_str s
    encode (string_buf s) = encode_str s
    encode (bytes raw) = encode_bytes raw
    encode (vec_i8 raw) = encode_vec raw (length raw) 1
    encode (vec_u16 raw) = encode_vec raw (length raw / 2) 2
    encode (vec_i16 raw) = encode_vec raw (length raw / 2) 3
    encode (vec_u32 raw) = encode_vec raw (length raw / 4) 4
    encode (vec_i32 raw) = encode_vec raw (length raw / 4) 5
    encode (vec_f32 raw) = encode_vec raw (length raw / 4) 6
    encode (vec_u64 raw) = encode_vec raw (length raw / 8) 7
    encode (vec_i64 raw) = encode_vec raw (length raw / 8) 8
    encode (vec_f64 raw) = encode_vec raw (length raw / 8) 9
    encode (list items) = list_header (items_length items) ++ encode_items items
    encode (map fields) = map_header (fields_length fields) ++ encode_fields fields
    encode (struct_view fields) = map_header (fields_length fields) ++ encode_fields fields
    encode (struct_owned fields) = map_header (fields_length fields) ++ encode_fields fields
    encode (custom name) = 0x81 ∷ (encode_str custom_key ++ encode_str name)

    pub encode_items : Items → Bytes
    encode_items nil = []
    encode_items (cons v rest) = encode v ++ encode_items rest

    pub encode_fields : Fields → Bytes
    encode_fields end = []
    encode_fields (field k v rest) = encode_str k ++ (encode v ++ encode_fields rest)
