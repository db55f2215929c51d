-- ===== src/Dynamic/Msgpack/Read.antt =====
-- dynamic/src/msgpack.rs: what `decode` is made of: reads of words and slices, typed vectors, maps.
use Prim.Native.Nat.{bit_or}
use zust.Prelude.{
  ℕ, ◌+◌, ◌*◌, ◌^◌, Bool, true, false, [], ◌∷◌, length, get_or, take, drop, ltb, leb, ◌==◌,
  if◌then◌else◌,
}
use zust.Prelude.Outcome.{Outcome, ok, err, panic}
use zust.Dynamic.Value.{
  Bytes, Dynamic, null, bool, string, string_buf, vec_i8, vec_u16, vec_i16, vec_u32, vec_i32,
  vec_f32, vec_u64, vec_i64, vec_f64, map, Items, nil, cons, Fields, end, insert,
}

pub data DecodeErr : Type 0 where
  no_data never_used bad_utf8 : DecodeErr
  bad_ext_tag unknown_tag error_code : ℕ → DecodeErr

abbrev pub Decoded : Type 0 → Type 0
Decoded A = Outcome DecodeErr (A × ℕ)

-- The callers have checked that the bytes are there.
unfoldable pub read_8 : Bytes → ℕ
read_8 raw = get_or raw 0 0

unfoldable pub read_16 : Bytes → ℕ
read_16 raw = bit_or (get_or raw 1 0) (get_or raw 0 0 * 2 ^ 8)

unfoldable pub read_32 : Bytes → ℕ
read_32 raw =
    bit_or (bit_or (bit_or (get_or raw 3 0) (get_or raw 2 0 * 2 ^ 8)) (get_or raw 1 0 * 2 ^ 16))
      (get_or raw 0 0 * 2 ^ 24)

unfoldable pub read_64 : Bytes → ℕ
read_64 raw =
    let low =
      bit_or (bit_or (bit_or (get_or raw 7 0) (get_or raw 6 0 * 2 ^ 8)) (get_or raw 5 0 * 2 ^ 16))
        (get_or raw 4 0 * 2 ^ 24) in
    bit_or
      (bit_or (bit_or (bit_or low (get_or raw 3 0 * 2 ^ 32)) (get_or raw 2 0 * 2 ^ 40))
        (get_or raw 1 0 * 2 ^ 48))
      (get_or raw 0 0 * 2 ^ 56)

-- `&buf[start..]` and `&buf[start..start + len]` panic past the end.
unfoldable pub slice_from : Bytes → ℕ → Outcome DecodeErr Bytes
slice_from buf start = if leb start (length buf) then ok (drop start buf) else panic

unfoldable pub slice : Bytes → ℕ → ℕ → Outcome DecodeErr Bytes
slice buf start len =
    if leb (start + len) (length buf) then ok (take len (drop start buf)) else panic

-- `assert_err!(buf.len() < n, "no data")`, with the first byte counted.
abbrev pub need : {A : Type 0} → ℕ → Bytes → Outcome DecodeErr A → Outcome DecodeErr A
need n rest k = if ltb (length rest + 1) n then err no_data else k

unfoldable pub tag_len : ℕ → Outcome DecodeErr ℕ
tag_len tag =
    if ltb tag 10
    then ok (get_or (0 ∷ 1 ∷ 2 ∷ 2 ∷ 4 ∷ 4 ∷ 4 ∷ 8 ∷ 8 ∷ 8 ∷ []) tag 0)
    else err (bad_ext_tag tag)

unfoldable pub to_vec : Bytes → ℕ → Outcome DecodeErr Dynamic
to_vec buf tag =
    if tag == 1
    then ok (vec_i8 buf)
    else if tag == 2
    then ok (vec_u16 buf)
    else if tag == 3
    then ok (vec_i16 buf)
    else if tag == 4
    then ok (vec_u32 buf)
    else if tag == 5
    then ok (vec_i32 buf)
    else if tag == 6
    then ok (vec_f32 buf)
    else if tag == 7
    then ok (vec_u64 buf)
    else if tag == 8
    then ok (vec_i64 buf)
    else if tag == 9
    then ok (vec_f64 buf)
    else err (unknown_tag tag)

-- The parts that are not in dynamic/src/msgpack.rs: the UTF-8 check and the widening of a float are
-- the standard library's; `display` stands for `to_string` of the values that are neither a text
-- nor `null` nor a bool, a number or a JSON text.
pub record Platform : Type 0 where
  pub valid_utf8 : Bytes → Bool
  pub f32_to_f64 : ℕ → ℕ
  pub display : Dynamic → Bytes

unfoldable pub to_string : Platform → Dynamic → Bytes
to_string p null = b'(' ∷ b')' ∷ []
to_string p (bool true) = b't' ∷ b'r' ∷ b'u' ∷ b'e' ∷ []
to_string p (bool false) = b'f' ∷ b'a' ∷ b'l' ∷ b's' ∷ b'e' ∷ []
to_string p (string s) = s
to_string p (string_buf s) = s
to_string p v = p.display v

-- Keys and values alternate; a key with no value behind it is dropped.
unfoldable pub pairs : Platform → Items → Fields → Fields
pairs p nil acc = acc
pairs p (cons k nil) acc = acc
pairs p (cons k (cons v rest)) acc = pairs p rest (insert (to_string p k) v acc)

unfoldable pub vec_to_map : Platform → Items → Dynamic
vec_to_map p kvs = map (pairs p kvs end)
