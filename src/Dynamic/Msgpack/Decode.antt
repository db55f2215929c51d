-- ===== src/Dynamic/Msgpack/Decode.antt =====
-- dynamic/src/msgpack.rs, `MsgUnpack::decode`. The tests of the first byte stand in the source's
-- order, in groups. `rest` is the buffer behind the first byte.
use Prim.Native.Nat.{bit_and}
use zust.Prelude.{
  ℕ, zero, suc, ◌+◌, ◌-◌, ◌*◌, ◌^◌, true, false, ◌&&◌, [], ◌∷◌, length, drop, leb, ◌==◌,
  if◌then◌else◌,
}
use zust.Prelude.Int.{pos, negsuc, of_word}
use zust.Prelude.Outcome.{ok, err, stuck, ◌>>=◌}
use zust.Dynamic.Value.{Bytes, Dynamic, null, bool, i64, f64, string, bytes, list, Items, nil, cons}
use zust.Dynamic.Msgpack.Read.{
  Decoded, no_data, never_used, bad_utf8, error_code, read_8, read_16, read_32, read_64, slice_from,
  slice, need, tag_len, to_vec, Platform, vec_to_map,
}

-- The loop of `decode_array`, with the decoder that it calls.
unfoldable pub decode_array : (Bytes → Decoded Dynamic) → ℕ → Bytes → ℕ → Decoded Items
decode_array dec zero buf cursor = ok (nil, cursor)
decode_array dec (suc n) buf cursor = do
  here ← slice_from buf cursor
  (value, size) ← dec here
  (values, stop) ← decode_array dec n buf (cursor + size)
  ok (cons value values, stop)

module _ (p : Platform) where
  -- `Dynamic::from_utf8` of a slice, as the whole result of `decode`.
  unfoldable pub text : Bytes → ℕ → ℕ → ℕ → Decoded Dynamic
  text rest start len size = do
    raw ← slice rest start len
    if p.valid_utf8 raw then ok (string raw, size) else err bad_utf8

  unfoldable pub raw_bytes : Bytes → ℕ → ℕ → ℕ → Decoded Dynamic
  raw_bytes rest start len size = do raw ← slice rest start len; ok (bytes raw, size)

  -- A typed vector of `len` elements behind a header of `start + 1` bytes.
  unfoldable pub typed : Bytes → ℕ → ℕ → ℕ → Decoded Dynamic
  typed rest start len tag = do
    width ← tag_len tag
    raw ← slice rest start (len * width)
    value ← to_vec raw tag
    ok (value, start + 1 + len * width)

  module _ (dec : Bytes → Decoded Dynamic) where
    -- A list or a map behind a header of `start + 1` bytes.
    unfoldable pub elements : Bytes → ℕ → ℕ → Decoded Dynamic
    elements rest start len = do
      body ← slice_from rest start
      (items, size) ← decode_array dec len body 0
      ok (list items, start + 1 + size)

    unfoldable pub entries : Bytes → ℕ → ℕ → Decoded Dynamic
    entries rest start len = do
      body ← slice_from rest start
      (items, size) ← decode_array dec (len * 2) body 0
      ok (vec_to_map p items, start + 1 + size)

    unfoldable pub decode_collections : ℕ → Bytes → Decoded Dynamic
    decode_collections first rest =
        if first == 0xdc
        then need 3 rest (elements rest 2 (read_16 rest))
        else if first == 0xdd
        then need 5 rest (elements rest 4 (read_32 rest))
        else if first == 0xde
        then need 3 rest (entries rest 2 (read_16 rest))
        else if first == 0xdf
        then need 5 rest (entries rest 4 (read_32 rest))
        else err (error_code first)

    unfoldable pub decode_texts : ℕ → Bytes → Decoded Dynamic
    decode_texts first rest =
        if first == 0xd9
        then need 2 rest (let n = read_8 rest in need (2 + n) rest (text rest 1 n (2 + n)))
        else if first == 0xda
        then need 3 rest (let n = read_16 rest in need (3 + n) rest (text rest 2 n (3 + n)))
        else if first == 0xdb
        then need 5 rest (let n = read_32 rest in need (5 + n) rest (text rest 4 n (5 + n)))
        else decode_collections first rest

    unfoldable pub decode_fixext : ℕ → Bytes → Decoded Dynamic
    decode_fixext first rest =
        if first == 0xd4
        then need 3 rest (ok (null, 3))
        else if first == 0xd5
        then need 4 rest (ok (null, 4))
        else if first == 0xd6
        then need 6 rest (ok (null, 6))
        else if first == 0xd7
        then need 10 rest (ok (null, 10))
        else if first == 0xd8
        then need 18 rest (ok (null, 18))
        else decode_texts first rest

    unfoldable pub decode_numbers : ℕ → Bytes → Decoded Dynamic
    decode_numbers first rest =
        if first == 0xca
        then need 5 rest (ok (f64 (p.f32_to_f64 (read_32 rest)), 5))
        else if first == 0xcb
        then need 9 rest (ok (f64 (read_64 rest), 9))
        else if first == 0xd0
        then need 2 rest (ok (i64 (of_word (2 ^ 7) (read_8 rest)), 2))
        else if first == 0xcd
        then need 3 rest (ok (i64 (pos (read_16 rest)), 3))
        else if first == 0xce
        then need 5 rest (ok (i64 (pos (read_32 rest)), 5))
        else if first == 0xcf
        then need 9 rest (ok (i64 (of_word (2 ^ 63) (read_64 rest)), 9))
        else if first == 0xd3
        then need 9 rest (ok (i64 (of_word (2 ^ 63) (read_64 rest)), 9))
        else if first == 0xd1
        then need 3 rest (ok (i64 (of_word (2 ^ 15) (read_16 rest)), 3))
        else if first == 0xd2
        then need 5 rest (ok (i64 (of_word (2 ^ 31) (read_32 rest)), 5))
        else decode_fixext first rest

    unfoldable pub decode_blobs : ℕ → Bytes → Decoded Dynamic
    decode_blobs first rest =
        if first == 0xc4
        then need 2 rest (let n = read_8 rest in need (2 + n) rest (raw_bytes rest 1 n (2 + n)))
        else if first == 0xc5
        then need 3 rest (let n = read_16 rest in need (3 + n) rest (raw_bytes rest 2 n (3 + n)))
        else if first == 0xc6
        then need 5 rest (let n = read_32 rest in need (5 + n) rest (raw_bytes rest 4 n (5 + n)))
        else if first == 0xc7
        then need 7 rest (typed rest 2 (read_8 rest) (read_8 (drop 1 rest)))
        else if first == 0xc8
        then need 8 rest (typed rest 3 (read_16 rest) (read_8 (drop 2 rest)))
        else if first == 0xc9
        then need 10 rest (typed rest 5 (read_32 rest) (read_8 (drop 4 rest)))
        else decode_numbers first rest

    unfoldable pub decode_first : ℕ → Bytes → Decoded Dynamic
    decode_first first rest =
        if leb first 0x7f
        then ok (i64 (pos first), 1)
        else if leb 0xe0 first
        then ok (i64 (negsuc (255 - first)), 1)
        else if leb 0x80 first && leb first 0x8f
        then entries rest 0 (bit_and first 0x0f)
        else if leb 0x90 first && leb first 0x9f
        then elements rest 0 (bit_and first 0x0f)
        else if leb 0xa0 first && leb first 0xbf
        then (let n = bit_and first 0x1f in need (1 + n) rest (text rest 0 n (1 + n)))
        else if first == 0xc0
        then ok (null, 1)
        else if first == 0xc1
        then err never_used
        else if first == 0xc2
        then ok (bool false, 1)
        else if first == 0xc3
        then ok (bool true, 1)
        else decode_blobs first rest

  -- The fuel bounds the depth of nesting.
  unfoldable pub decode_fuel : ℕ → Bytes → Decoded Dynamic
  unfolding decode_first decode_blobs decode_numbers decode_fixext decode_texts decode_collections
  decode_fuel zero buf = stuck
  decode_fuel (suc fuel) [] = err no_data
  decode_fuel (suc fuel) (first ∷ rest) = decode_first (decode_fuel fuel) first rest

  -- A value takes a byte at least, so the length of the buffer bounds the depth
  -- (`decode_total`).
  unfoldable pub decode : Bytes → Decoded Dynamic
  unfolding decode_fuel
  decode buf = decode_fuel (length buf + 1) buf
