-- ===== src/Dynamic/Msgpack/RoundTrip.antt =====
-- dynamic/src/msgpack.rs: what is encoded is decoded.
use native.Mathlib.Numerals.{add-one}
use zust.Prelude.{
  ℕ, zero, suc, ◌*◌, ◌/◌, ◌^◌, ◌≤◌, ◌<◌, ◌≡◌, refl, ◌∙◌, ap, subst, arith, true, false, [], ◌∷◌,
  ◌++◌, length, length-append, append-nil,
}
use zust.Prelude.Int.{ℤ, pos, negsuc, of_word, InSigned}
use zust.Prelude.Outcome.{ok}
use zust.Dynamic.Value.{
  Bytes, Dynamic, null, bool, u8, i8, u16, i16, u32, i32, u64, i64, f16, f32, f64, string,
  string_buf, bytes, vec_i8, vec_u16, vec_i16, vec_u32, vec_i32, vec_f32, vec_u64, vec_i64, vec_f64,
  list, map, struct_view, struct_owned, custom, iter, Items, nil, cons, Fields, end, field,
  items_length, fields_length, insert,
}
use zust.Dynamic.Msgpack.Encode.{
  encode, encode_items, encode_fields, encode_str, encode_vec, map_header, list_header, write_32,
  write_64, custom_key,
}
use zust.Dynamic.Msgpack.Read.{Platform, Decoded, pairs, to_string, vec_to_map, tag_len, to_vec}
use zust.Dynamic.Msgpack.Decode.{decode_first, decode}
use zust.Dynamic.Msgpack.Total.{decode_fuel-cons}
use zust.Dynamic.Msgpack.Numbers.{Reads, i64_Reads, read_f32, read_f64}
use zust.Dynamic.Msgpack.Blobs.{str_Reads, bytes_Reads, vec_Reads}
use zust.Dynamic.Msgpack.Collections.{joined, values, AllRead, list_Reads, map_Reads}
use zust.Dynamic.Msgpack.Maps.{chunks_items, chunks_fields, vec_to_map-chunks}
use zust.Dynamic.Msgpack.Portable.{
  IsText, IsVec, IsPortable, ArePortable, FieldsPortable, decoded, decoded_items, decoded_fields,
  height, items_height, fields_height,
}

InSigned-mono : (a b : ℕ) (z : ℤ) → a ≤ b → InSigned a z → InSigned b z
InSigned-mono a b (pos n) h i = omega arith
InSigned-mono a b (negsuc n) h i = omega arith

of_word-InSigned : (half w : ℕ) → w < 2 * half → InSigned half (of_word half w)
of_word-InSigned half w h = ground arith

module _ (f16_to_f64 : ℕ → ℕ) (p : Platform) where
  -- The chunks of a list and of a map are their encodings.
  joined-chunks_items :
      (items : Items) → joined (chunks_items f16_to_f64 p items) ≡ encode_items f16_to_f64 items
  unfolding chunks_items encode
  joined-chunks_items nil = refl
  joined-chunks_items (cons v rest) = ap (λ t. encode f16_to_f64 v ++ t) (joined-chunks_items rest)

  joined-chunks_fields :
      (fs : Fields) → joined (chunks_fields f16_to_f64 p fs) ≡ encode_fields f16_to_f64 fs
  unfolding chunks_fields encode
  joined-chunks_fields end = refl
  joined-chunks_fields (field k v rest) =
      ap (λ t. encode_str k ++ (encode f16_to_f64 v ++ t)) (joined-chunks_fields rest)

  length-chunks_items :
      (items : Items) → length (chunks_items f16_to_f64 p items) ≡ items_length items
  unfolding chunks_items
  length-chunks_items nil = refl
  length-chunks_items (cons v rest) = ap suc (length-chunks_items rest)

  length-chunks_fields :
      (fs : Fields) → fields_length fs * 2 ≡ length (chunks_fields f16_to_f64 p fs)
  unfolding chunks_fields
  length-chunks_fields end = refl
  length-chunks_fields (field k v rest) = omega (arith, length-chunks_fields rest)

  values-chunks_items :
      (items : Items) → values (chunks_items f16_to_f64 p items) ≡ decoded_items f16_to_f64 p items
  unfolding chunks_items
  values-chunks_items nil = refl
  values-chunks_items (cons v rest) = ap (cons (decoded f16_to_f64 p v)) (values-chunks_items rest)

  -- From the elements to the list and to the map.
  items_Reads :
      (items : Items) (fuel : ℕ)
      → items_length items < 2 ^ 32
      → AllRead p fuel (chunks_items f16_to_f64 p items)
      → Reads p
          (suc fuel)
          (encode f16_to_f64 (list items))
          (list (decoded_items f16_to_f64 p items))
  unfolding encode
  items_Reads items fuel h read =
      rw (← length-chunks_items items, ← joined-chunks_items items, ← values-chunks_items items)
        (list_Reads p fuel (chunks_items f16_to_f64 p items) read
          (omega (arith, length-chunks_items items)))

  fields_Reads :
      (fs : Fields) (fuel : ℕ)
      → (fields_length fs < 2 ^ 32) × FieldsPortable f16_to_f64 p fs
      → AllRead p fuel (chunks_fields f16_to_f64 p fs)
      → Reads p (suc fuel) (encode f16_to_f64 (map fs)) (map (decoded_fields f16_to_f64 p fs))
  unfolding encode
  fields_Reads fs fuel h read =
      rw (← joined-chunks_fields fs, ← vec_to_map-chunks f16_to_f64 p fs h.1)
        (map_Reads p fuel (chunks_fields f16_to_f64 p fs) read (fields_length fs)
          (length-chunks_fields fs) h.0)

  read_null :
      (dec : Bytes → Decoded Dynamic) (rest : Bytes) → decode_first p dec 0xc0 rest ≡ ok (null, 1)
  unfolding decode_first
  read_null dec rest = refl

  read_true :
      (dec : Bytes → Decoded Dynamic) (rest : Bytes)
      → decode_first p dec 0xc3 rest ≡ ok (bool true, 1)
  unfolding decode_first
  read_true dec rest = refl

  read_false :
      (dec : Bytes → Decoded Dynamic) (rest : Bytes)
      → decode_first p dec 0xc2 rest ≡ ok (bool false, 1)
  unfolding decode_first
  read_false dec rest = refl

  -- A custom value is written as a map with one entry.
  custom_Reads :
      (name : Bytes) (fuel : ℕ)
      → IsText p custom_key × IsText p name
      → Reads p
          (suc fuel)
          (encode f16_to_f64 (custom name))
          (map (field custom_key (string name) end))
  unfolding encode map_header vec_to_map pairs to_string insert
  custom_Reads name fuel h = rw (← append-nil (encode_str name)) (
      map_Reads p fuel
        ((encode_str custom_key, string custom_key) ∷ (encode_str name, string name) ∷ [])
        (str_Reads p fuel custom_key h.0.1 h.0.0, (str_Reads p fuel name h.1.1 h.1.0, tt)) 1 refl
        (omega arith))

  -- A typed vector of the element code `tag`.
  typed_Reads :
      (fuel : ℕ) (raw : Bytes) (width tag : ℕ) (v : Dynamic)
      → length raw ≡ length raw / width * width
      → tag_len tag ≡ ok width
      → to_vec raw tag ≡ ok v
      → IsVec width raw
      → Reads p fuel (encode_vec raw (length raw / width) tag) v
  typed_Reads fuel raw width tag v sized w made h =
      vec_Reads p fuel raw (length raw / width) width tag v sized w made h.1 h.2

  mutual
    unfolding encode tag_len to_vec chunks_items chunks_fields

    encode-Reads :
        (v : Dynamic) (fuel : ℕ)
        → IsPortable f16_to_f64 p v
        → height v ≤ fuel
        → Reads p fuel (encode f16_to_f64 v) (decoded f16_to_f64 p v)
    encode-Reads null fuel h d = λ rest. decode_fuel-cons p fuel 0xc0 rest ∙ read_null _ rest
    encode-Reads (bool true) fuel h d = λ rest. decode_fuel-cons p fuel 0xc3 rest ∙ read_true _ rest
    encode-Reads (bool false) fuel h d =
        λ rest. decode_fuel-cons p fuel 0xc2 rest ∙ read_false _ rest
    encode-Reads (u8 n) fuel h d = i64_Reads p fuel (pos n) (omega arith)
    encode-Reads (i8 z) fuel h d =
        i64_Reads p fuel z (InSigned-mono (2 ^ 7) (2 ^ 63) z (omega arith) h)
    encode-Reads (u16 n) fuel h d = i64_Reads p fuel (pos n) (omega arith)
    encode-Reads (i16 z) fuel h d =
        i64_Reads p fuel z (InSigned-mono (2 ^ 15) (2 ^ 63) z (omega arith) h)
    encode-Reads (u32 n) fuel h d = i64_Reads p fuel (pos n) (omega arith)
    encode-Reads (i32 z) fuel h d =
        i64_Reads p fuel z (InSigned-mono (2 ^ 31) (2 ^ 63) z (omega arith) h)
    encode-Reads (u64 n) fuel h d =
        i64_Reads p fuel (of_word (2 ^ 63) n) (of_word-InSigned (2 ^ 63) n h)
    encode-Reads (i64 z) fuel h d = i64_Reads p fuel z h
    encode-Reads (f16 b) fuel h d = λ rest.
        decode_fuel-cons p fuel 0xcb (write_64 (f16_to_f64 b) ++ rest)
        ∙ read_f64 p _ rest (f16_to_f64 b) h
    encode-Reads (f32 b) fuel h d =
        λ rest. decode_fuel-cons p fuel 0xca (write_32 b ++ rest) ∙ read_f32 p _ rest b h
    encode-Reads (f64 b) fuel h d =
        λ rest. decode_fuel-cons p fuel 0xcb (write_64 b ++ rest) ∙ read_f64 p _ rest b h
    encode-Reads (string s) fuel h d = str_Reads p fuel s h.1 h.0
    encode-Reads (string_buf s) fuel h d = str_Reads p fuel s h.1 h.0
    encode-Reads (bytes raw) fuel h d = bytes_Reads p fuel raw h
    encode-Reads (vec_i8 raw) fuel h d =
        subst (λ n. Reads p fuel (encode_vec raw n 1) (vec_i8 raw)) (omega arith)
          (typed_Reads fuel raw 1 1 (vec_i8 raw) (omega arith) refl refl h)
    encode-Reads (vec_u16 raw) fuel h d =
        typed_Reads fuel raw 2 2 (vec_u16 raw) (omega arith) refl refl h
    encode-Reads (vec_i16 raw) fuel h d =
        typed_Reads fuel raw 2 3 (vec_i16 raw) (omega arith) refl refl h
    encode-Reads (vec_u32 raw) fuel h d =
        typed_Reads fuel raw 4 4 (vec_u32 raw) (omega arith) refl refl h
    encode-Reads (vec_i32 raw) fuel h d =
        typed_Reads fuel raw 4 5 (vec_i32 raw) (omega arith) refl refl h
    encode-Reads (vec_f32 raw) fuel h d =
        typed_Reads fuel raw 4 6 (vec_f32 raw) (omega arith) refl refl h
    encode-Reads (vec_u64 raw) fuel h d =
        typed_Reads fuel raw 8 7 (vec_u64 raw) (omega arith) refl refl h
    encode-Reads (vec_i64 raw) fuel h d =
        typed_Reads fuel raw 8 8 (vec_i64 raw) (omega arith) refl refl h
    encode-Reads (vec_f64 raw) fuel h d =
        typed_Reads fuel raw 8 9 (vec_f64 raw) (omega arith) refl refl h
    encode-Reads (list items) zero h d = absurd (omega arith)
    encode-Reads (list items) (suc fuel) h d =
        items_Reads items fuel h.0 (encode_items_Reads items fuel h.1 (omega arith))
    encode-Reads (map fields) zero h d = absurd (omega arith)
    encode-Reads (map fields) (suc fuel) h d =
        fields_Reads fields fuel h (encode_fields_Reads fields fuel h.1 (omega arith))
    encode-Reads (struct_view fields) zero h d = absurd (omega arith)
    encode-Reads (struct_view fields) (suc fuel) h d =
        fields_Reads fields fuel h (encode_fields_Reads fields fuel h.1 (omega arith))
    encode-Reads (struct_owned fields) zero h d = absurd (omega arith)
    encode-Reads (struct_owned fields) (suc fuel) h d =
        fields_Reads fields fuel h (encode_fields_Reads fields fuel h.1 (omega arith))
    encode-Reads (custom name) zero h d = absurd (omega arith)
    encode-Reads (custom name) (suc fuel) h d = custom_Reads name fuel h
    encode-Reads iter fuel h d = absurd h

    encode_items_Reads :
        (items : Items) (fuel : ℕ)
        → ArePortable f16_to_f64 p items
        → items_height items ≤ fuel
        → AllRead p fuel (chunks_items f16_to_f64 p items)
    encode_items_Reads nil fuel h d = tt
    encode_items_Reads (cons v rest) fuel h d =
        (encode-Reads v fuel h.0 (omega arith), encode_items_Reads rest fuel h.1 (omega arith))

    encode_fields_Reads :
        (fs : Fields) (fuel : ℕ)
        → FieldsPortable f16_to_f64 p fs
        → fields_height fs ≤ fuel
        → AllRead p fuel (chunks_fields f16_to_f64 p fs)
    encode_fields_Reads end fuel h d = tt
    encode_fields_Reads (field k v rest) fuel h d = (
      str_Reads p fuel k h.0.1 h.0.0,
      (encode-Reads v fuel h.1 (omega arith), encode_fields_Reads rest fuel h.3 (omega arith)),
    )

-- The fuel that `decode` starts with is enough: every level of nesting takes a byte.
abbrev NonEmpty : Bytes → Type 0
NonEmpty bs = 1 ≤ length bs

header_NonEmpty : (n : ℕ) → NonEmpty (list_header n) × NonEmpty (map_header n)
unfolding list_header map_header
header_NonEmpty n = ground arith

module _ (f16_to_f64 : ℕ → ℕ) where
  mutual
    unfolding encode

    height-le : (v : Dynamic) → height v ≤ length (encode f16_to_f64 v)
    height-le (list items) = omega (
      arith,
      header_NonEmpty (items_length items),
      items_height-le items,
      length-append (list_header (items_length items)) (encode_items f16_to_f64 items),
    )
    height-le (map fs) = omega (
      arith,
      header_NonEmpty (fields_length fs),
      fields_height-le fs,
      length-append (map_header (fields_length fs)) (encode_fields f16_to_f64 fs),
    )
    height-le (struct_view fs) = omega (
      arith,
      header_NonEmpty (fields_length fs),
      fields_height-le fs,
      length-append (map_header (fields_length fs)) (encode_fields f16_to_f64 fs),
    )
    height-le (struct_owned fs) = omega (
      arith,
      header_NonEmpty (fields_length fs),
      fields_height-le fs,
      length-append (map_header (fields_length fs)) (encode_fields f16_to_f64 fs),
    )
    height-le (custom name) = omega arith
    height-le _ = omega arith

    items_height-le : (items : Items) → items_height items ≤ length (encode_items f16_to_f64 items)
    items_height-le nil = omega arith
    items_height-le (cons v rest) = omega (
      arith,
      height-le v,
      items_height-le rest,
      length-append (encode f16_to_f64 v) (encode_items f16_to_f64 rest),
    )

    fields_height-le : (fs : Fields) → fields_height fs ≤ length (encode_fields f16_to_f64 fs)
    fields_height-le end = omega arith
    fields_height-le (field k v rest) = omega (
      arith,
      height-le v,
      fields_height-le rest,
      length-append (encode_str k) (encode f16_to_f64 v ++ encode_fields f16_to_f64 rest),
      length-append (encode f16_to_f64 v) (encode_fields f16_to_f64 rest),
    )

-- A portable value that is encoded, with any bytes behind it, is decoded to its normal form, and
-- exactly its own bytes are used.
pub decode-encode :
    (f16_to_f64 : ℕ → ℕ) (p : Platform) (v : Dynamic) (rest : Bytes)
    → IsPortable f16_to_f64 p v
    → decode p (encode f16_to_f64 v ++ rest)
      ≡ ok (decoded f16_to_f64 p v, length (encode f16_to_f64 v))
unfolding decode
decode-encode f16_to_f64 p v rest h = rw (add-one (length (encode f16_to_f64 v ++ rest))) (
    encode-Reads f16_to_f64 p v (length (encode f16_to_f64 v ++ rest)) h
      (omega (arith, height-le f16_to_f64 v, length-append (encode f16_to_f64 v) rest)) rest)
