-- ===== src/Dynamic/Msgpack/Portable.antt =====
-- dynamic/src/msgpack.rs: the values that survive their encoding, and what comes back for them.
use zust.Prelude.{ℕ, suc, ◌/◌, ◌%◌, ◌^◌, ◌≤◌, ◌<◌, ◌≡◌, max, Bool, true, false, ◌||◌}
use zust.Prelude.Int.{pos, of_word, InSigned}
use zust.Prelude.{length}
use zust.Dynamic.Value.{
  Bytes, Dynamic, null, bool, u8, i8, u16, i16, u32, i32, u64, i64, f16, f32, f64, string,
  string_buf, bytes, vec_i8, vec_u16, vec_i16, vec_u32, vec_i32, vec_f32, vec_u64, vec_i64, vec_f64,
  list, map, struct_view, struct_owned, custom, iter, Items, nil, cons, Fields, end, field,
  items_length, fields_length, same_text,
}
use zust.Dynamic.Msgpack.Encode.{custom_key}
use zust.Dynamic.Msgpack.Read.{Platform}

unfoldable pub has_key : Bytes → Fields → Bool
has_key k end = false
has_key k (field j v rest) = same_text j k || has_key k rest

abbrev pub IsText : Platform → Bytes → Type 0
IsText p s = (p.valid_utf8 s ≡ true) × (length s < 2 ^ 32)

-- The bytes of whole elements, four at least, and less than 2^32 elements.
abbrev pub IsVec : ℕ → Bytes → Type 0
IsVec width raw = (length raw % width ≡ 0) × (4 ≤ length raw) × (length raw / width < 2 ^ 32)

-- Values in the range of their types, texts in UTF-8, no length of 2^32 or more, typed vectors of
-- four bytes at least, distinct keys, and no iterator.
module _ (f16_to_f64 : ℕ → ℕ) (p : Platform) where
  abbrev mutual
    pub IsPortable : Dynamic → Type 0
    IsPortable null = Unit
    IsPortable (bool b) = Unit
    IsPortable (u8 n) = n < 2 ^ 8
    IsPortable (i8 z) = InSigned (2 ^ 7) z
    IsPortable (u16 n) = n < 2 ^ 16
    IsPortable (i16 z) = InSigned (2 ^ 15) z
    IsPortable (u32 n) = n < 2 ^ 32
    IsPortable (i32 z) = InSigned (2 ^ 31) z
    IsPortable (u64 n) = n < 2 ^ 64
    IsPortable (i64 z) = InSigned (2 ^ 63) z
    IsPortable (f16 b) = f16_to_f64 b < 2 ^ 64
    IsPortable (f32 b) = b < 2 ^ 32
    IsPortable (f64 b) = b < 2 ^ 64
    IsPortable (string s) = IsText p s
    IsPortable (string_buf s) = IsText p s
    IsPortable (bytes raw) = length raw < 2 ^ 32
    IsPortable (vec_i8 raw) = IsVec 1 raw
    IsPortable (vec_u16 raw) = IsVec 2 raw
    IsPortable (vec_i16 raw) = IsVec 2 raw
    IsPortable (vec_u32 raw) = IsVec 4 raw
    IsPortable (vec_i32 raw) = IsVec 4 raw
    IsPortable (vec_f32 raw) = IsVec 4 raw
    IsPortable (vec_u64 raw) = IsVec 8 raw
    IsPortable (vec_i64 raw) = IsVec 8 raw
    IsPortable (vec_f64 raw) = IsVec 8 raw
    IsPortable (list items) = (items_length items < 2 ^ 32) × ArePortable items
    IsPortable (map fields) = (fields_length fields < 2 ^ 32) × FieldsPortable fields
    IsPortable (struct_view fields) = (fields_length fields < 2 ^ 32) × FieldsPortable fields
    IsPortable (struct_owned fields) = (fields_length fields < 2 ^ 32) × FieldsPortable fields
    IsPortable (custom name) = IsText p custom_key × IsText p name
    IsPortable iter = ⊥

    pub ArePortable : Items → Type 0
    ArePortable nil = Unit
    ArePortable (cons v rest) = IsPortable v × ArePortable rest

    pub FieldsPortable : Fields → Type 0
    FieldsPortable end = Unit
    FieldsPortable (field k v rest) =
        IsText p k × IsPortable v × (has_key k rest ≡ false) × FieldsPortable rest

  -- All integers come back as `i64`, a `u64` of 2^63 or more as the negative number of the same
  -- bits; all floats as `f64`; both kinds of text as `string`; structs as maps; a custom value as a
  -- map that holds its type's name.
  abbrev mutual
    pub decoded : Dynamic → Dynamic
    decoded null = null
    decoded (bool b) = bool b
    decoded (u8 n) = i64 (pos n)
    decoded (i8 z) = i64 z
    decoded (u16 n) = i64 (pos n)
    decoded (i16 z) = i64 z
    decoded (u32 n) = i64 (pos n)
    decoded (i32 z) = i64 z
    decoded (u64 n) = i64 (of_word (2 ^ 63) n)
    decoded (i64 z) = i64 z
    decoded (f16 b) = f64 (f16_to_f64 b)
    decoded (f32 b) = f64 (p.f32_to_f64 b)
    decoded (f64 b) = f64 b
    decoded (string s) = string s
    decoded (string_buf s) = string s
    decoded (bytes raw) = bytes raw
    decoded (vec_i8 raw) = vec_i8 raw
    decoded (vec_u16 raw) = vec_u16 raw
    decoded (vec_i16 raw) = vec_i16 raw
    decoded (vec_u32 raw) = vec_u32 raw
    decoded (vec_i32 raw) = vec_i32 raw
    decoded (vec_f32 raw) = vec_f32 raw
    decoded (vec_u64 raw) = vec_u64 raw
    decoded (vec_i64 raw) = vec_i64 raw
    decoded (vec_f64 raw) = vec_f64 raw
    decoded (list items) = list (decoded_items items)
    decoded (map fields) = map (decoded_fields fields)
    decoded (struct_view fields) = map (decoded_fields fields)
    decoded (struct_owned fields) = map (decoded_fields fields)
    decoded (custom name) = map (field custom_key (string name) end)
    decoded iter = iter

    pub decoded_items : Items → Items
    decoded_items nil = nil
    decoded_items (cons v rest) = cons (decoded v) (decoded_items rest)

    pub decoded_fields : Fields → Fields
    decoded_fields end = end
    decoded_fields (field k v rest) = field k (decoded v) (decoded_fields rest)

-- How deep lists and maps nest.
abbrev mutual
  pub height : Dynamic → ℕ
  height (list items) = suc (items_height items)
  height (map fields) = suc (fields_height fields)
  height (struct_view fields) = suc (fields_height fields)
  height (struct_owned fields) = suc (fields_height fields)
  height (custom name) = 1
  height _ = 0

  pub items_height : Items → ℕ
  items_height nil = 0
  items_height (cons v rest) = max (height v) (items_height rest)

  pub fields_height : Fields → ℕ
  fields_height end = 0
  fields_height (field k v rest) = max (height v) (fields_height rest)
