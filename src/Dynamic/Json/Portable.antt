-- ===== src/Dynamic/Json/Portable.antt =====
-- dynamic/src/json.rs: the values that survive their writing, and what is read for them.
use zust.Prelude.{◌^◌, ◌<◌, ◌≡◌, false}
use zust.Prelude.Int.{pos, InSigned}
use zust.Dynamic.Value.{
  Dynamic, null, bool, u8, i8, u16, i16, u32, i32, u64, i64, string, string_buf, list, map,
  struct_view, struct_owned, Items, nil, cons, Fields, end, field,
}
use zust.Dynamic.Msgpack.Portable.{has_key}
use zust.Dynamic.Json.Buffer.{Text}
use zust.Dynamic.Json.Maps.{IsText}

-- Integers in the range of i64, texts in UTF-8 without the bytes 8 and 12, lists, and maps and
-- structs with distinct keys.
module _ (t : Text) where
  abbrev mutual
    pub IsJson : Dynamic → Type 0
    IsJson null = Unit
    IsJson (bool b) = Unit
    IsJson (u8 n) = n < 2 ^ 63
    IsJson (i8 z) = InSigned (2 ^ 63) z
    IsJson (u16 n) = n < 2 ^ 63
    IsJson (i16 z) = InSigned (2 ^ 63) z
    IsJson (u32 n) = n < 2 ^ 63
    IsJson (i32 z) = InSigned (2 ^ 63) z
    IsJson (u64 n) = n < 2 ^ 63
    IsJson (i64 z) = InSigned (2 ^ 63) z
    IsJson (string s) = IsText t s
    IsJson (string_buf s) = IsText t s
    IsJson (list items) = AreJson items
    IsJson (map fields) = FieldsJson fields
    IsJson (struct_view fields) = FieldsJson fields
    IsJson (struct_owned fields) = FieldsJson fields
    IsJson _ = ⊥

    pub AreJson : Items → Type 0
    AreJson nil = Unit
    AreJson (cons v rest) = IsJson v × AreJson rest

    pub FieldsJson : Fields → Type 0
    FieldsJson end = Unit
    FieldsJson (field k v rest) = IsText t k × IsJson v × (has_key k rest ≡ false) × FieldsJson rest

-- All integers come back as `i64`, both kinds of text as `string`, structs as maps.
abbrev mutual
  pub read_back : Dynamic → Dynamic
  read_back (u8 n) = i64 (pos n)
  read_back (i8 z) = i64 z
  read_back (u16 n) = i64 (pos n)
  read_back (i16 z) = i64 z
  read_back (u32 n) = i64 (pos n)
  read_back (i32 z) = i64 z
  read_back (u64 n) = i64 (pos n)
  read_back (string_buf s) = string s
  read_back (list items) = list (items_back items)
  read_back (map fields) = map (fields_back fields)
  read_back (struct_view fields) = map (fields_back fields)
  read_back (struct_owned fields) = map (fields_back fields)
  read_back v = v

  pub items_back : Items → Items
  items_back nil = nil
  items_back (cons v rest) = cons (read_back v) (items_back rest)

  pub fields_back : Fields → Fields
  fields_back end = end
  fields_back (field k v rest) = field k (read_back v) (fields_back rest)
