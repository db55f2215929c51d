-- ===== src/Dynamic/Value.antt =====
-- dynamic/src/lib.rs: the values of the language, as far as their encodings read them. A text is
-- the list of its UTF-8 bytes, a float is its bit pattern, and a typed vector is the bytes of its
-- elements. Of a struct in memory there are the names and the values of its fields, of a custom
-- value its type name; an iterator has no encoding, so nothing of it is kept.
use zust.Prelude.{ℕ, suc, Bool, true, false, ◌&&◌, List, [], ◌∷◌, ◌==◌, if◌then◌else◌}
use zust.Prelude.Int.{ℤ}

abbrev pub Bytes : Type 0
Bytes = List ℕ

mutual
  pub data Dynamic : Type 0 where
    null : Dynamic
    bool : Bool → Dynamic
    u8 : ℕ → Dynamic
    i8 : ℤ → Dynamic
    u16 : ℕ → Dynamic
    i16 : ℤ → Dynamic
    u32 : ℕ → Dynamic
    i32 : ℤ → Dynamic
    u64 : ℕ → Dynamic
    i64 : ℤ → Dynamic
    f16 : ℕ → Dynamic
    f32 : ℕ → Dynamic
    f64 : ℕ → Dynamic
    string : Bytes → Dynamic
    string_buf : Bytes → Dynamic
    bytes : Bytes → Dynamic
    vec_i8 : Bytes → Dynamic
    vec_u16 : Bytes → Dynamic
    vec_i16 : Bytes → Dynamic
    vec_u32 : Bytes → Dynamic
    vec_i32 : Bytes → Dynamic
    vec_f32 : Bytes → Dynamic
    vec_u64 : Bytes → Dynamic
    vec_i64 : Bytes → Dynamic
    vec_f64 : Bytes → Dynamic
    list : Items → Dynamic
    map : Fields → Dynamic
    struct_view : Fields → Dynamic
    struct_owned : Fields → Dynamic
    custom : Bytes → Dynamic
    iter : Dynamic

  pub data Items : Type 0 where
    nil : Items
    cons : Dynamic → Items → Items

  pub data Fields : Type 0 where
    end : Fields
    field : Bytes → Dynamic → Fields → Fields

abbrev pub items_length : Items → ℕ
items_length nil = 0
items_length (cons v rest) = suc (items_length rest)

abbrev pub fields_length : Fields → ℕ
fields_length end = 0
fields_length (field k v rest) = suc (fields_length rest)

unfoldable pub same_text : Bytes → Bytes → Bool
same_text [] [] = true
same_text (a ∷ x) (b ∷ y) = a == b && same_text x y
same_text _ _ = false

-- `IndexMap::insert`: a known key keeps its place and gets the new value.
unfoldable pub insert : Bytes → Dynamic → Fields → Fields
insert k v end = field k v end
insert k v (field j w rest) = if same_text j k then field j v rest else field j w (insert k v rest)
