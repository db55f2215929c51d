-- ===== src/Dynamic/Json/Write.antt =====
-- dynamic/src/json.rs, `ToJson for Dynamic`: each function gives the bytes that the source appends
-- to its buffer.
use zust.Prelude.{
  ℕ, zero, suc, ◌+◌, ◌*◌, ◌/◌, ◌^◌, Bool, true, false, List, [], ◌∷◌, ◌++◌, length, drop, get_or,
}
use zust.Prelude.Int.{pos, of_word}
use zust.Dynamic.Value.{
  Bytes, Dynamic, null, bool, u8, i8, u16, i16, u32, i32, u64, i64, f16, f32, f64, string,
  string_buf, bytes, vec_i8, vec_u16, vec_i16, vec_u32, vec_i32, vec_f32, vec_u64, vec_i64, vec_f64,
  list, map, struct_view, struct_owned, custom, iter, Items, nil, cons, Fields, end, field,
}
use zust.Dynamic.Json.Buffer.{Text}
use zust.Dynamic.Json.Strings.{str_to_json}
use zust.Dynamic.Json.Numbers.{int_to_string}

-- `ZOnce::new("", ",")` before its first `take`, and after it.
unfoldable pub take_once : Bool → Bytes
take_once true = []
take_once false = b',' ∷ []

-- `count` elements of `width` bytes each, the low byte first
unfoldable pub vec_word : ℕ → Bytes → ℕ
vec_word zero raw = 0
vec_word (suc width) raw = get_or raw 0 0 + 256 * vec_word width (drop 1 raw)

unfoldable pub vec_words : ℕ → ℕ → Bytes → List ℕ
vec_words zero width raw = []
vec_words (suc count) width raw = vec_word width raw ∷ vec_words count width (drop width raw)

-- `vec_to_json!`, with the text of one element.
unfoldable pub vec_items : (ℕ → Bytes) → Bool → List ℕ → Bytes
vec_items show first [] = []
vec_items show first (x ∷ xs) = take_once first ++ (show x ++ vec_items show false xs)

unfoldable pub vec_to_json : (ℕ → Bytes) → ℕ → Bytes → Bytes
vec_to_json show width raw =
    b'[' ∷ vec_items show true (vec_words (length raw / width) width raw) ++ b']' ∷ []

unfoldable pub show_unsigned : ℕ → Bytes
show_unsigned n = int_to_string (pos n)

unfoldable pub show_signed : ℕ → ℕ → Bytes
show_signed half w = int_to_string (of_word half w)

abbrev pub custom_prefix : Bytes
custom_prefix = b'{' ∷ b'"' ∷ b'@' ∷ b'c' ∷ b'u' ∷ b's' ∷ b't' ∷ b'o' ∷ b'm' ∷ b'"' ∷ b':' ∷ []

module _ (f16_to_f64 : ℕ → ℕ) (t : Text) where
  unfoldable mutual
    pub to_json : Dynamic → Bytes
    to_json iter = []
    to_json (bool true) = b't' ∷ b'r' ∷ b'u' ∷ b'e' ∷ []
    to_json (bool false) = b'f' ∷ b'a' ∷ b'l' ∷ b's' ∷ b'e' ∷ []
    to_json (f16 bits) = t.f64_to_string (f16_to_f64 bits)
    to_json (f32 bits) = t.f32_to_string bits
    to_json (f64 bits) = t.f64_to_string bits
    to_json (i8 z) = int_to_string z
    to_json (i16 z) = int_to_string z
    to_json (i32 z) = int_to_string z
    to_json (i64 z) = int_to_string z
    to_json (u8 n) = show_unsigned n
    to_json (u16 n) = show_unsigned n
    to_json (u32 n) = show_unsigned n
    to_json (u64 n) = show_unsigned n
    to_json null = b'n' ∷ b'u' ∷ b'l' ∷ b'l' ∷ []
    to_json (string s) = str_to_json s
    to_json (string_buf s) = str_to_json s
    to_json (bytes raw) = vec_to_json show_unsigned 1 raw
    to_json (vec_i8 raw) = vec_to_json (show_signed (2 ^ 7)) 1 raw
    to_json (vec_u16 raw) = vec_to_json show_unsigned 2 raw
    to_json (vec_i16 raw) = vec_to_json (show_signed (2 ^ 15)) 2 raw
    to_json (vec_u32 raw) = vec_to_json show_unsigned 4 raw
    to_json (vec_i32 raw) = vec_to_json (show_signed (2 ^ 31)) 4 raw
    to_json (vec_f32 raw) = vec_to_json t.f32_to_string 4 raw
    to_json (vec_u64 raw) = vec_to_json show_unsigned 8 raw
    to_json (vec_i64 raw) = vec_to_json (show_signed (2 ^ 63)) 8 raw
    to_json (vec_f64 raw) = vec_to_json t.f64_to_string 8 raw
    to_json (list items) = b'[' ∷ items_to_json true items ++ b']' ∷ []
    to_json (map fields) = b'{' ∷ fields_to_json true fields ++ b'}' ∷ []
    to_json (struct_view fields) = b'{' ∷ fields_to_json true fields ++ b'}' ∷ []
    to_json (struct_owned fields) = b'{' ∷ fields_to_json true fields ++ b'}' ∷ []
    to_json (custom name) = custom_prefix ++ (str_to_json name ++ b'}' ∷ [])

    pub items_to_json : Bool → Items → Bytes
    items_to_json first nil = []
    items_to_json first (cons v rest) = take_once first ++ (to_json v ++ items_to_json false rest)

    pub fields_to_json : Bool → Fields → Bytes
    fields_to_json first end = []
    fields_to_json first (field k v rest) =
        take_once first ++ (str_to_json k ++ b':' ∷ (to_json v ++ fields_to_json false rest))
