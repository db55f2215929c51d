-- ===== src/Dynamic/Json/RoundTrip.antt =====
-- dynamic/src/json.rs: what is written as JSON is read back.
use native.Mathlib.Numerals.{add-one}
use zust.Prelude.{
  ℕ, zero, suc, ◌≤◌, ◌≡◌, refl, arith, Bool, true, false, [], ◌∷◌, ◌++◌, length, length-append,
}
use zust.Prelude.Int.{pos}
use zust.Prelude.Outcome.{ok}
use zust.Dynamic.Value.{
  Bytes, Dynamic, null, bool, u8, i8, u16, i16, u32, i32, u64, i64, string, string_buf, list, map,
  struct_view, struct_owned, custom, Items, nil, cons, Fields, end, field, same_text,
}
use zust.Dynamic.Msgpack.Portable.{height, items_height, fields_height}
use zust.Dynamic.Json.Buffer.{Text, is_white}
use zust.Dynamic.Json.Strings.{str_to_json}
use zust.Dynamic.Json.Numbers.{contains, token_value}
use zust.Dynamic.Json.Read.{from_json_fuel, from_json}
use zust.Dynamic.Json.Write.{take_once, to_json, items_to_json, fields_to_json, show_unsigned}
use zust.Dynamic.Json.Tokens.{Ends}
use zust.Dynamic.Json.Values.{
  text_ReadsAs, int_ReadsAs, items_ReadsAs, fields_ReadsAs, word_ReadsAs,
}
use zust.Dynamic.Json.Portable.{IsJson, AreJson, FieldsJson, read_back}
use zust.Dynamic.Json.Chunks.{chunks, entry_chunks}
use zust.Dynamic.Json.Lists.{ReadsAs, AllRead}
use zust.Dynamic.Json.Maps.{EntriesRead}

module _ (f16_to_f64 : ℕ → ℕ) (t : Text) where
  mutual
    unfolding to_json chunks entry_chunks show_unsigned token_value same_text is_white contains

    to_json-ReadsAs :
        (v : Dynamic) (fuel : ℕ)
        → IsJson t v
        → height v ≤ fuel
        → ReadsAs (from_json_fuel t (suc fuel)) (to_json f16_to_f64 t v) (read_back v)
    to_json-ReadsAs null fuel h d =
        word_ReadsAs t fuel b'n' (b'u' ∷ b'l' ∷ b'l' ∷ []) null (refl, refl, refl, refl, refl)
          (refl, (refl, (refl, (refl, tt)))) refl
    to_json-ReadsAs (bool true) fuel h d =
        word_ReadsAs t fuel b't' (b'r' ∷ b'u' ∷ b'e' ∷ []) (bool true)
          (refl, refl, refl, refl, refl) (refl, (refl, (refl, (refl, tt)))) refl
    to_json-ReadsAs (bool false) fuel h d =
        word_ReadsAs t fuel b'f' (b'a' ∷ b'l' ∷ b's' ∷ b'e' ∷ []) (bool false)
          (refl, refl, refl, refl, refl) (refl, (refl, (refl, (refl, (refl, tt))))) refl
    to_json-ReadsAs (u8 n) fuel h d = int_ReadsAs t fuel (pos n) h
    to_json-ReadsAs (i8 z) fuel h d = int_ReadsAs t fuel z h
    to_json-ReadsAs (u16 n) fuel h d = int_ReadsAs t fuel (pos n) h
    to_json-ReadsAs (i16 z) fuel h d = int_ReadsAs t fuel z h
    to_json-ReadsAs (u32 n) fuel h d = int_ReadsAs t fuel (pos n) h
    to_json-ReadsAs (i32 z) fuel h d = int_ReadsAs t fuel z h
    to_json-ReadsAs (u64 n) fuel h d = int_ReadsAs t fuel (pos n) h
    to_json-ReadsAs (i64 z) fuel h d = int_ReadsAs t fuel z h
    to_json-ReadsAs (string s) fuel h d = text_ReadsAs t fuel s h
    to_json-ReadsAs (string_buf s) fuel h d = text_ReadsAs t fuel s h
    to_json-ReadsAs (list items) zero h d = absurd (omega arith)
    to_json-ReadsAs (list items) (suc fuel) h d =
        items_ReadsAs f16_to_f64 t (suc fuel) items (items_AllRead items fuel h (omega arith))
    to_json-ReadsAs (map fs) zero h d = absurd (omega arith)
    to_json-ReadsAs (map fs) (suc fuel) h d =
        fields_ReadsAs f16_to_f64 t (suc fuel) fs h (fields_AllRead fs fuel h (omega arith))
    to_json-ReadsAs (struct_view fs) zero h d = absurd (omega arith)
    to_json-ReadsAs (struct_view fs) (suc fuel) h d =
        fields_ReadsAs f16_to_f64 t (suc fuel) fs h (fields_AllRead fs fuel h (omega arith))
    to_json-ReadsAs (struct_owned fs) zero h d = absurd (omega arith)
    to_json-ReadsAs (struct_owned fs) (suc fuel) h d =
        fields_ReadsAs f16_to_f64 t (suc fuel) fs h (fields_AllRead fs fuel h (omega arith))
    to_json-ReadsAs _ fuel h d = absurd h

    items_AllRead :
        (items : Items) (fuel : ℕ)
        → AreJson t items
        → items_height items ≤ fuel
        → AllRead (from_json_fuel t (suc fuel)) (chunks f16_to_f64 t items)
    items_AllRead nil fuel h d = tt
    items_AllRead (cons v rest) fuel h d =
        (to_json-ReadsAs v fuel h.0 (omega arith), items_AllRead rest fuel h.1 (omega arith))

    fields_AllRead :
        (fs : Fields) (fuel : ℕ)
        → FieldsJson t fs
        → fields_height fs ≤ fuel
        → EntriesRead (from_json_fuel t (suc fuel)) t (entry_chunks f16_to_f64 t fs)
    fields_AllRead end fuel h d = tt
    fields_AllRead (field k v rest) fuel h d =
        (h.0, to_json-ReadsAs v fuel h.1 (omega arith), fields_AllRead rest fuel h.3 (omega arith))

  braced :
      (fs : Fields)
      → fields_height fs ≤ length (fields_to_json f16_to_f64 t true fs)
      → suc (fields_height fs) ≤ length (to_json f16_to_f64 t (map fs))
  unfolding to_json
  braced fs h = omega (arith, length-append (fields_to_json f16_to_f64 t true fs) (b'}' ∷ []))

  -- The fuel that `from_json` starts with is enough: every level of nesting takes a byte.
  mutual
    unfolding to_json

    height-le : (v : Dynamic) → height v ≤ length (to_json f16_to_f64 t v)
    height-le (list items) = omega (
      arith,
      items_height-le true items,
      length-append (items_to_json f16_to_f64 t true items) (b']' ∷ []),
    )
    height-le (map fs) = braced fs (fields_height-le true fs)
    height-le (struct_view fs) = braced fs (fields_height-le true fs)
    height-le (struct_owned fs) = braced fs (fields_height-le true fs)
    height-le (custom name) = omega arith
    height-le _ = omega arith

    items_height-le :
        (first : Bool) (items : Items)
        → items_height items ≤ length (items_to_json f16_to_f64 t first items)
    items_height-le first nil = omega arith
    items_height-le first (cons v rest) = omega (
      arith,
      height-le v,
      items_height-le false rest,
      length-append (take_once first)
          (to_json f16_to_f64 t v ++ items_to_json f16_to_f64 t false rest),
      length-append (to_json f16_to_f64 t v) (items_to_json f16_to_f64 t false rest),
    )

    fields_height-le :
        (first : Bool) (fs : Fields)
        → fields_height fs ≤ length (fields_to_json f16_to_f64 t first fs)
    fields_height-le first end = omega arith
    fields_height-le first (field k v rest) =
        let more = to_json f16_to_f64 t v ++ fields_to_json f16_to_f64 t false rest in
        omega (
          arith,
          height-le v,
          fields_height-le false rest,
          length-append (take_once first) (str_to_json k ++ b':' ∷ more),
          length-append (str_to_json k) (b':' ∷ more),
          length-append (to_json f16_to_f64 t v) (fields_to_json f16_to_f64 t false rest),
        )

-- A value that is written, with any bytes behind it that no token goes on with, is read back to its
-- normal form, and exactly its own bytes are used. The value is made of null, bools, integers in the
-- range of i64, texts in UTF-8 without the bytes 8 and 12, lists, and maps and structs with distinct
-- keys; integers come back as i64, both kinds of text as a string, structs as maps.
pub from_json-to_json :
    (f16_to_f64 : ℕ → ℕ) (t : Text) (v : Dynamic) (rest : Bytes)
    → IsJson t v
    → Ends rest
    → from_json t (to_json f16_to_f64 t v ++ rest)
      ≡ ok (read_back v, length (to_json f16_to_f64 t v))
unfolding from_json
from_json-to_json f16_to_f64 t v rest h e =
    let text = to_json f16_to_f64 t v ++ rest in
    rw (add-one (length text)) (
      (to_json-ReadsAs f16_to_f64 t v (length text) h
          (omega (arith, height-le f16_to_f64 t v, length-append (to_json f16_to_f64 t v) rest))).1
        rest e)
