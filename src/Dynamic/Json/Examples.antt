-- ===== src/Dynamic/Json/Examples.antt =====
-- dynamic/src/json.rs: runs, and the theorems at concrete values.
use Prim.Native.Char.{code}
use Prim.Native.String.{String}
use zust.Prelude.{ℕ, ◌+◌, ◌≡◌, refl, arith, true, inl, [], ◌∷◌, ◌++◌, none, length}
use zust.Prelude.Int.{pos, negsuc}
use zust.Prelude.Outcome.{ok, err}
use zust.Dynamic.Value.{
  Bytes, Dynamic, same_text, insert, null, u8, i64, string_buf, list, map, cons, nil, field, end,
}
use zust.Dynamic.Msgpack.Portable.{has_key}
use zust.Dynamic.Json.Buffer.{
  Text, is_white, white_run, skip_white, from, skip, bad_number, unknown_escape,
}
use zust.Dynamic.Json.Strings.{
  string_loop, one_char, between, encode_utf8, escape, get_string, str_to_json,
}
use zust.Dynamic.Json.Write.{to_json}
use zust.Dynamic.Json.Read.{
  from_json, from_json_fuel, value_at, map_at, map_loop, entry, colon, list_at, list_loop, comma,
  next_item, token_at, string_at,
}
use zust.Dynamic.Json.Numbers.{
  token_value, bind, contains, digits_value, float, get_token, negative, parse_i64, positive,
  token_run, unsigned_value,
}
use zust.Dynamic.Json.Escapes.{utf16_escape, escape-utf16_escape}
use zust.Dynamic.Json.Refused.{get_string-refuses}
use zust.Dynamic.Json.Portable.{read_back}
use zust.Dynamic.Json.RoundTrip.{from_json-to_json}
use zust.Dynamic.Json.Answers.{Answers, Used}
use zust.Dynamic.Json.Total.{from_json-Answers}

abbrev codes : String → Bytes
codes String.[] = []
codes (String.◌∷◌ c s) = code c ∷ codes s

-- Every byte string is a text, and no float is read, for the runs.
abbrev plain : Text
plain = record {
  valid_utf8 = λ _. true;
  parse_f64 = λ _. none;
  f32_to_string = λ _. [];
  f64_to_string = λ _. [];
}

abbrev same_bits : ℕ → ℕ
same_bits b = b

-- {"id":-18,"a\"\n":["x\\",null]}
abbrev sample : Dynamic
sample = map (
    field (codes "id") (i64 (negsuc 17)) (
      field (codes "a\"\n") (list (cons (string_buf (codes "x\\")) (cons null (cons (u8 7) nil))))
        end))

read_nested :
    from_json plain (codes "{ \"a\" : [1, -2 ,3], \"a\":null }")
    ≡ ok (map (field (codes "a") null end), 30)
unfolding from_json from_json_fuel insert same_text skip_white white_run is_white value_at map_at
    skip from map_loop entry get_string string_loop one_char escape colon list_at list_loop comma
    next_item token_at string_at token_value bind contains digits_value float get_token negative
    parse_i64 positive token_run unsigned_value
read_nested = refl

read_without_commas :
    from_json plain (codes "[1 2]") ≡ ok (list (cons (i64 (pos 1)) (cons (i64 (pos 2)) nil)), 5)
unfolding from_json from_json_fuel insert same_text skip_white white_run is_white value_at map_at
    skip from map_loop entry get_string string_loop one_char escape colon list_at list_loop comma
    next_item token_at string_at token_value bind contains digits_value float get_token negative
    parse_i64 positive token_run unsigned_value
read_without_commas = refl

read_empty_item : from_json plain (codes "[1,,2]") ≡ err bad_number
unfolding from_json from_json_fuel insert same_text skip_white white_run is_white value_at map_at
    skip from map_loop entry get_string string_loop one_char escape colon list_at list_loop comma
    next_item token_at string_at token_value bind contains digits_value float get_token negative
    parse_i64 positive token_run unsigned_value
read_empty_item = refl

from_json-to_json_example :
    from_json plain (to_json same_bits plain sample ++ codes " ")
    ≡ ok (read_back sample, length (to_json same_bits plain sample))
unfolding has_key same_text contains
from_json-to_json_example =
    from_json-to_json same_bits plain sample (codes " ")
      (
        (refl, ((omega arith, omega arith), ((omega arith, omega arith), tt))),
        omega arith,
        refl,
        (
          (
            refl,
            (
              (omega arith, omega arith),
              ((omega arith, omega arith), ((omega arith, omega arith), tt)),
            ),
          ),
          (
            (refl, ((omega arith, omega arith), ((omega arith, omega arith), tt))),
            (tt, (omega arith, tt)),
          ),
          refl,
          tt,
        ),
      )
      refl

from_json-Answers_example :
    Answers (Used 1 (length (codes "[1, 2]"))) (from_json plain (codes "[1, 2]"))
from_json-Answers_example = from_json-Answers plain (codes "[1, 2]") refl

escape-utf16_escape_example :
    escape (b'u' ∷ utf16_escape 0x1f600 ++ codes "\"")
    ≡ ok (encode_utf8 0x1f600, 1 + length (utf16_escape 0x1f600))
unfolding between
escape-utf16_escape_example = escape-utf16_escape 0x1f600 (codes "\"") (omega arith) refl

get_string-refuses_example :
    get_string plain (str_to_json (codes "a" ++ 8 ∷ codes "b") ++ codes ",")
    ≡ err (unknown_escape b'b')
get_string-refuses_example =
    get_string-refuses plain (codes "a") (codes "b") (codes ",") 8 b'b'
      ((omega arith, omega arith), tt) (inl (refl, refl))
