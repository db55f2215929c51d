-- ===== src/Dynamic/Json/Strings.antt =====
-- dynamic/src/json.rs: `get_string` and the writing of a text.
use zust.Prelude.{
  ℕ, zero, suc, ◌+◌, ◌-◌, ◌*◌, ◌/◌, ◌%◌, Bool, ◌&&◌, [], ◌∷◌, ◌++◌, Option, none, some, length,
  drop, ltb, leb, ◌==◌, if◌then◌else◌,
}
use zust.Prelude.Outcome.{ok, err, stuck, ◌>>=◌}
use zust.Dynamic.Value.{Bytes}
use zust.Dynamic.Json.Buffer.{
  incomplete_string, incomplete_unicode, bad_unicode, unknown_escape, bad_utf8, Read, Text,
}

unfoldable pub hex_value : ℕ → Option ℕ
hex_value c =
    if leb b'0' c && leb c b'9'
    then some (c - b'0')
    else if leb b'a' c && leb c b'f'
    then some (c - b'a' + 10)
    else if leb b'A' c && leb c b'F'
    then some (c - b'A' + 10)
    else none

unfoldable pub hex_digits : Bytes → ℕ → Option ℕ
hex_digits [] acc = some acc
hex_digits (c ∷ rest) acc = elim (hex_value c) [
  | none ↦ none
  | some d ↦ hex_digits rest (acc * 16 + d)
]

-- `u32::from_str_radix(s, 16)` of four bytes, which cannot overflow; a plus sign is allowed.
unfoldable pub from_str_radix : Bytes → Option ℕ
from_str_radix [] = none
from_str_radix (c ∷ rest) = if c == b'+' then hex_digits rest 0 else hex_digits (c ∷ rest) 0

unfoldable pub encode_utf8 : ℕ → Bytes
encode_utf8 c =
    if ltb c 0x80
    then c ∷ []
    else if ltb c 0x800
    then (0xc0 + c / 64) ∷ (0x80 + c % 64) ∷ []
    else if ltb c 0x10000
    then (0xe0 + c / 4096) ∷ (0x80 + c / 64 % 64) ∷ (0x80 + c % 64) ∷ []
    else (0xf0 + c / 262144) ∷ (0x80 + c / 4096 % 64) ∷ (0x80 + c / 64 % 64) ∷ (0x80 + c % 64) ∷ []

unfoldable pub between : ℕ → ℕ → ℕ → Bool
between low high n = leb low n && leb n high

-- `char::from_u32` refuses the surrogates and what is above 0x10ffff.
unfoldable pub pushed : ℕ → Bytes
pushed code =
    if ltb code 0x80
    then code ∷ []
    else if between 0xd800 0xdfff code
    then []
    else if ltb 0x10ffff code
    then []
    else encode_utf8 code

-- The code point of a `\uXXXX` whose number is `unicode`, and the bytes used of what follows it.
unfoldable pub low_surrogate : ℕ → Bytes → ℕ × ℕ
low_surrogate unicode (a ∷ b ∷ e ∷ f ∷ g ∷ h ∷ rest) =
    if a == b'\\' && b == b'u'
    then elim (from_str_radix (e ∷ f ∷ g ∷ h ∷ [])) [
      | none ↦ (unicode, 0)
      | some low ↦
          if between 0xdc00 0xdfff low
          then (0x10000 + (unicode - 0xd800) * 1024 + (low - 0xdc00), 6)
          else (unicode, 0)
    ]
    else (unicode, 0)
low_surrogate unicode _ = (unicode, 0)

unfoldable pub code_point : ℕ → Bytes → ℕ × ℕ
code_point unicode rest =
    if between 0xd800 0xdbff unicode then low_surrogate unicode rest else (unicode, 0)

-- Behind `\u`: the bytes pushed, and the bytes used.
unfoldable pub unicode_escape : Bytes → Read Bytes
unicode_escape (e ∷ f ∷ g ∷ h ∷ rest) = elim (from_str_radix (e ∷ f ∷ g ∷ h ∷ [])) [
  | none ↦ err bad_unicode
  | some unicode ↦ let (code, more) = code_point unicode rest in ok (pushed code, 4 + more)
]
unicode_escape _ = err incomplete_unicode

-- Behind a backslash.
unfoldable pub escape : Bytes → Read Bytes
escape [] = err incomplete_string
escape (c ∷ rest) =
    if c == b'\\'
    then ok (b'\\' ∷ [], 1)
    else if c == b'"'
    then ok (b'"' ∷ [], 1)
    else if c == b'r'
    then ok (b'\r' ∷ [], 1)
    else if c == b'n'
    then ok (b'\n' ∷ [], 1)
    else if c == b't'
    then ok (b'\t' ∷ [], 1)
    else if c == b'u'
    then (unicode_escape rest >>= λ (bytes, used). ok (bytes, 1 + used))
    else err (unknown_escape c)

unfoldable pub one_char : ℕ → Bytes → Read Bytes
one_char c rest = if c == b'\\' then escape rest else ok (c ∷ [], 0)

-- The loop of `get_string`, on `rest`, the bytes from `pos` on. A buffer that ends inside the
-- text ends the text.
unfoldable pub string_loop : ℕ → Bytes → ℕ → Bytes → Read Bytes
string_loop zero rest pos vec = stuck
string_loop (suc fuel) [] pos vec = ok (vec, pos)
string_loop (suc fuel) (c ∷ rest) pos vec = if c == b'"' then ok (vec, pos + 1) else do
  (bytes, used) ← one_char c rest
  string_loop fuel (drop used rest) (pos + 1 + used) (vec ++ bytes)

-- The first byte of `buf` is the quote that opens the text.
unfoldable pub get_string : Text → Bytes → Read Bytes
get_string t buf = do
  (vec, pos) ← string_loop (length buf + 1) (drop 1 buf) 1 []
  if t.valid_utf8 vec then ok (vec, pos) else err bad_utf8

-- `ToJson for &str`.
unfoldable pub hex_char : ℕ → ℕ
hex_char d = if ltb d 10 then b'0' + d else b'a' + (d - 10)

-- `format!("{:04x}", n)` for a number of 16 bits
unfoldable pub hex_4 : ℕ → Bytes
hex_4 n =
    hex_char (n / 4096) ∷ hex_char (n / 256 % 16) ∷ hex_char (n / 16 % 16) ∷ hex_char (n % 16) ∷ []

unfoldable pub escaped : ℕ → Bytes
escaped c =
    if c == b'"'
    then 0x5c ∷ 0x22 ∷ []
    else if c == b'\\'
    then 0x5c ∷ 0x5c ∷ []
    else if c == b'\n'
    then 0x5c ∷ 0x6e ∷ []
    else if c == b'\r'
    then 0x5c ∷ 0x72 ∷ []
    else if c == b'\t'
    then 0x5c ∷ 0x74 ∷ []
    else if c == 0x08
    then 0x5c ∷ 0x62 ∷ []
    else if c == 0x0c
    then 0x5c ∷ 0x66 ∷ []
    else if ltb c 0x20
    then b'\\' ∷ b'u' ∷ hex_4 c
    else c ∷ []

unfoldable pub escaped_all : Bytes → Bytes
escaped_all [] = []
escaped_all (c ∷ s) = escaped c ++ escaped_all s

unfoldable pub str_to_json : Bytes → Bytes
str_to_json s = b'"' ∷ escaped_all s ++ b'"' ∷ []
