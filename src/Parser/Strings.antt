-- ===== src/Parser/Strings.antt =====
-- parser/src/lib.rs: text literals, on the rest of the buffer.
pub mod Pieces
pub mod Raw
use zust.Prelude.{
  ℕ, zero, suc, ◌+◌, ◌*◌, ◌^◌, Bool, ◌&&◌, ◌||◌, Option, none, some, List, [], ◌∷◌, ◌++◌, length,
  drop, ltb, leb, ◌==◌, if◌then◌else◌,
}
use zust.Prelude.Outcome.{Outcome, ok, err, stuck, ◌>>=◌}
use zust.Dynamic.Value.{Bytes}
use zust.Dynamic.Json.Strings.{hex_value, hex_digits, encode_utf8, between}
use zust.Parser.Reading.{just}
use zust.Parser.Space.{
  ParseErr, ended, not_expected, not_text, bad_raw, open_text, bad_escape, bad_unicode, bad_utf8,
  bad_number,
}

-- What the standard library does with UTF-8.
pub record Utf8 : Type 0 where
  pub valid_utf8 : Bytes → Bool
  pub lossy : Bytes → Bytes

unfoldable pub collect : (ℕ → Bool) → Bytes → Bytes × Bytes
collect f [] = ([], [])
collect f (c ∷ rest) =
    let (run, more) = collect f rest in if f c then (c ∷ run, more) else ([], c ∷ rest)

unfoldable pub is_hex_digit : ℕ → Bool
is_hex_digit c =
    (leb b'0' c && leb c b'9') || (leb b'a' c && leb c b'f') || (leb b'A' c && leb c b'F')

-- `i32::from_str_radix(digits, 16)`
unfoldable pub hex_i32 : Bytes → Outcome ParseErr ℕ
hex_i32 [] = err not_expected
hex_i32 (c ∷ digits) = elim (hex_digits (c ∷ digits) 0) [
  | none ↦ err bad_number
  | some n ↦ if ltb n (2 ^ 31) then ok n else err bad_number
]

unfoldable pub hex : Bytes → Outcome ParseErr (ℕ × Bytes)
hex input =
    let (digits, rest) = collect is_hex_digit input in hex_i32 digits >>= λ code. ok (code, rest)

-- `char::from_u32`, whose result is pushed.
unfoldable pub char_text : ℕ → Outcome ParseErr Bytes
char_text code =
    if between 0xd800 0xdfff code || ltb 0x10ffff code
    then err bad_unicode
    else ok (encode_utf8 code)

unfoldable pub pass_over : Bytes → Bytes
pass_over [] = []
pass_over (c ∷ rest) = rest

-- Behind `\u`. The byte behind the number in braces is passed over, whatever it is.
unfoldable pub unicode_escape : Bytes → Outcome ParseErr (Bytes × Bytes)
unicode_escape [] = err not_expected
unicode_escape (c ∷ rest) =
    if c == b'{'
    then (hex rest >>= λ (code, more). char_text code >>= λ text. ok (text, pass_over more))
    else (hex (c ∷ rest) >>= λ (code, more). char_text code >>= λ text. ok (text, more))

-- Behind `\x`.
unfoldable pub byte_escape : Bytes → Outcome ParseErr (Bytes × Bytes)
byte_escape (a ∷ b ∷ rest) = elim (hex_digits (a ∷ b ∷ []) 0) [
  | none ↦ err bad_escape
  | some code ↦ ok (code ∷ [], rest)
]
byte_escape _ = err bad_escape

-- Behind a backslash: the bytes that are pushed, and the rest.
unfoldable pub escape : Bytes → Outcome ParseErr (Bytes × Bytes)
escape [] = err bad_escape
escape (c ∷ rest) =
    if c == b'n'
    then ok (b'\n' ∷ [], rest)
    else if c == b'r'
    then ok (b'\r' ∷ [], rest)
    else if c == b't'
    then ok (b'\t' ∷ [], rest)
    else if c == b'\\' || c == b'"' || c == b'\''
    then ok (c ∷ [], rest)
    else if c == b'u'
    then unicode_escape rest
    else if c == b'x'
    then byte_escape rest
    else err bad_escape

unfoldable pub raw_search : Bytes → Bytes → Outcome ParseErr (Bytes × Bytes)
raw_search close [] = err open_text
raw_search close (c ∷ rest) =
    let next = raw_search close rest >>= λ (body, more). ok (c ∷ body, more) in
    elim (just close (c ∷ rest)) [ some more ↦ ok ([], more) | none ↦ next ]

unfoldable pub hashes : ℕ → Bytes
hashes zero = []
hashes (suc n) = b'#' ∷ hashes n

module _ (U : Utf8) where
  unfoldable pub finish : Bytes → Bytes → Outcome ParseErr (Bytes × Bytes)
  finish text rest = if U.valid_utf8 text then ok (text, rest) else err bad_utf8

  unfoldable pub string_loop : ℕ → ℕ → Bytes → Bytes → Outcome ParseErr (Bytes × Bytes)
  string_loop zero delimiter input text = stuck
  string_loop (suc fuel) delimiter [] text = err open_text
  string_loop (suc fuel) delimiter (c ∷ rest) text =
      let after =
        escape rest >>= λ (pushed, more). string_loop fuel delimiter more (text ++ pushed) in
      let next = string_loop fuel delimiter rest (text ++ c ∷ []) in
      if c == b'\\' then after else if c == delimiter then finish text rest else next

  -- Each round takes a byte at least.
  unfoldable pub string : Bytes → Outcome ParseErr (Bytes × Bytes)
  unfolding string_loop
  string [] = err ended
  string (delimiter ∷ rest) =
      if delimiter == b'"' || delimiter == b'\''
      then string_loop (length rest + 1) delimiter rest []
      else err not_text

  -- Behind the hashes of a raw text.
  unfoldable pub raw_body : ℕ → Bytes → Outcome ParseErr (Bytes × Bytes)
  raw_body n [] = err ended
  raw_body n (c ∷ rest) =
      if c == b'"'
      then (raw_search (b'"' ∷ hashes n) rest >>= λ (body, more). ok (U.lossy body, more))
      else err bad_raw

  unfoldable pub raw_text : Bytes → Outcome ParseErr (Bytes × Bytes)
  raw_text input = let (run, rest) = collect (λ c. c == b'#') input in raw_body (length run) rest

  -- Behind an r.
  unfoldable pub text_after_r : Bytes → Outcome ParseErr (Bytes × Bytes)
  unfolding raw_text string
  text_after_r [] = err ended
  text_after_r (c ∷ rest) =
      if c == b'#' || c == b'"' then raw_text (c ∷ rest) else string (b'r' ∷ c ∷ rest)

  unfoldable pub text : Bytes → Outcome ParseErr (Bytes × Bytes)
  unfolding text_after_r
  text [] = err ended
  text (c ∷ rest) = if c == b'r' then text_after_r rest else string (c ∷ rest)
