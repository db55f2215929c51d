-- ===== src/Dynamic/Json/Escapes.antt =====
-- dynamic/src/json.rs: the escapes of a text are read back.
use zust.Prelude.{
  ℕ, ◌+◌, ◌-◌, ◌*◌, ◌/◌, ◌%◌, ◌≤◌, ◌<◌, ◌≡◌, refl, ap, arith, false, true, [], ◌∷◌, ◌++◌, some,
  length, Bool-cases, inl, inr, ◌==◌, if◌then◌else◌,
}
use zust.Prelude.Outcome.{ok}
use zust.Dynamic.Value.{Bytes}
use zust.Dynamic.Json.Strings.{
  hex_value, hex_digits, from_str_radix, encode_utf8, between, pushed, low_surrogate, code_point,
  unicode_escape, escape, hex_char, hex_4,
}

hex_value-hex_char : (d : ℕ) → d < 16 → hex_value (hex_char d) ≡ some d
unfolding hex_value hex_char
hex_value-hex_char d h = ground arith

hex_char-ne-plus : (d : ℕ) → (hex_char d == b'+') ≡ false
unfolding hex_char
hex_char-ne-plus d = ground arith

hex_digits-cons :
    (d : ℕ) (rest : Bytes) (acc : ℕ)
    → d < 16
    → hex_digits (hex_char d ∷ rest) acc ≡ hex_digits rest (acc * 16 + d)
unfolding hex_digits
hex_digits-cons d rest acc h = rw (hex_digits, hex_value-hex_char d h) refl

hex_digits-hex_4 : (n : ℕ) → n < 65536 → hex_digits (hex_4 n) 0 ≡ some n
unfolding hex_4 hex_digits
hex_digits-hex_4 n h =
    rw
      (
        hex_digits-cons (n / 4096) _ 0 (omega arith),
        hex_digits-cons (n / 256 % 16) _ _ (omega arith),
        hex_digits-cons (n / 16 % 16) _ _ (omega arith),
        hex_digits-cons (n % 16) [] _ (omega arith),
      )
      (ap some (omega arith))

from_str_radix-hex_4 : (n : ℕ) → n < 65536 → from_str_radix (hex_4 n) ≡ some n
unfolding from_str_radix hex_4
from_str_radix-hex_4 n h = rw (hex_char-ne-plus (n / 4096)) (hex_digits-hex_4 n h)

-- The two ways a code point is written with `\u`: alone, or as a pair of surrogates.
unfoldable pub utf16_escape : ℕ → Bytes
utf16_escape n =
    if between 0x10000 0x10ffff n
    then hex_4 (0xd800 + (n - 0x10000) / 1024)
      ++ b'\\' ∷ b'u' ∷ hex_4 (0xdc00 + (n - 0x10000) % 1024)
    else hex_4 n

code_point-plain :
    (n : ℕ) (rest : Bytes) → between 0xd800 0xdbff n ≡ false → code_point n rest ≡ (n, 0)
unfolding code_point
code_point-plain n rest h = rw (h) refl

pushed-encode_utf8 :
    (n : ℕ) → n ≤ 0x10ffff → between 0xd800 0xdfff n ≡ false → pushed n ≡ encode_utf8 n
unfolding pushed encode_utf8
pushed-encode_utf8 n h e = ground arith

unicode_escape-hex_4 :
    (n : ℕ) (rest : Bytes)
    → n < 65536
    → unicode_escape (hex_4 n ++ rest)
      ≡ (let (code, more) = code_point n rest in ok (pushed code, 4 + more))
unfolding unicode_escape hex_4
unicode_escape-hex_4 n rest h = rw (unicode_escape, from_str_radix-hex_4 n h) refl

low_surrogate-hex_4 :
    (high low : ℕ) (rest : Bytes)
    → between 0xdc00 0xdfff low ≡ true
    → low < 65536
    → low_surrogate high (b'\\' ∷ b'u' ∷ hex_4 low ++ rest)
      ≡ (0x10000 + (high - 0xd800) * 1024 + (low - 0xdc00), 6)
unfolding low_surrogate hex_4
low_surrogate-hex_4 high low rest b h = rw (low_surrogate, from_str_radix-hex_4 low h, b) refl

high_pair :
    (n : ℕ) (rest : Bytes)
    → between 0xd800 0xdbff n ≡ true
    → code_point n rest ≡ low_surrogate n rest
unfolding code_point
high_pair n rest h = rw (h) refl

not_high : (n : ℕ) → between 0xd800 0xdfff n ≡ false → between 0xd800 0xdbff n ≡ false
unfolding between
not_high n h = ground arith

not_surrogate : (n : ℕ) → 0x10000 ≤ n → between 0xd800 0xdfff n ≡ false
unfolding between
not_surrogate n h = ground arith

is_high :
    (n : ℕ)
    → 0x10000 ≤ n
    → n ≤ 0x10ffff
    → between 0xd800 0xdbff (0xd800 + (n - 0x10000) / 1024) ≡ true
unfolding between
is_high n h k = ground arith

is_low : (n : ℕ) → between 0xdc00 0xdfff (0xdc00 + (n - 0x10000) % 1024) ≡ true
unfolding between
is_low n = ground arith

joined_pair :
    (n : ℕ)
    → 0x10000 ≤ n
    → 0x10000
        + (0xd800 + (n - 0x10000) / 1024 - 0xd800) * 1024
        + (0xdc00 + (n - 0x10000) % 1024 - 0xdc00)
      ≡ n
joined_pair n h = omega arith

between-le : (n : ℕ) → between 0x10000 0x10ffff n ≡ true → 0x10000 ≤ n
unfolding between
between-le n h = ground arith

not_between : (n : ℕ) → n ≤ 0x10ffff → between 0x10000 0x10ffff n ≡ false → n < 0x10000
unfolding between
not_between n k h = ground arith

pub escape_bmp :
    (n : ℕ) (rest : Bytes)
    → n < 0x10000
    → between 0xd800 0xdfff n ≡ false
    → escape (b'u' ∷ hex_4 n ++ rest) ≡ ok (encode_utf8 n, 5)
unfolding escape
escape_bmp n rest h e =
    rw
      (
        unicode_escape-hex_4 n rest h,
        code_point-plain n rest (not_high n e),
        pushed-encode_utf8 n (omega arith) e,
      )
      refl

escape_pair :
    (n : ℕ) (rest : Bytes)
    → 0x10000 ≤ n
    → n ≤ 0x10ffff
    → escape (
        b'u' ∷ hex_4 (0xd800 + (n - 0x10000) / 1024)
        ++ b'\\' ∷ b'u' ∷ hex_4 (0xdc00 + (n - 0x10000) % 1024)
        ++ rest)
      ≡ ok (encode_utf8 n, 11)
unfolding escape unicode_escape encode_utf8 hex_4
escape_pair n rest h k =
    let high = 0xd800 + (n - 0x10000) / 1024 in
    let low = 0xdc00 + (n - 0x10000) % 1024 in
    rw
      (
        unicode_escape-hex_4 high (b'\\' ∷ b'u' ∷ hex_4 low ++ rest) (omega arith),
        high_pair high _ (is_high n h k),
        low_surrogate-hex_4 high low rest (is_low n) (omega arith),
        joined_pair n h,
        pushed-encode_utf8 n k (not_surrogate n h),
      )
      refl

-- Every code point that is no surrogate, written with `\u` in one or two units of UTF-16, is read
-- as its UTF-8 encoding, and exactly the bytes of the escape are used.
pub escape-utf16_escape :
    (n : ℕ) (rest : Bytes)
    → n ≤ 0x10ffff
    → between 0xd800 0xdfff n ≡ false
    → escape (b'u' ∷ utf16_escape n ++ rest) ≡ ok (encode_utf8 n, 1 + length (utf16_escape n))
unfolding utf16_escape hex_4
escape-utf16_escape n rest h e = elim (Bool-cases (between 0x10000 0x10ffff n)) [
  | inl b ↦ rw b (escape_pair n rest (between-le n b) h)
  | inr b ↦ rw b (escape_bmp n rest (not_between n h b) e)
]
