-- ===== src/Parser/Strings/Pieces.antt =====
-- parser/src/lib.rs: `string` reads what is written in a text literal.
use zust.Prelude.{
  ℕ, zero, suc, ◌+◌, ◌<◌, ◌≡◌, refl, ◌∙◌, arith, Bool, true, false, ◌||◌, some, List, [], ◌∷◌, ◌++◌,
  length, length-append, append_assoc, append-nil, All, ltb, ◌==◌, if◌then◌else◌,
}
use zust.Prelude.Outcome.{ok, err}
use zust.Dynamic.Value.{Bytes}
use zust.Dynamic.Json.Strings.{hex_digits, encode_utf8, between}
use zust.Parser.Space.{bad_utf8}
use zust.Parser.Strings.{
  Utf8, collect, is_hex_digit, hex_i32, hex, char_text, unicode_escape, byte_escape, pass_over,
  escape, finish, string_loop, string,
}

-- What stands in a text literal: a byte as it is, a byte behind a backslash, a byte as two digits, and
-- the digits of a code point in braces with its number.
pub data Piece : Type 0 where
  plain quoted : ℕ → Piece
  newline return tab : Piece
  byte : ℕ → ℕ → ℕ → Piece
  point : Bytes → ℕ → Piece

abbrev pub IsPiece : ℕ → Piece → Type 0
IsPiece d (plain c) = ((c == b'\\') ≡ false) × ((c == d) ≡ false)
IsPiece d (quoted c) = (c == b'\\' || c == b'"' || c == b'\'') ≡ true
IsPiece d (byte a b n) = hex_digits (a ∷ b ∷ []) 0 ≡ some n
IsPiece d (point digits n) =
    All (λ c. is_hex_digit c ≡ true) digits
    × (hex_i32 digits ≡ ok n)
    × ((between 0xd800 0xdfff n || ltb 0x10ffff n) ≡ false)
IsPiece d _ = Unit

unfoldable pub print_piece : Piece → Bytes
print_piece (plain c) = c ∷ []
print_piece (quoted c) = b'\\' ∷ c ∷ []
print_piece newline = b'\\' ∷ b'n' ∷ []
print_piece return = b'\\' ∷ b'r' ∷ []
print_piece tab = b'\\' ∷ b't' ∷ []
print_piece (byte a b n) = b'\\' ∷ b'x' ∷ a ∷ b ∷ []
print_piece (point digits n) = b'\\' ∷ b'u' ∷ b'{' ∷ (digits ++ b'}' ∷ [])

unfoldable pub meaning : Piece → Bytes
meaning (plain c) = c ∷ []
meaning (quoted c) = c ∷ []
meaning newline = b'\n' ∷ []
meaning return = b'\r' ∷ []
meaning tab = b'\t' ∷ []
meaning (byte a b n) = n ∷ []
meaning (point digits n) = encode_utf8 n

unfoldable pub print_pieces : List Piece → Bytes → Bytes
print_pieces [] rest = rest
print_pieces (p ∷ pieces) rest = print_piece p ++ print_pieces pieces rest

unfoldable pub meanings : List Piece → Bytes
meanings [] = []
meanings (p ∷ pieces) = meaning p ++ meanings pieces

pub collect-All :
    (f : ℕ → Bool) (run rest : Bytes) (c : ℕ)
    → All (λ x. f x ≡ true) run
    → f c ≡ false
    → collect f (run ++ c ∷ rest) ≡ (run, c ∷ rest)
unfolding collect
collect-All f [] rest c h n = rw n refl
collect-All f (x ∷ run) rest c h n = rw (h.0, collect-All f run rest c h.1 n) refl

quoted_escape :
    (c : ℕ) (rest : Bytes)
    → (c == b'\\' || c == b'"' || c == b'\'') ≡ true
    → escape (c ∷ rest) ≡ ok (c ∷ [], rest)
unfolding escape
quoted_escape c rest h = ground arith

point_escape :
    (digits rest : Bytes) (n : ℕ)
    → IsPiece 0 (point digits n)
    → escape (b'u' ∷ b'{' ∷ (digits ++ b'}' ∷ rest)) ≡ ok (encode_utf8 n, rest)
unfolding escape unicode_escape hex char_text pass_over
point_escape digits rest n h =
    rw (collect-All is_hex_digit digits rest b'}' h.0 (unfold is_hex_digit in refl), h.1, h.2) refl

print_piece-length : (p : Piece) → 0 < length (print_piece p)
unfolding print_piece
print_piece-length (plain c) = omega arith
print_piece-length (quoted c) = omega arith
print_piece-length newline = omega arith
print_piece-length return = omega arith
print_piece-length tab = omega arith
print_piece-length (byte a b n) = omega arith
print_piece-length (point digits n) = omega arith

no_backslash : (d : ℕ) → (d == b'"' || d == b'\'') ≡ true → (d == b'\\') ≡ false
no_backslash d h = ground arith

same_byte : (d : ℕ) → (d == d) ≡ true
same_byte d = ground arith

byte_escaped :
    (a b n : ℕ) (rest : Bytes)
    → hex_digits (a ∷ b ∷ []) 0 ≡ some n
    → escape (b'x' ∷ a ∷ b ∷ rest) ≡ ok (n ∷ [], rest)
unfolding escape byte_escape
byte_escaped a b n rest h = rw (byte_escape, h) refl

module _ (U : Utf8) where
  escaped_round :
      (fuel d : ℕ) (input text pushed rest : Bytes)
      → escape input ≡ ok (pushed, rest)
      → string_loop U (suc fuel) d (b'\\' ∷ input) text ≡ string_loop U fuel d rest (text ++ pushed)
  unfolding string_loop
  escaped_round fuel d input text pushed rest e = rw e refl

  plain_round :
      (fuel d c : ℕ) (rest text : Bytes)
      → IsPiece d (plain c)
      → string_loop U (suc fuel) d (c ∷ rest) text ≡ string_loop U fuel d rest (text ++ c ∷ [])
  unfolding string_loop
  plain_round fuel d c rest text h = rw (h.0, h.1) refl

  last_round :
      (fuel d : ℕ) (rest text : Bytes)
      → (d == b'\\') ≡ false
      → string_loop U (suc fuel) d (d ∷ rest) text ≡ finish U text rest
  unfolding string_loop
  last_round fuel d rest text q = rw (q, same_byte d) refl

  -- A round reads a piece.
  round :
      (fuel d : ℕ) (p : Piece) (rest text : Bytes)
      → IsPiece d p
      → string_loop U (suc fuel) d (print_piece p ++ rest) text
        ≡ string_loop U fuel d rest (text ++ meaning p)
  unfolding print_piece meaning
  round fuel d (plain c) rest text h = plain_round fuel d c rest text h
  round fuel d (quoted c) rest text h =
      escaped_round fuel d (c ∷ rest) text (c ∷ []) rest (quoted_escape c rest h)
  round fuel d newline rest text h =
      escaped_round fuel d (b'n' ∷ rest) text (b'\n' ∷ []) rest (unfold escape in refl)
  round fuel d return rest text h =
      escaped_round fuel d (b'r' ∷ rest) text (b'\r' ∷ []) rest (unfold escape in refl)
  round fuel d tab rest text h =
      escaped_round fuel d (b't' ∷ rest) text (b'\t' ∷ []) rest (unfold escape in refl)
  round fuel d (byte a b n) rest text h =
      escaped_round fuel d (b'x' ∷ a ∷ b ∷ rest) text (n ∷ []) rest (byte_escaped a b n rest h)
  round fuel d (point digits n) rest text h = rw (append_assoc digits (b'}' ∷ []) rest) (
      escaped_round fuel d (b'u' ∷ b'{' ∷ (digits ++ b'}' ∷ rest)) text (encode_utf8 n) rest
        (point_escape digits rest n h))

  string_loop-print_pieces :
      (fuel d : ℕ) (pieces : List Piece) (rest text : Bytes)
      → (d == b'\\') ≡ false
      → All (IsPiece d) pieces
      → length (print_pieces pieces (d ∷ rest)) < fuel
      → string_loop U fuel d (print_pieces pieces (d ∷ rest)) text
        ≡ finish U (text ++ meanings pieces) rest
  unfolding print_pieces meanings
  string_loop-print_pieces zero d pieces rest text q h n = absurd (omega (arith, n))
  string_loop-print_pieces (suc fuel) d [] rest text q h n =
      rw (append-nil text) (last_round fuel d rest text q)
  string_loop-print_pieces (suc fuel) d (p ∷ pieces) rest text q h n =
      round fuel d p (print_pieces pieces (d ∷ rest)) text h.0
      ∙ string_loop-print_pieces fuel d pieces rest (text ++ meaning p) q h.1 (
          omega (
            arith,
            n,
            length-append (print_piece p) (print_pieces pieces (d ∷ rest)),
            print_piece-length p,
          ))
      ∙ rw (append_assoc text (meaning p) (meanings pieces)) refl

  -- `string` reads a literal between quotes, single or double, as the bytes that its pieces mean, and
  -- leaves the rest of the buffer; it refuses them only where they are not UTF-8. A plain byte of the
  -- literal is no backslash and not the quote that ends it, and a code point in braces has as its
  -- number one that char::from_u32 takes.
  pub string-print_pieces :
      (d : ℕ) (pieces : List Piece) (rest : Bytes)
      → (d == b'"' || d == b'\'') ≡ true
      → All (IsPiece d) pieces
      → string U (d ∷ print_pieces pieces (d ∷ rest))
        ≡ (if U.valid_utf8 (meanings pieces) then ok (meanings pieces, rest) else err bad_utf8)
  unfolding string
  string-print_pieces d pieces rest q h = rw q (
      string_loop-print_pieces (length (print_pieces pieces (d ∷ rest)) + 1) d pieces rest []
        (no_backslash d q) h (omega arith)
      ∙ (unfold finish in refl))
