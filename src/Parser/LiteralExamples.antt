-- ===== src/Parser/LiteralExamples.antt =====
-- parser/src/lib.rs: literals and comments, read at concrete inputs.
use zust.Prelude.{◌≡◌, refl, true, none, List, [], ◌∷◌, ◌++◌, ltb, if◌then◌else◌}
use zust.Prelude.Int.{pos, negsuc}
use zust.Prelude.Outcome.{ok, err}
use zust.Dynamic.Value.{i8}
use zust.Dynamic.Json.Strings.{hex_value, hex_digits, between}
use zust.Dynamic.Json.Numbers.{decimal}
use zust.Parser.Reading.{just, contains}
use zust.Parser.Space.{bad_utf8, ended, out_of_range, found_keyword, whitespace}
use zust.Parser.Space.Skipped.{Blank, white, line, block, print_blanks, whitespace-print_blanks}
use zust.Parser.Strings.{Utf8, string, text, hashes, hex_i32, is_hex_digit}
use zust.Parser.Strings.Pieces.{
  Piece, plain, quoted, newline, byte, point, print_pieces, meanings, string-print_pieces,
}
use zust.Parser.Strings.Raw.{text-hashes}
use zust.Parser.Idents.{is_ident_byte, keywords, any_text, ident}
use zust.Parser.Idents.Joined.{join_colons, ident-join_colons}
use zust.Parser.Numbers.{radix_value, empty_digits, Reals, number, number_after_0}
use zust.Parser.Numbers.Suffixes.{as_i8, suffix_name, limit, with_suffix}
use zust.Parser.Numbers.Bases.{hexadecimal, letter, largest, number-base}
use zust.Parser.Numbers.Decimal.{number-decimal}

abbrev trusting : Utf8
trusting = record { valid_utf8 = λ text. true; lossy = λ text. text }

-- A platform without floats.
abbrev no_floats : Reals
no_floats = record {
  parse_f64 = λ text. none;
  of_int = λ n. 0;
  of_int_32 = λ n. 0;
  to_f16 = λ f. 0;
  to_f32 = λ f. 0;
  less = λ a b. ltb a b;
  finite = λ f. true;
  whole = λ f. true;
  to_signed = λ bits f. pos 0;
  to_unsigned = λ bits f. 0;
}

-- " /* a* */\n// b\n"
abbrev some_blanks : List Blank
some_blanks =
    white b' ' ∷ block (b' ' ∷ b'a' ∷ b'*' ∷ b' ' ∷ []) b'\n' ∷ line (b' ' ∷ b'b' ∷ []) ∷ []

whitespace-print_blanks_example : whitespace (print_blanks some_blanks (b'x' ∷ [])) ≡ ok (b'x' ∷ [])
unfolding contains
whitespace-print_blanks_example =
    whitespace-print_blanks some_blanks (b'x' ∷ [])
      (refl, (((refl, (refl, (refl, tt))), refl), ((refl, (refl, tt)), tt))) (refl, refl)

abbrev some_pieces : List Piece
some_pieces =
    plain b'h' ∷ newline ∷ quoted b'"' ∷ byte b'7' b'f' 0x7f ∷ point (b'e' ∷ b'9' ∷ []) 0xe9 ∷ []

string-print_pieces_example :
    string trusting (b'"' ∷ print_pieces some_pieces (b'"' ∷ b';' ∷ [])) ≡ (
      if trusting.valid_utf8 (meanings some_pieces)
      then ok (meanings some_pieces, b';' ∷ [])
      else err bad_utf8)
unfolding hex_digits hex_value is_hex_digit hex_i32 between
string-print_pieces_example =
    string-print_pieces trusting b'"' some_pieces (b';' ∷ []) refl
      ((refl, refl), (tt, (refl, (refl, (((refl, (refl, tt)), refl, refl), tt)))))

-- r##"a"#b"##
text-hashes_example :
    text trusting (
      b'r'
      ∷ (hashes 2 ++ b'"' ∷ ((b'a' ∷ b'"' ∷ b'#' ∷ b'b' ∷ []) ++ b'"' ∷ (hashes 2 ++ b';' ∷ []))))
    ≡ ok (b'a' ∷ b'"' ∷ b'#' ∷ b'b' ∷ [], b';' ∷ [])
unfolding just hashes
text-hashes_example =
    text-hashes trusting 2 (b'a' ∷ b'"' ∷ b'#' ∷ b'b' ∷ []) (b';' ∷ [])
      (refl, (refl, (refl, (refl, tt))))

number-decimal_example :
    number no_floats (decimal 128 ++ (suffix_name as_i8 ++ b';' ∷ []))
    ≡ (if ltb (limit as_i8) 128 then err out_of_range else ok (with_suffix as_i8 128, b';' ∷ []))
unfolding contains
number-decimal_example = number-decimal no_floats as_i8 128 b';' [] refl refl

-- 0xfFi8 is -1.
number-base_example :
    number no_floats
      (b'0' ∷ letter hexadecimal ∷ ((b'f' ∷ b'F' ∷ []) ++ (suffix_name as_i8 ++ b';' ∷ [])))
    ≡ (if ltb (largest as_i8) 255 then err out_of_range else ok (with_suffix as_i8 255, b';' ∷ []))
unfolding contains is_hex_digit hex_value radix_value empty_digits
number-base_example =
    number-base no_floats hexadecimal as_i8 (b'f' ∷ b'F' ∷ []) 255 b';' [] (refl, (refl, tt)) refl
      refl refl

all_bits : with_suffix as_i8 255 ≡ i8 (negsuc 0)
unfolding with_suffix
all_bits = refl

-- Without a minus sign the number 128 has the type i8 and is negative.
wrapped : with_suffix as_i8 128 ≡ i8 (negsuc 127)
unfolding with_suffix
wrapped = refl

-- A zero at the end of the buffer is refused.
zero_at_end : number no_floats (b'0' ∷ []) ≡ err ended
unfolding number number_after_0
zero_at_end = refl

-- "in::x" is an identifier.
ident-join_colons_example :
    ident trusting ((b'i' ∷ b'n' ∷ []) ++ (join_colons ((b'x' ∷ []) ∷ []) ++ b' ' ∷ [])) ≡ (
      if any_text keywords ((b'i' ∷ b'n' ∷ []) ++ join_colons ((b'x' ∷ []) ∷ []))
      then err found_keyword
      else ok (trusting.lossy ((b'i' ∷ b'n' ∷ []) ++ join_colons ((b'x' ∷ []) ∷ [])), b' ' ∷ []))
unfolding contains is_ident_byte empty_digits
ident-join_colons_example =
    ident-join_colons trusting (b'i' ∷ b'n' ∷ []) ((b'x' ∷ []) ∷ []) b' ' []
      (refl, (refl, (refl, tt))) ((refl, (refl, tt)), tt) (refl, refl)
