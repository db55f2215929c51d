-- ===== src/Dynamic/Json/Lenient.antt =====
-- dynamic/src/json.rs: texts with no closing quote, and white space before a value.
use native.Mathlib.Numerals.{add-one}
use zust.Prelude.{
  ℕ, zero, suc, ◌+◌, ◌-◌, ◌≤◌, ◌<◌, ◌≡◌, refl, sym, ap, ◌∙◌, arith, true, false, [], ◌∷◌, ◌++◌,
  append-nil, length, length-append, drop-zero, drop-length-append, All, leb,
}
use zust.Prelude.Outcome.{ok}
use zust.Dynamic.Value.{Bytes, string}
use zust.Dynamic.Json.Buffer.{Text, is_white, white_run, skip_white}
use zust.Dynamic.Json.Strings.{string_loop, get_string, escaped_all, str_to_json}
use zust.Dynamic.Json.Texts.{
  IsPlain, get_string-str_to_json, string_loop-escaped_all, length-escaped_all,
}
use zust.Dynamic.Json.Maps.{IsText}
use zust.Dynamic.Json.Read.{string_at, from_json_fuel, from_json}
use zust.Dynamic.Json.Values.{value_at-quoted}

string_loop-end : (fuel at : ℕ) (vec : Bytes) → 1 ≤ fuel → string_loop fuel [] at vec ≡ ok (vec, at)
unfolding string_loop
string_loop-end zero at vec h = absurd (omega arith)
string_loop-end (suc fuel) at vec h = refl

open_loop :
    (s : Bytes)
    → All IsPlain s
    → string_loop (suc (length (escaped_all s)) + 1) (escaped_all s) 1 []
      ≡ ok (s, suc (length (escaped_all s)))
open_loop s p =
    let fuel = suc (length (escaped_all s)) + 1 in
    ap (λ b. string_loop fuel b 1 []) (sym (append-nil (escaped_all s)))
    ∙ string_loop-escaped_all s [] fuel 1 [] p (omega (arith, length-escaped_all s))
    ∙ string_loop-end (fuel - length s) (1 + length (escaped_all s)) s
        (omega (arith, length-escaped_all s))
    ∙ ap (λ n. ok (s, n)) (omega arith)

lt→leb : (a b : ℕ) → b < a → leb a b ≡ false
lt→leb a b h = ground arith

-- A text in UTF-8 without the bytes 8 and 12, whose closing quote is missing at the end of the
-- buffer, is accepted, and the whole buffer is used.
pub get_string-open :
    (t : Text) (s : Bytes)
    → t.valid_utf8 s ≡ true
    → All IsPlain s
    → get_string t (b'"' ∷ escaped_all s) ≡ ok (s, suc (length (escaped_all s)))
unfolding get_string
get_string-open t s u p = rw (drop-zero (escaped_all s), open_loop s p, u) refl

-- White space before a text.
abbrev pub IsWhite : Bytes → Type 0
IsWhite = All (λ c. is_white c ≡ true)

white_run-append :
    (white : Bytes) (c : ℕ) (rest : Bytes)
    → IsWhite white
    → is_white c ≡ false
    → white_run (white ++ c ∷ rest) ≡ length white
unfolding white_run
white_run-append [] c rest w h = rw h refl
white_run-append (x ∷ white) c rest w h = rw (w.0, white_run-append white c rest w.1 h) refl

skip_white-append :
    (white : Bytes) (c : ℕ) (rest : Bytes)
    → IsWhite white
    → is_white c ≡ false
    → skip_white (white ++ c ∷ rest) ≡ ok (length white)
unfolding skip_white
skip_white-append white c rest w h =
    rw
      (
        white_run-append white c rest w h,
        lt→leb (length (white ++ c ∷ rest)) (length white)
            (omega (arith, length-append white (c ∷ rest))),
      )
      refl

skip_white-text :
    (white s rest : Bytes)
    → IsWhite white
    → skip_white (white ++ (str_to_json s ++ rest)) ≡ ok (length white)
unfolding str_to_json is_white
skip_white-text white s rest w = skip_white-append white b'"' _ w refl

-- The size that `from_json` returns for a text does not count the white space before it, although
-- the reader skips it.
pub from_json-white :
    (t : Text) (white s rest : Bytes)
    → IsWhite white
    → IsText t s
    → from_json t (white ++ (str_to_json s ++ rest)) ≡ ok (string s, length (str_to_json s))
unfolding from_json from_json_fuel string_at
from_json-white t white s rest w i =
    let buf = white ++ (str_to_json s ++ rest) in
    rw
      (
        add-one (length buf),
        skip_white-text white s rest w,
        drop-length-append white (str_to_json s ++ rest),
        value_at-quoted t s rest (from_json_fuel t (length buf)) (length white),
        get_string-str_to_json t s rest i.0 i.1,
      )
      refl
