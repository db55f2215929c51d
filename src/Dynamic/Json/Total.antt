-- ===== src/Dynamic/Json/Total.antt =====
-- dynamic/src/json.rs: `from_json` on any input.
use zust.Prelude.{
  ℕ, zero, suc, ◌+◌, ◌≤◌, ◌<◌, ◌≡◌, refl, sym, ap, ◌∙◌, subst, arith, [], ◌∷◌, ◌||◌, Option, none,
  some, length, length-drop, drop, take, ◌==◌,
}
use zust.Prelude.Int.{ℤ}
use zust.Prelude.Outcome.{Outcome, ok, err, ◌>>=◌}
use zust.Dynamic.Value.{Bytes, Dynamic, i64, f64, same_text}
use zust.Dynamic.Json.Buffer.{JsonErr, bad_number, Read, Text, skip_white}
use zust.Dynamic.Json.Strings.{get_string}
use zust.Dynamic.Json.Numbers.{contains, token_run, get_token, token_value, float, parse_i64}
use zust.Dynamic.Json.Read.{string_at, token_at, value_at, from_json_fuel, from_json}
use zust.Dynamic.Json.Answers.{
  Answers, option-Answers, bind-Answers, if-Answers, between-Answers, Used, get_string-Answers,
}
use zust.Dynamic.Json.Loops.{skip_white-Answers, list_at-Answers, map_at-Answers}

string_at-Answers :
    (t : Text) (c : ℕ) (rest : Bytes)
    → Answers (Used 1 (suc (length rest))) (string_at t (c ∷ rest))
unfolding string_at
string_at-Answers t c rest =
    bind-Answers (Used 1 (suc (length rest))) (Used 1 (suc (length rest))) (get_string t (c ∷ rest))
      _ (get_string-Answers t c rest) λ (s, size) used. (omega arith, omega arith)

token_run-le : (buf : Bytes) → token_run buf ≤ length buf
unfolding token_run
token_run-le [] = omega arith
token_run-le (c ∷ rest) = ground (arith, token_run-le rest)

Any : Dynamic → Type 0
Any v = Unit

float-Answers : (t : Text) (token : Bytes) → Answers Any (float t token)
unfolding float Any
float-Answers t token =
    option-Answers Any (t.parse_f64 token) bad_number (λ bits. ok (f64 bits)) λ n. tt

int-Answers :
    (o : Option ℤ) (r : Outcome JsonErr Dynamic)
    → Answers Any r
    → Answers Any (elim o [ none ↦ r | some z ↦ ok (i64 z) ])
unfolding Any
int-Answers none r h = h
int-Answers (some z) r h = tt

token_value-Answers : (t : Text) (token : Bytes) → Answers Any (token_value t token)
unfolding token_value Any
token_value-Answers t token =
    if-Answers Any (same_text token (b't' ∷ b'r' ∷ b'u' ∷ b'e' ∷ [])) _ _ tt (
      if-Answers Any (same_text token (b'f' ∷ b'a' ∷ b'l' ∷ b's' ∷ b'e' ∷ [])) _ _ tt (
        if-Answers Any (same_text token (b'n' ∷ b'u' ∷ b'l' ∷ b'l' ∷ [])) _ _ tt (
          if-Answers Any (contains token b'.' || contains token b'e' || contains token b'E') _ _
            (float-Answers t token)
            (int-Answers (parse_i64 token) (float t token) (float-Answers t token)))))

token_value-empty : (t : Text) → t.parse_f64 [] ≡ none → token_value t [] ≡ err bad_number
unfolding token_value same_text contains parse_i64 float
token_value-empty t h = ap (λ o. elim o [ none ↦ err bad_number | some bits ↦ ok (f64 bits) ]) h

take-none : (buf : Bytes) → take 0 buf ≡ []
take-none [] = refl
take-none (c ∷ rest) = refl

sized-Answers :
    (t : Text) (buf : Bytes) (n : ℕ)
    → t.parse_f64 [] ≡ none
    → n ≤ length buf
    → Answers (Used 1 (length buf)) (token_value t (take n buf) >>= λ value. ok (value, n))
sized-Answers t buf zero h l =
    subst (λ r. Answers (Used 1 (length buf)) (r >>= λ value. ok (value, 0)))
      (sym (ap (token_value t) (take-none buf) ∙ token_value-empty t h)) tt
sized-Answers t buf (suc n) h l =
    bind-Answers Any (Used 1 (length buf)) (token_value t (take (suc n) buf)) _
      (token_value-Answers t (take (suc n) buf)) λ v u. (omega arith, omega arith)

-- A token that means something is not empty.
token_at-Answers :
    (t : Text) (buf : Bytes)
    → t.parse_f64 [] ≡ none
    → Answers (Used 1 (length buf)) (token_at t buf)
unfolding token_at get_token Any
token_at-Answers t buf h = sized-Answers t buf (token_run buf) h (token_run-le buf)

value_at-Answers :
    (t : Text) (dec : Bytes → Read Dynamic) (c : ℕ) (rest : Bytes) (at : ℕ)
    → t.parse_f64 [] ≡ none
    → ((b : Bytes) → 1 ≤ length b → length b ≤ length rest → Answers (Used 1 (length b)) (dec b))
    → Answers (Used 1 (at + suc (length rest))) (value_at dec t (c ∷ rest) at)
unfolding value_at
value_at-Answers t dec c rest at h d =
    let n = suc (length rest) in
    if-Answers (Used 1 (at + n)) (c == b'[') _ _
      (list_at-Answers dec (length rest) d c rest at (omega arith))
      (if-Answers (Used 1 (at + n)) (c == b'{') _ _
        (map_at-Answers dec (length rest) d t c rest at (omega arith))
        (if-Answers (Used 1 (at + n)) (c == b'"') _ _
          (between-Answers 1 (at + n) 1 n (string_at t (c ∷ rest)) (string_at-Answers t c rest)
            (omega arith) (omega arith))
          (between-Answers 1 (at + n) 1 n (token_at t (c ∷ rest)) (token_at-Answers t (c ∷ rest) h)
            (omega arith) (omega arith))))

value_here :
    (t : Text) (dec : Bytes → Read Dynamic) (here : Bytes) (at n : ℕ)
    → t.parse_f64 [] ≡ none
    → 1 ≤ length here
    → at + length here ≤ n
    → ((b : Bytes) → 1 ≤ length b → suc (length b) ≤ n → Answers (Used 1 (length b)) (dec b))
    → Answers (Used 1 n) (value_at dec t here at)
value_here t dec [] at n p h l d = absurd (omega arith)
value_here t dec (c ∷ rest) at n p h l d =
    between-Answers 1 n 1 (at + suc (length rest)) (value_at dec t (c ∷ rest) at)
      (value_at-Answers t dec c rest at p λ b k m. d b k (omega arith)) (omega arith) (omega arith)

from_json_fuel-Answers :
    (t : Text) (fuel : ℕ) (buf : Bytes)
    → t.parse_f64 [] ≡ none
    → length buf < fuel
    → Answers (Used 1 (length buf)) (from_json_fuel t fuel buf)
unfolding from_json_fuel
from_json_fuel-Answers t zero buf p h = absurd (omega arith)
from_json_fuel-Answers t (suc fuel) buf p h =
    bind-Answers (λ n. n < length buf) (Used 1 (length buf)) (skip_white buf)
      (λ at. value_at (from_json_fuel t fuel) t (drop at buf) at) (skip_white-Answers buf)
      λ at k.
        value_here t (from_json_fuel t fuel) (drop at buf) at (length buf) p
          (omega (arith, length-drop at buf)) (omega (arith, length-drop at buf))
          λ b one l. from_json_fuel-Answers t fuel b p (omega arith)

-- On any buffer `from_json` returns a value, with at least one of its bytes and at most all of them
-- used, or an error: no index and no slice is out of bounds, and every loop ends. The parser of
-- floats is taken to refuse the empty text.
pub from_json-Answers :
    (t : Text) (buf : Bytes)
    → t.parse_f64 [] ≡ none
    → Answers (Used 1 (length buf)) (from_json t buf)
unfolding from_json
from_json-Answers t buf p = from_json_fuel-Answers t (length buf + 1) buf p (omega arith)
