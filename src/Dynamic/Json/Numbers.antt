-- ===== src/Dynamic/Json/Numbers.antt =====
-- dynamic/src/json.rs: tokens, and the integers of the standard library that it prints and parses.
use zust.Prelude.{
  ℕ, zero, suc, ◌+◌, ◌-◌, ◌*◌, ◌/◌, ◌%◌, ◌^◌, Bool, true, false, ◌&&◌, ◌||◌, [], ◌∷◌, Option, none,
  some, take, ltb, leb, ◌==◌, if◌then◌else◌,
}
use zust.Prelude.Int.{ℤ, pos, negsuc}
use zust.Prelude.Outcome.{Outcome, ok, err}
use zust.Dynamic.Value.{Bytes, Dynamic, null, bool, i64, f64, same_text}
use zust.Dynamic.Json.Buffer.{JsonErr, bad_number, Text}

abbrev pub token_bytes : Bytes
token_bytes =
    b'0' ∷ b'1' ∷ b'2' ∷ b'3' ∷ b'4' ∷ b'5' ∷ b'6' ∷ b'7' ∷ b'8' ∷ b'9' ∷ b'0' ∷ b'.' ∷ b'-' ∷ b'+'
    ∷ b'e' ∷ b'E' ∷ b't' ∷ b'r' ∷ b'u' ∷ b'e' ∷ b'f' ∷ b'a' ∷ b'l' ∷ b's' ∷ b'e' ∷ b'n' ∷ b'u'
    ∷ b'l' ∷ b'l' ∷ []

unfoldable pub contains : Bytes → ℕ → Bool
contains [] c = false
contains (x ∷ xs) c = x == c || contains xs c

unfoldable pub token_run : Bytes → ℕ
token_run [] = 0
token_run (c ∷ rest) = let n = token_run rest in if contains token_bytes c then suc n else 0

-- A token is ASCII, so that its UTF-8 check never fails.
unfoldable pub get_token : Bytes → Bytes × ℕ
get_token buf = let pos = token_run buf in (take pos buf, pos)

-- `to_string` of an unsigned_value number, on fuel that its value bounds.
unfoldable pub decimal_loop : ℕ → ℕ → Bytes → Bytes
decimal_loop zero n out = out
decimal_loop (suc fuel) n out =
    let digit = b'0' + n % 10 in
    let more = decimal_loop fuel (n / 10) (digit ∷ out) in if ltb n 10 then digit ∷ out else more

unfoldable pub decimal : ℕ → Bytes
decimal n = decimal_loop (suc n) n []

unfoldable pub int_to_string : ℤ → Bytes
int_to_string (pos n) = decimal n
int_to_string (negsuc n) = b'-' ∷ decimal (suc n)

unfoldable pub digits_value : Bytes → ℕ → Option ℕ
digits_value [] acc = some acc
digits_value (c ∷ rest) acc =
    let value = digits_value rest (acc * 10 + (c - b'0')) in
    if leb b'0' c && leb c b'9' then value else none

unfoldable pub unsigned_value : Bytes → Option ℕ
unsigned_value [] = none
unsigned_value (c ∷ rest) = digits_value (c ∷ rest) 0

unfoldable pub positive : ℕ → Option ℤ
positive n = if ltb n (2 ^ 63) then some (pos n) else none

unfoldable pub negative : ℕ → Option ℤ
negative zero = some (pos 0)
negative (suc n) = if ltb n (2 ^ 63) then some (negsuc n) else none

unfoldable pub bind : {A B : Type 0} → Option A → (A → Option B) → Option B
bind none f = none
bind (some a) f = f a

-- `parse::<i64>()`: a sign, digits, and a value in range.
unfoldable pub parse_i64 : Bytes → Option ℤ
parse_i64 [] = none
parse_i64 (c ∷ rest) =
    if c == b'-'
    then bind (unsigned_value rest) negative
    else if c == b'+'
    then bind (unsigned_value rest) positive
    else bind (unsigned_value (c ∷ rest)) positive

unfoldable pub float : Text → Bytes → Outcome JsonErr Dynamic
float t token = elim (t.parse_f64 token) [ none ↦ err bad_number | some bits ↦ ok (f64 bits) ]

-- What a token means.
unfoldable pub token_value : Text → Bytes → Outcome JsonErr Dynamic
token_value t token =
    if same_text token (b't' ∷ b'r' ∷ b'u' ∷ b'e' ∷ [])
    then ok (bool true)
    else if same_text token (b'f' ∷ b'a' ∷ b'l' ∷ b's' ∷ b'e' ∷ [])
    then ok (bool false)
    else if same_text token (b'n' ∷ b'u' ∷ b'l' ∷ b'l' ∷ [])
    then ok null
    else if contains token b'.' || contains token b'e' || contains token b'E'
    then float t token
    else elim (parse_i64 token) [ none ↦ float t token | some z ↦ ok (i64 z) ]
