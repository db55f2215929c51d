-- ===== src/Dynamic/Json/Decimal.antt =====
-- dynamic/src/json.rs: the integers that are written are read back.
use zust.Prelude.{
  ℕ, zero, suc, ◌+◌, ◌-◌, ◌*◌, ◌/◌, ◌%◌, ◌^◌, ◌≤◌, ◌<◌, ◌≡◌, refl, ap, ◌∙◌, arith, [], ◌∷◌, some,
  All, ltb, lt→ltb, Bool-cases, inl, inr,
}
use zust.Prelude.Int.{ℤ, pos, negsuc, InSigned}
use zust.Dynamic.Value.{Bytes}
use zust.Dynamic.Json.Numbers.{
  decimal_loop, decimal, int_to_string, digits_value, unsigned_value, positive, negative, bind,
  parse_i64,
}

abbrev pub IsDigit : ℕ → Type 0
IsDigit c = (b'0' ≤ c) × (c ≤ b'9')

digits_value-cons :
    (c : ℕ) (rest : Bytes) (acc : ℕ)
    → IsDigit c
    → digits_value (c ∷ rest) acc ≡ digits_value rest (acc * 10 + (c - b'0'))
unfolding digits_value
digits_value-cons c rest acc h = ground arith

decimal_loop-IsDigit :
    (fuel n : ℕ) (out : Bytes) → All IsDigit out → All IsDigit (decimal_loop fuel n out)
unfolding decimal_loop
decimal_loop-IsDigit zero n out h = h
decimal_loop-IsDigit (suc fuel) n out h = elim (Bool-cases (ltb n 10)) [
  | inl e ↦ rw e ((omega arith, omega arith), h)
  | inr e ↦
      rw e
        (decimal_loop-IsDigit fuel (n / 10) ((b'0' + n % 10) ∷ out) ((omega arith, omega arith), h))
]

pub digits_value-decimal_loop :
    (fuel n : ℕ) (out : Bytes)
    → n < fuel
    → digits_value (decimal_loop fuel n out) 0 ≡ digits_value out n
unfolding decimal_loop
digits_value-decimal_loop zero n out h = absurd (omega arith)
digits_value-decimal_loop (suc fuel) n out h = elim (Bool-cases (ltb n 10)) [
  | inl e ↦ rw e (
      digits_value-cons (b'0' + n % 10) out 0 (omega arith, omega arith)
      ∙ ap (digits_value out) (ground arith))
  | inr e ↦ rw e (
      digits_value-decimal_loop fuel (n / 10) ((b'0' + n % 10) ∷ out) (ground arith)
      ∙ digits_value-cons (b'0' + n % 10) out (n / 10) (omega arith, omega arith)
      ∙ ap (digits_value out) (ground arith))
]

-- The text of a number is a digit with more digits behind it.
pub decimal_loop-cons :
    (fuel n : ℕ) (out : Bytes)
    → (c : ℕ) × (rest : Bytes) × (decimal_loop (suc fuel) n out ≡ c ∷ rest)
unfolding decimal_loop
decimal_loop-cons zero n out = elim (Bool-cases (ltb n 10)) [
  | inl e ↦ (b'0' + n % 10, out, rw e refl)
  | inr e ↦ (b'0' + n % 10, out, rw e refl)
]
decimal_loop-cons (suc fuel) n out = elim (Bool-cases (ltb n 10)) [
  | inl e ↦ (b'0' + n % 10, out, rw e refl)
  | inr e ↦
      let (c, rest, q) = decimal_loop-cons fuel (n / 10) ((b'0' + n % 10) ∷ out) in
      (c, rest, rw e q)
]

unsigned_value-digits :
    (s : Bytes) (c : ℕ) (rest : Bytes) → s ≡ c ∷ rest → unsigned_value s ≡ digits_value s 0
unfolding unsigned_value
unsigned_value-digits [] c rest h = absurd (cc)
unsigned_value-digits (d ∷ s) c rest h = refl

unsigned_value-decimal : (n : ℕ) → unsigned_value (decimal n) ≡ some n
unfolding decimal unsigned_value digits_value
unsigned_value-decimal n =
    let (c, rest, q) = decimal_loop-cons n n [] in
    unsigned_value-digits (decimal_loop (suc n) n []) c rest q
    ∙ digits_value-decimal_loop (suc n) n [] (omega arith)

-- What starts with a digit has no sign.
parse_i64-unsigned :
    (s : Bytes) (c : ℕ) (rest : Bytes)
    → s ≡ c ∷ rest
    → All IsDigit s
    → parse_i64 s ≡ bind (unsigned_value s) positive
unfolding parse_i64
parse_i64-unsigned [] c rest h d = absurd (cc)
parse_i64-unsigned (x ∷ s) c rest h d = ground arith

pub decimal-IsDigit : (n : ℕ) → All IsDigit (decimal n)
unfolding decimal
decimal-IsDigit n = decimal_loop-IsDigit (suc n) n [] tt

parse_i64-minus : (s : Bytes) → parse_i64 (b'-' ∷ s) ≡ bind (unsigned_value s) negative
unfolding parse_i64
parse_i64-minus s = refl

-- Every i64 that is printed is parsed to itself.
pub parse_i64-int_to_string : (z : ℤ) → InSigned (2 ^ 63) z → parse_i64 (int_to_string z) ≡ some z
unfolding int_to_string bind positive negative decimal
parse_i64-int_to_string (pos n) h =
    let (c, rest, q) = decimal_loop-cons n n [] in
    parse_i64-unsigned (decimal n) c rest q (decimal-IsDigit n)
    ∙ rw (unsigned_value-decimal n, lt→ltb n (2 ^ 63) h) refl
parse_i64-int_to_string (negsuc n) h =
    parse_i64-minus (decimal (suc n))
    ∙ rw (unsigned_value-decimal (suc n), lt→ltb n (2 ^ 63) h) refl
