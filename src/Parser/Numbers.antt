-- ===== src/Parser/Numbers.antt =====
-- parser/src/lib.rs: number literals, on the rest of the buffer.
pub mod Suffixes
pub mod Decimal
pub mod Bases
use zust.Prelude.{
  ℕ, ◌+◌, ◌-◌, ◌*◌, ◌/◌, ◌^◌, ◌%◌, Bool, true, false, not, ◌&&◌, ◌||◌, Option, none, some, List, [],
  ◌∷◌, ◌++◌, ltb, leb, ◌==◌, if◌then◌else◌,
}
use zust.Prelude.Int.{ℤ, pos, negsuc, of_word}
use zust.Prelude.Outcome.{Outcome, ok, err, ◌>>=◌}
use zust.Dynamic.Value.{Bytes, Dynamic, u8, i8, u16, i16, u32, i32, u64, i64, f16, f32, f64}
use zust.Dynamic.Types.{Ty}
use zust.Dynamic.Json.Strings.{hex_value}
use zust.Parser.Reading.{just, ends_here}
use zust.Parser.Space.{
  ParseErr, ended, not_expected, not_number, bad_number, out_of_range, bad_suffix,
}
use zust.Parser.Strings.{collect, is_hex_digit}

-- Floats, by their bits: what the standard library and the conversions of half floats compute.
pub record Reals : Type 0 where
  pub parse_f64 : Bytes → Option ℕ
  pub of_int : ℤ → ℕ
  pub of_int_32 : ℤ → ℕ
  pub to_f16 : ℕ → ℕ
  pub to_f32 : ℕ → ℕ
  pub less : ℕ → ℕ → Bool
  pub finite : ℕ → Bool
  pub whole : ℕ → Bool
  pub to_signed : ℕ → ℕ → ℤ
  pub to_unsigned : ℕ → ℕ → ℕ

abbrev pub is_digit : ℕ → Bool
is_digit c = leb b'0' c && leb c b'9'

-- The types of `TYPES` that are native.
abbrev pub native_types : List (Bytes × Ty)
native_types =
    (b'i' ∷ b'8' ∷ [], Ty.i8)
    ∷ (b'i' ∷ b'1' ∷ b'6' ∷ [], Ty.i16)
    ∷ (b'i' ∷ b'3' ∷ b'2' ∷ [], Ty.i32)
    ∷ (b'i' ∷ b'6' ∷ b'4' ∷ [], Ty.i64)
    ∷ (b'i' ∷ b's' ∷ b'i' ∷ b'z' ∷ b'e' ∷ [], Ty.i64)
    ∷ (b'u' ∷ b'8' ∷ [], Ty.u8)
    ∷ (b'u' ∷ b'1' ∷ b'6' ∷ [], Ty.u16)
    ∷ (b'u' ∷ b'3' ∷ b'2' ∷ [], Ty.u32)
    ∷ (b'u' ∷ b'6' ∷ b'4' ∷ [], Ty.u64)
    ∷ (b'u' ∷ b's' ∷ b'i' ∷ b'z' ∷ b'e' ∷ [], Ty.u64)
    ∷ (b'f' ∷ b'1' ∷ b'6' ∷ [], Ty.f16)
    ∷ (b'f' ∷ b'3' ∷ b'2' ∷ [], Ty.f32)
    ∷ (b'f' ∷ b'6' ∷ b'4' ∷ [], Ty.f64)
    ∷ []

unfoldable pub suffix_loop : List (Bytes × Ty) → Bytes → Option Ty × Bytes
suffix_loop [] input = (none, input)
suffix_loop ((name, ty) ∷ types) input =
    let next = suffix_loop types input in
    elim (just name input) [
      | none ↦ next
      | some rest ↦ if ends_here rest then (some ty, rest) else next
    ]

unfoldable pub numeric_suffix : Bytes → Option Ty × Bytes
unfolding suffix_loop
numeric_suffix input = suffix_loop native_types input

-- `u128::from_str_radix`, before its bound.
unfoldable pub radix_value : ℕ → Bytes → ℕ → Option ℕ
radix_value radix [] value = some value
radix_value radix (c ∷ digits) value = elim (hex_value c) [
  | none ↦ none
  | some d ↦ radix_value radix digits (value * radix + d)
]

unfoldable pub magnitude : ℕ → Bytes → Outcome ParseErr ℕ
magnitude radix digits = elim (radix_value radix digits 0) [
  | none ↦ err out_of_range
  | some n ↦ if ltb n (2 ^ 128) then ok n else err out_of_range
]

unfoldable pub max_allowed : ℕ → Bool → ℕ → ℕ
max_allowed radix signed bits =
    if radix == 10 && signed then (2 ^ bits - 1) / 2 + 1 else 2 ^ bits - 1

-- `magnitude as i8`, ...
abbrev pub as_signed : ℕ → ℕ → ℤ
as_signed half n = of_word half (n % (2 * half))

unfoldable pub in_range : ℕ → Bool → ℕ → ℕ → Dynamic → Outcome ParseErr Dynamic
in_range radix signed bits n value =
    if ltb (max_allowed radix signed bits) n then err out_of_range else ok value

unfoldable pub empty_digits : Bytes → Bool
empty_digits [] = true
empty_digits (c ∷ digits) = false

-- The fraction and the exponent of a number, each empty where it has none, and the rest.
unfoldable pub fraction : Bytes → Bytes × Bytes
fraction (c ∷ d ∷ rest) =
    let (run, more) = collect is_digit (d ∷ rest) in
    if c == b'.' && is_digit d then (c ∷ run, more) else ([], c ∷ d ∷ rest)
fraction input = ([], input)

unfoldable pub sign : Bytes → Bytes × Bytes
sign [] = ([], [])
sign (c ∷ rest) = if c == b'+' || c == b'-' then (c ∷ [], rest) else ([], c ∷ rest)

unfoldable pub exponent : Bytes → Bytes × Bytes
exponent [] = ([], [])
exponent (c ∷ rest) =
    let (signed, behind) = sign rest in
    let (run, more) = collect is_digit behind in
    if (c == b'e' || c == b'E') && not (empty_digits run)
    then (c ∷ (signed ++ run), more)
    else ([], c ∷ rest)

module _ (R : Reals) where
  unfoldable pub int_of : ℕ → Ty → ℕ → Outcome ParseErr Dynamic
  int_of radix Ty.i8 n = in_range radix true 8 n (i8 (as_signed (2 ^ 7) n))
  int_of radix Ty.i16 n = in_range radix true 16 n (i16 (as_signed (2 ^ 15) n))
  int_of radix Ty.i32 n = in_range radix true 32 n (i32 (as_signed (2 ^ 31) n))
  int_of radix Ty.i64 n = in_range radix true 64 n (i64 (as_signed (2 ^ 63) n))
  int_of radix Ty.u8 n = in_range radix false 8 n (u8 (n % 2 ^ 8))
  int_of radix Ty.u16 n = in_range radix false 16 n (u16 (n % 2 ^ 16))
  int_of radix Ty.u32 n = in_range radix false 32 n (u32 (n % 2 ^ 32))
  int_of radix Ty.u64 n = in_range radix false 64 n (u64 (n % 2 ^ 64))
  int_of radix Ty.f16 n = ok (f16 (R.to_f16 (R.of_int (pos n))))
  int_of radix Ty.f32 n = ok (f32 (R.of_int_32 (pos n)))
  int_of radix Ty.f64 n = ok (f64 (R.of_int (pos n)))
  int_of radix _ n = err bad_suffix

  unfoldable pub int_literal : Bytes → ℕ → Option Ty → Outcome ParseErr Dynamic
  int_literal digits radix none = magnitude radix digits >>= int_of radix Ty.i64
  int_literal digits radix (some ty) = magnitude radix digits >>= int_of radix ty

  -- An integer from a float between two bounds.
  unfoldable pub whole_float : ℕ → ℤ → ℤ → Dynamic → Outcome ParseErr Dynamic
  whole_float value low high result =
      if not (R.finite value)
        || R.less value (R.of_int low)
        || R.less (R.of_int high) value
        || not (R.whole value)
      then err out_of_range
      else ok result

  unfoldable pub finite_float : ℕ → Dynamic → Outcome ParseErr Dynamic
  finite_float value result = if R.finite value then ok result else err bad_number

  unfoldable pub float_of : Ty → ℕ → Outcome ParseErr Dynamic
  float_of Ty.i8 v = whole_float v (negsuc (2 ^ 7 - 1)) (pos (2 ^ 7 - 1)) (i8 (R.to_signed 8 v))
  float_of Ty.i16 v =
      whole_float v (negsuc (2 ^ 15 - 1)) (pos (2 ^ 15 - 1)) (i16 (R.to_signed 16 v))
  float_of Ty.i32 v =
      whole_float v (negsuc (2 ^ 31 - 1)) (pos (2 ^ 31 - 1)) (i32 (R.to_signed 32 v))
  float_of Ty.i64 v =
      whole_float v (negsuc (2 ^ 63 - 1)) (pos (2 ^ 63 - 1)) (i64 (R.to_signed 64 v))
  float_of Ty.u8 v = whole_float v (pos 0) (pos (2 ^ 8 - 1)) (u8 (R.to_unsigned 8 v))
  float_of Ty.u16 v = whole_float v (pos 0) (pos (2 ^ 16 - 1)) (u16 (R.to_unsigned 16 v))
  float_of Ty.u32 v = whole_float v (pos 0) (pos (2 ^ 32 - 1)) (u32 (R.to_unsigned 32 v))
  float_of Ty.u64 v = whole_float v (pos 0) (pos (2 ^ 64 - 1)) (u64 (R.to_unsigned 64 v))
  float_of Ty.f16 v = finite_float v (f16 (R.to_f16 v))
  float_of Ty.f32 v = finite_float v (f32 (R.to_f32 v))
  float_of Ty.f64 v = finite_float v (f64 v)
  float_of _ v = if R.finite v then err bad_suffix else err bad_number

  unfoldable pub float_literal : Bytes → Option Ty → Outcome ParseErr Dynamic
  float_literal digits suffix = elim (R.parse_f64 digits) [
    | none ↦ err bad_number
    | some value ↦ elim suffix [ none ↦ ok (f32 (R.to_f32 value)) | some ty ↦ float_of ty value ]
  ]

  -- A number with a prefix, behind it.
  unfoldable pub based : ℕ → (ℕ → Bool) → Bytes → Outcome ParseErr (Dynamic × Bytes)
  based radix test input =
      let (digits, rest) = collect test input in
      let (suffix, after) = numeric_suffix rest in
      if empty_digits digits
      then err not_expected
      else (int_literal digits radix suffix >>= λ value. ok (value, after))

  unfoldable pub decimal_number : Bytes → Outcome ParseErr (Dynamic × Bytes)
  unfolding fraction exponent
  decimal_number input =
      let (run, behind) = collect is_digit input in
      let (frac, more) = fraction behind in
      let (exp, rest) = exponent more in
      let (suffix, after) = numeric_suffix rest in
      if empty_digits (run ++ frac ++ exp)
      then err not_number
      else if empty_digits (frac ++ exp)
      then (int_literal run 10 suffix >>= λ value. ok (value, after))
      else (float_literal (run ++ frac ++ exp) suffix >>= λ value. ok (value, after))

  -- Behind a zero.
  unfoldable pub number_after_0 : Bytes → Outcome ParseErr (Dynamic × Bytes)
  unfolding decimal_number
  number_after_0 [] = err ended
  number_after_0 (c ∷ rest) =
      if c == b'b' || c == b'B'
      then based 2 (λ d. d == b'0' || d == b'1') rest
      else if c == b'o' || c == b'O'
      then based 8 (λ d. leb b'0' d && leb d b'7') rest
      else if c == b'x' || c == b'X'
      then based 16 is_hex_digit rest
      else decimal_number (b'0' ∷ c ∷ rest)

  unfoldable pub number : Bytes → Outcome ParseErr (Dynamic × Bytes)
  unfolding number_after_0
  number [] = err ended
  number (c ∷ rest) = if c == b'0' then number_after_0 rest else decimal_number (c ∷ rest)
