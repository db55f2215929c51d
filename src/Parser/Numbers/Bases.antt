-- ===== src/Parser/Numbers/Bases.antt =====
-- parser/src/lib.rs: `number` reads binary, octal and hexadecimal integers.
use zust.Prelude.{
  ℕ, ◌-◌, ◌^◌, ◌<◌, ◌≡◌, refl, arith, Bool, true, false, not, ◌&&◌, ◌||◌, some, ◌∷◌, ◌++◌, All, ltb,
  leb, ◌==◌, if◌then◌else◌,
}
use zust.Prelude.Outcome.{ok, err, ◌>>=◌}
use zust.Dynamic.Value.{Bytes}
use zust.Dynamic.Types.{Ty}
use zust.Parser.Reading.{contains, not_ident}
use zust.Parser.Space.{out_of_range}
use zust.Parser.Strings.{collect, is_hex_digit}
use zust.Parser.Strings.Pieces.{collect-All}
use zust.Parser.Numbers.{
  Reals, radix_value, magnitude, max_allowed, in_range, empty_digits, int_of, int_literal, based,
  number, number_after_0,
}
use zust.Parser.Numbers.Suffixes.{
  Suffix, unsuffixed, as_i8, as_i16, as_i32, as_i64, as_isize, as_u8, as_u16, as_u32, as_u64,
  as_usize, suffix_name, suffix_type, with_suffix, every-contains, numeric_suffix-name,
}
use zust.Parser.Numbers.Decimal.{bounded_twice, outcome}

pub data Base : Type 0 where
  binary octal hexadecimal : Base

abbrev pub letter : Base → ℕ
letter binary = b'b'
letter octal = b'o'
letter hexadecimal = b'x'

abbrev pub radix : Base → ℕ
radix binary = 2
radix octal = 8
radix hexadecimal = 16

abbrev pub is_digit_of : Base → ℕ → Bool
is_digit_of binary c = c == b'0' || c == b'1'
is_digit_of octal c = leb b'0' c && leb c b'7'
is_digit_of hexadecimal c = is_hex_digit c

-- The largest word of the type.
unfoldable pub largest : Suffix → ℕ
largest unsuffixed = 2 ^ 64 - 1
largest as_i8 = 2 ^ 8 - 1
largest as_i16 = 2 ^ 16 - 1
largest as_i32 = 2 ^ 32 - 1
largest as_i64 = 2 ^ 64 - 1
largest as_isize = 2 ^ 64 - 1
largest as_u8 = 2 ^ 8 - 1
largest as_u16 = 2 ^ 16 - 1
largest as_u32 = 2 ^ 32 - 1
largest as_u64 = 2 ^ 64 - 1
largest as_usize = 2 ^ 64 - 1

no_bit : (a : Bool) → not a ≡ true → a ≡ false
no_bit a h = ground arith

not_ident-is_digit_of : (b : Base) (c : ℕ) → contains not_ident c ≡ true → is_digit_of b c ≡ false
unfolding is_hex_digit
not_ident-is_digit_of binary c h =
    no_bit _ (every-contains (λ x. not (is_digit_of binary x)) not_ident c refl h)
not_ident-is_digit_of octal c h =
    no_bit _ (every-contains (λ x. not (is_digit_of octal x)) not_ident c refl h)
not_ident-is_digit_of hexadecimal c h =
    no_bit _ (every-contains (λ x. not (is_digit_of hexadecimal x)) not_ident c refl h)

letters_no_digits : (b : Base) → (is_digit_of b b'i' ≡ false) × (is_digit_of b b'u' ≡ false)
unfolding is_hex_digit
letters_no_digits binary = (refl, refl)
letters_no_digits octal = (refl, refl)
letters_no_digits hexadecimal = (refl, refl)

collect-digits :
    (b : Base) (digits : Bytes) (s : Suffix) (c : ℕ) (rest : Bytes)
    → All (λ d. is_digit_of b d ≡ true) digits
    → contains not_ident c ≡ true
    → collect (is_digit_of b) (digits ++ (suffix_name s ++ c ∷ rest))
      ≡ (digits, suffix_name s ++ c ∷ rest)
unfolding suffix_name
collect-digits b digits unsuffixed c rest h k =
    collect-All (is_digit_of b) digits rest c h (not_ident-is_digit_of b c k)
collect-digits b digits as_i8 c rest h k =
    collect-All (is_digit_of b) digits _ b'i' h (letters_no_digits b).0
collect-digits b digits as_i16 c rest h k =
    collect-All (is_digit_of b) digits _ b'i' h (letters_no_digits b).0
collect-digits b digits as_i32 c rest h k =
    collect-All (is_digit_of b) digits _ b'i' h (letters_no_digits b).0
collect-digits b digits as_i64 c rest h k =
    collect-All (is_digit_of b) digits _ b'i' h (letters_no_digits b).0
collect-digits b digits as_isize c rest h k =
    collect-All (is_digit_of b) digits _ b'i' h (letters_no_digits b).0
collect-digits b digits as_u8 c rest h k =
    collect-All (is_digit_of b) digits _ b'u' h (letters_no_digits b).1
collect-digits b digits as_u16 c rest h k =
    collect-All (is_digit_of b) digits _ b'u' h (letters_no_digits b).1
collect-digits b digits as_u32 c rest h k =
    collect-All (is_digit_of b) digits _ b'u' h (letters_no_digits b).1
collect-digits b digits as_u64 c rest h k =
    collect-All (is_digit_of b) digits _ b'u' h (letters_no_digits b).1
collect-digits b digits as_usize c rest h k =
    collect-All (is_digit_of b) digits _ b'u' h (letters_no_digits b).1

magnitude-digits :
    (r n : ℕ) (digits : Bytes)
    → radix_value r digits 0 ≡ some n
    → magnitude r digits ≡ (if ltb n (2 ^ 128) then ok n else err out_of_range)
unfolding magnitude
magnitude-digits r n digits e = rw (magnitude, e) refl

module _ (R : Reals) where
  int_of-word :
      (r : ℕ) (ty : Ty) (s : Suffix) (digits : Bytes) (n : ℕ)
      → radix_value r digits 0 ≡ some n
      → ((m : ℕ)
          → int_of R r ty m
            ≡ (if ltb (largest s) m then err out_of_range else ok (with_suffix s m)))
      → largest s < 2 ^ 128
      → (magnitude r digits >>= int_of R r ty)
        ≡ (if ltb (largest s) n then err out_of_range else ok (with_suffix s n))
  int_of-word r ty s digits n e h k =
      rw (magnitude-digits r n digits e)
        (bounded_twice (int_of R r ty) (with_suffix s) (2 ^ 128) (largest s) n h k)

  int_literal-word :
      (r : ℕ) (s : Suffix) (digits : Bytes) (n : ℕ)
      → (r == 10) ≡ false
      → radix_value r digits 0 ≡ some n
      → int_literal R digits r (suffix_type s)
        ≡ (if ltb (largest s) n then err out_of_range else ok (with_suffix s n))
  unfolding int_literal int_of in_range max_allowed largest with_suffix
  int_literal-word r unsuffixed ds n h e =
      int_of-word r Ty.i64 unsuffixed ds n e (λ m. rw h refl) (omega arith)
  int_literal-word r as_i8 ds n h e =
      int_of-word r Ty.i8 as_i8 ds n e (λ m. rw h refl) (omega arith)
  int_literal-word r as_i16 ds n h e =
      int_of-word r Ty.i16 as_i16 ds n e (λ m. rw h refl) (omega arith)
  int_literal-word r as_i32 ds n h e =
      int_of-word r Ty.i32 as_i32 ds n e (λ m. rw h refl) (omega arith)
  int_literal-word r as_i64 ds n h e =
      int_of-word r Ty.i64 as_i64 ds n e (λ m. rw h refl) (omega arith)
  int_literal-word r as_isize ds n h e =
      int_of-word r Ty.i64 as_isize ds n e (λ m. rw h refl) (omega arith)
  int_literal-word r as_u8 ds n h e =
      int_of-word r Ty.u8 as_u8 ds n e (λ m. rw h refl) (omega arith)
  int_literal-word r as_u16 ds n h e =
      int_of-word r Ty.u16 as_u16 ds n e (λ m. rw h refl) (omega arith)
  int_literal-word r as_u32 ds n h e =
      int_of-word r Ty.u32 as_u32 ds n e (λ m. rw h refl) (omega arith)
  int_literal-word r as_u64 ds n h e =
      int_of-word r Ty.u64 as_u64 ds n e (λ m. rw h refl) (omega arith)
  int_literal-word r as_usize ds n h e =
      int_of-word r Ty.u64 as_usize ds n e (λ m. rw h refl) (omega arith)

  based-digits :
      (b : Base) (s : Suffix) (digits : Bytes) (n c : ℕ) (rest : Bytes)
      → (radix b == 10) ≡ false
      → All (λ d. is_digit_of b d ≡ true) digits
      → empty_digits digits ≡ false
      → radix_value (radix b) digits 0 ≡ some n
      → contains not_ident c ≡ true
      → based R (radix b) (is_digit_of b) (digits ++ (suffix_name s ++ c ∷ rest))
        ≡ (if ltb (largest s) n then err out_of_range else ok (with_suffix s n, c ∷ rest))
  unfolding based
  based-digits b s digits n c rest r h k e q =
      rw
        (
          collect-digits b digits s c rest h q,
          numeric_suffix-name s c rest q,
          k,
          int_literal-word (radix b) s digits n r e,
        )
        (outcome (largest s) n (with_suffix s n) (c ∷ rest))

  -- A number with the prefix of a base, 0b, 0o or 0x, with or without an integer suffix, is read by
  -- its bits: it may be as large as a word of the type, also where the type is signed, and is refused
  -- exactly above that. The rest of the buffer is left. The number has a digit at least, and behind it
  -- stands a byte that is not part of an identifier.
  pub number-base :
      (b : Base) (s : Suffix) (digits : Bytes) (n c : ℕ) (rest : Bytes)
      → All (λ d. is_digit_of b d ≡ true) digits
      → empty_digits digits ≡ false
      → radix_value (radix b) digits 0 ≡ some n
      → contains not_ident c ≡ true
      → number R (b'0' ∷ letter b ∷ (digits ++ (suffix_name s ++ c ∷ rest)))
        ≡ (if ltb (largest s) n then err out_of_range else ok (with_suffix s n, c ∷ rest))
  unfolding number number_after_0
  number-base binary s digits n c rest h k e q = based-digits binary s digits n c rest refl h k e q
  number-base octal s digits n c rest h k e q = based-digits octal s digits n c rest refl h k e q
  number-base hexadecimal s digits n c rest h k e q =
      based-digits hexadecimal s digits n c rest refl h k e q
