-- ===== src/Parser/Numbers/Decimal.antt =====
-- parser/src/lib.rs: `number` reads decimal integers, with and without a suffix.
use zust.Prelude.{
  ℕ, suc, ◌+◌, ◌-◌, ◌*◌, ◌^◌, ◌<◌, ◌≡◌, refl, sym, ◌∙◌, arith, true, false, ◌||◌, some, [], ◌∷◌,
  ◌++◌, append-nil, All, Bool-cases, inl, inr, ltb, ◌==◌, if◌then◌else◌,
}
use zust.Prelude.Outcome.{Outcome, ok, err, ◌>>=◌}
use zust.Dynamic.Value.{Bytes, Dynamic}
use zust.Dynamic.Types.{Ty}
use zust.Dynamic.Json.Strings.{hex_value}
use zust.Dynamic.Json.Numbers.{decimal, digits_value}
use zust.Dynamic.Json.Decimal.{
  IsDigit, decimal-IsDigit, decimal_loop-cons, digits_value-decimal_loop,
}
use zust.Parser.Reading.{contains, not_ident}
use zust.Parser.Space.{ParseErr, out_of_range}
use zust.Parser.Strings.{collect}
use zust.Parser.Strings.Pieces.{collect-All}
use zust.Parser.Numbers.{
  Reals, is_digit, numeric_suffix, radix_value, magnitude, max_allowed, in_range, empty_digits,
  int_of, int_literal, decimal_number, number_after_0, number,
}
use zust.Parser.Numbers.Suffixes.{
  Suffix, suffix_name, suffix_type, limit, with_suffix, byte→eq, Behind, suffix-Behind,
  fraction-Behind, exponent-Behind, numeric_suffix-name, unsuffixed, as_i8, as_i16, as_i32, as_i64,
  as_isize, as_u8, as_u16, as_u32, as_u64, as_usize,
}

hex_value-digit : (c : ℕ) → IsDigit c → hex_value c ≡ some (c - b'0')
unfolding hex_value
hex_value-digit c h = ground arith

digits_value-IsDigit :
    (c : ℕ) (ds : Bytes) (v : ℕ)
    → IsDigit c
    → digits_value (c ∷ ds) v ≡ digits_value ds (v * 10 + (c - b'0'))
unfolding digits_value
digits_value-IsDigit c ds v h = ground arith

radix_value-digits : (ds : Bytes) (v : ℕ) → All IsDigit ds → radix_value 10 ds v ≡ digits_value ds v
unfolding radix_value
radix_value-digits [] v h = unfold digits_value in refl
radix_value-digits (c ∷ ds) v h =
    rw (radix_value, hex_value-digit c h.0)
      (radix_value-digits ds (v * 10 + (c - b'0')) h.1 ∙ sym (digits_value-IsDigit c ds v h.0))

radix_value-decimal : (n : ℕ) → radix_value 10 (decimal n) 0 ≡ some n
unfolding decimal digits_value
radix_value-decimal n =
    radix_value-digits (decimal n) 0 (decimal-IsDigit n)
    ∙ digits_value-decimal_loop (suc n) n [] (omega arith)

magnitude-decimal :
    (n : ℕ) → magnitude 10 (decimal n) ≡ (if ltb n (2 ^ 128) then ok n else err out_of_range)
unfolding magnitude
magnitude-decimal n = rw (magnitude, radix_value-decimal n) refl

pub bounded_twice :
    (f : ℕ → Outcome ParseErr Dynamic) (v : ℕ → Dynamic) (b l n : ℕ)
    → ((m : ℕ) → f m ≡ (if ltb l m then err out_of_range else ok (v m)))
    → l < b
    → ((if ltb n b then ok n else err out_of_range) >>= f)
      ≡ (if ltb l n then err out_of_range else ok (v n))
bounded_twice f v b l n h k = elim (Bool-cases (ltb n b)) [
  | inl e ↦ rw e (h n)
  | inr e ↦ rw (e, large l n b k e) refl
]
  where
    large : (l n b : ℕ) → l < b → ltb n b ≡ false → ltb l n ≡ true
    large l n b k e = ground arith

-- No byte of a prefix.
abbrev Unprefixed : ℕ → Type 0
Unprefixed c =
    ((c == b'b' || c == b'B') ≡ false)
    × ((c == b'o' || c == b'O') ≡ false)
    × ((c == b'x' || c == b'X') ≡ false)

digit-Unprefixed : (c : ℕ) → IsDigit c → Unprefixed c
digit-Unprefixed c h = (ground arith, ground arith, ground arith)

digits-All : (ds : Bytes) → All IsDigit ds → All (λ c. is_digit c ≡ true) ds
digits-All [] h = tt
digits-All (c ∷ ds) h = (ground (arith, h.0), digits-All ds h.1)

not_empty-decimal : (n : ℕ) → empty_digits (decimal n) ≡ false
unfolding decimal empty_digits
not_empty-decimal n = let (c, rest, q) = decimal_loop-cons n n [] in rw q refl

not_empty-nil : (ds : Bytes) → empty_digits ds ≡ false → empty_digits (ds ++ []) ≡ false
unfolding empty_digits
not_empty-nil [] h = h
not_empty-nil (c ∷ ds) h = refl

pub outcome :
    (l n : ℕ) (v : Dynamic) (rest : Bytes)
    → ◌>>=◌ {B = Dynamic × Bytes}
        (if ltb l n then err out_of_range else ok v)
        (λ value. ok (value, rest))
      ≡ (if ltb l n then err out_of_range else ok (v, rest))
outcome l n v rest = elim (Bool-cases (ltb l n)) [ inl e ↦ rw e refl | inr e ↦ rw e refl ]

module _ (R : Reals) where
  int_of-suffix :
      (ty : Ty) (s : Suffix) (n : ℕ)
      → ((m : ℕ)
          → int_of R 10 ty m ≡ (if ltb (limit s) m then err out_of_range else ok (with_suffix s m)))
      → limit s < 2 ^ 128
      → (magnitude 10 (decimal n) >>= int_of R 10 ty)
        ≡ (if ltb (limit s) n then err out_of_range else ok (with_suffix s n))
  int_of-suffix ty s n h k =
      rw (magnitude-decimal n)
        (bounded_twice (int_of R 10 ty) (with_suffix s) (2 ^ 128) (limit s) n h k)

  int_literal-decimal :
      (s : Suffix) (n : ℕ)
      → int_literal R (decimal n) 10 (suffix_type s)
        ≡ (if ltb (limit s) n then err out_of_range else ok (with_suffix s n))
  unfolding int_literal int_of in_range max_allowed limit with_suffix
  int_literal-decimal unsuffixed n = int_of-suffix Ty.i64 unsuffixed n (λ m. refl) (omega arith)
  int_literal-decimal as_i8 n = int_of-suffix Ty.i8 as_i8 n (λ m. refl) (omega arith)
  int_literal-decimal as_i16 n = int_of-suffix Ty.i16 as_i16 n (λ m. refl) (omega arith)
  int_literal-decimal as_i32 n = int_of-suffix Ty.i32 as_i32 n (λ m. refl) (omega arith)
  int_literal-decimal as_i64 n = int_of-suffix Ty.i64 as_i64 n (λ m. refl) (omega arith)
  int_literal-decimal as_isize n = int_of-suffix Ty.i64 as_isize n (λ m. refl) (omega arith)
  int_literal-decimal as_u8 n = int_of-suffix Ty.u8 as_u8 n (λ m. refl) (omega arith)
  int_literal-decimal as_u16 n = int_of-suffix Ty.u16 as_u16 n (λ m. refl) (omega arith)
  int_literal-decimal as_u32 n = int_of-suffix Ty.u32 as_u32 n (λ m. refl) (omega arith)
  int_literal-decimal as_u64 n = int_of-suffix Ty.u64 as_u64 n (λ m. refl) (omega arith)
  int_literal-decimal as_usize n = int_of-suffix Ty.u64 as_usize n (λ m. refl) (omega arith)

  -- The digits, with the text behind them.
  collect-decimal :
      (n : ℕ) (t : Bytes) → Behind t → collect is_digit (decimal n ++ t) ≡ (decimal n, t)
  collect-decimal n [] h = absurd h
  collect-decimal n (c ∷ t) h =
      collect-All is_digit (decimal n) t c (digits-All (decimal n) (decimal-IsDigit n)) h.0.0

  decimal_number-decimal :
      (n : ℕ) (s : Suffix) (t rest : Bytes)
      → Behind t
      → numeric_suffix t ≡ (suffix_type s, rest)
      → decimal_number R (decimal n ++ t)
        ≡ (if ltb (limit s) n then err out_of_range else ok (with_suffix s n, rest))
  unfolding decimal_number empty_digits
  decimal_number-decimal n s t rest h e =
      rw
        (
          collect-decimal n t h,
          fraction-Behind t h,
          exponent-Behind t h,
          e,
          append-nil (decimal n),
          not_empty-nil (decimal n) (not_empty-decimal n),
          int_literal-decimal s n,
        )
        (outcome (limit s) n (with_suffix s n) rest)

  quiet_after_0 :
      (c : ℕ) (t : Bytes)
      → Unprefixed c
      → number_after_0 R (c ∷ t) ≡ decimal_number R (b'0' ∷ c ∷ t)
  unfolding number_after_0
  quiet_after_0 c t h = rw (h.0, h.1, h.2) refl

  after_0 :
      (ds t : Bytes)
      → All IsDigit ds
      → Behind t
      → number_after_0 R (ds ++ t) ≡ decimal_number R (b'0' ∷ (ds ++ t))
  after_0 [] [] h b = absurd b
  after_0 [] (c ∷ t) h b = quiet_after_0 c t (b.0.2, b.0.3, b.0.4)
  after_0 (c ∷ ds) t h b = quiet_after_0 c (ds ++ t) (digit-Unprefixed c h.0)

  number-digits :
      (ds t : Bytes)
      → All IsDigit ds
      → empty_digits ds ≡ false
      → Behind t
      → number R (ds ++ t) ≡ decimal_number R (ds ++ t)
  unfolding number empty_digits
  number-digits [] t h e b = absurd (cc)
  number-digits (c ∷ ds) t h e b = elim (Bool-cases (c == b'0')) [
    | inl y ↦ rw y (after_0 ds t h.1 b ∙ rw (byte→eq c b'0' y) refl)
    | inr n ↦ rw n refl
  ]

  -- A decimal number, with or without an integer suffix, is read as the integer of that type, or of
  -- i64, and the rest of the buffer is left. It is refused exactly if it is larger than the largest
  -- unsigned value or, for a signed type, than the size of the least one, whose number wraps around
  -- to that value. Behind it stands a byte that is not part of an identifier and no dot.
  pub number-decimal :
      (s : Suffix) (n c : ℕ) (rest : Bytes)
      → contains not_ident c ≡ true
      → (c == b'.') ≡ false
      → number R (decimal n ++ (suffix_name s ++ c ∷ rest))
        ≡ (if ltb (limit s) n then err out_of_range else ok (with_suffix s n, c ∷ rest))
  number-decimal s n c rest h d =
      let b = suffix-Behind s c rest h d in
      number-digits (decimal n) (suffix_name s ++ c ∷ rest) (decimal-IsDigit n)
        (not_empty-decimal n) b
      ∙ decimal_number-decimal n s (suffix_name s ++ c ∷ rest) (c ∷ rest) b
          (numeric_suffix-name s c rest h)
