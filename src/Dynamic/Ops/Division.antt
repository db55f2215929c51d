-- ===== src/Dynamic/Ops/Division.antt =====
-- dynamic/src/ops.rs: `/` and `%` of integers belong together.
use native.Mathlib.Nat.{div-add-mod', mod-lt as mod_lt}
use zust.Prelude.{
  ℕ, zero, suc, ◌+◌, ◌*◌, ◌/◌, ◌%◌, ◌^◌, ◌<◌, ◌≡◌, refl, sym, ap, ◌∙◌, arith, Bool, true, false,
  ◌==◌, ◌&&◌, ◌||◌, Option, some, none, subst, Bool-cases, inl, inr,
}
use zust.Prelude.Int.{ℤ, pos, negsuc}
use zust.Dynamic.Fault.{RuntimeFault}
use zust.Dynamic.Value.{Dynamic, u8, i8, u16, i16, u32, i32, u64, i64}
use zust.Dynamic.Ops.{
  Floats, is_int, is_uint, is_float, is_f64, is_f32, as_int, as_uint, on_ints, on_uints, or_fault,
}
use zust.Dynamic.Ops.Operators.{on_floats, div, div_int, rem}
use zust.Dynamic.Ops.Checked.{◌+ℤ◌, ◌*ℤ◌, minus, opposite, quot, rest, is_zero, fits}

zero_mul : (n : ℕ) → 0 * n ≡ 0
zero_mul n = omega arith

next : (j : ℕ) → j + 1 ≡ suc j
next j = omega arith

minus_zero : (n : ℕ) → minus 0 n ≡ opposite n
minus_zero zero = refl
minus_zero (suc n) = ground arith

opposite-mul_negsuc : (k n : ℕ) → opposite k *ℤ negsuc n ≡ pos (k * (n + 1))
opposite-mul_negsuc zero n = ap opposite (zero_mul (n + 1)) ∙ ap pos (sym (zero_mul (n + 1)))
opposite-mul_negsuc (suc j) n = ap (λ k. pos (k * (n + 1))) (next j)

opposite-mul_pos : (k n : ℕ) → opposite k *ℤ pos n ≡ opposite (k * n)
opposite-mul_pos zero n = ap pos (zero_mul n) ∙ ap opposite (sym (zero_mul n))
opposite-mul_pos (suc j) n = ap (λ k. opposite (k * n)) (next j)

opposite-add : (a b : ℕ) → opposite a +ℤ opposite b ≡ opposite (a + b)
opposite-add zero zero = refl
opposite-add zero (suc b) = minus_zero (b + 1) ∙ ap opposite (omega arith)
opposite-add (suc a) zero = minus_zero (a + 1) ∙ ap opposite (omega arith)
opposite-add (suc a) (suc b) = ap opposite (both a b)
  where
    both : (a b : ℕ) → suc (a + b + 1) ≡ suc a + suc b
    both a b = omega arith

quot-rest : (x y : ℤ) → is_zero y ≡ false → quot x y *ℤ y +ℤ rest x y ≡ x
quot-rest (pos m) (pos n) h = ap pos (div-add-mod' m n)
quot-rest (pos m) (negsuc n) h =
    ap (λ z. z +ℤ pos (m % (n + 1))) (opposite-mul_negsuc (m / (n + 1)) n)
    ∙ ap pos (div-add-mod' m (n + 1))
quot-rest (negsuc m) (pos n) h =
    ap (λ z. z +ℤ opposite ((m + 1) % n)) (opposite-mul_pos ((m + 1) / n) n)
    ∙ opposite-add ((m + 1) / n * n) ((m + 1) % n)
    ∙ ap opposite (div-add-mod' (m + 1) n ∙ next m)
quot-rest (negsuc m) (negsuc n) h =
    opposite-add ((m + 1) / (n + 1) * (n + 1)) ((m + 1) % (n + 1))
    ∙ ap opposite (div-add-mod' (m + 1) (n + 1) ∙ next m)

-- The distance from 0.
abbrev pub magnitude : ℤ → ℕ
magnitude (pos n) = n
magnitude (negsuc n) = n + 1

magnitude-opposite : (n : ℕ) → magnitude (opposite n) ≡ n
magnitude-opposite zero = refl
magnitude-opposite (suc n) = omega arith

divisor : (n : ℕ) → (n == 0) ≡ false → 0 < n
divisor n h = ground (arith, h)

rest_small : (x y : ℤ) → is_zero y ≡ false → magnitude (rest x y) < magnitude y
rest_small (pos m) (pos n) h = mod_lt m (divisor n h)
rest_small (pos m) (negsuc n) h = mod_lt m (omega arith)
rest_small (negsuc m) (pos n) h =
    rw (magnitude-opposite ((m + 1) % n)) (mod_lt (m + 1) (divisor n h))
rest_small (negsuc m) (negsuc n) h =
    rw (magnitude-opposite ((m + 1) % (n + 1))) (mod_lt (m + 1) (omega arith))

-- The integer that a value of any integer type holds.
unfoldable pub integer : Dynamic → Option ℤ
integer (u8 n) = some (pos n)
integer (u16 n) = some (pos n)
integer (u32 n) = some (pos n)
integer (u64 n) = some (pos n)
integer (i8 i) = some i
integer (i16 i) = some i
integer (i32 i) = some i
integer (i64 i) = some i
integer _ = none

-- Results are signed where an operand is.
abbrev pub number : Bool → ℤ → Dynamic
number true z = i64 z
number false z = u64 (magnitude z)

-- Signed operands and quotients are within 64 bits; unsigned ones always are.
abbrev pub is_within : Bool → ℤ → ℤ → Bool
is_within true x y = fits (2 ^ 63) x && fits (2 ^ 63) y && fits (2 ^ 63) (quot x y)
is_within false x y = true

integer-is_float : (a : Dynamic) (x : ℤ) → integer a ≡ some x → is_float a ≡ false
unfolding integer is_float is_f64 is_f32
integer-is_float (u8 n) x h = refl
integer-is_float (u16 n) x h = refl
integer-is_float (u32 n) x h = refl
integer-is_float (u64 n) x h = refl
integer-is_float (i8 i) x h = refl
integer-is_float (i16 i) x h = refl
integer-is_float (i32 i) x h = refl
integer-is_float (i64 i) x h = refl
integer-is_float _ x h = absurd (cc)

some_same : (x y : ℤ) → some x ≡ some y → x ≡ y
some_same x y h = cc

three : (a b c : Bool) → (a && b && c) ≡ true → (a ≡ true) × (b ≡ true) × (c ≡ true)
three a b c h = (ground arith, ground arith, ground arith)

either : (a b : Bool) → (a || b) ≡ false → (a ≡ false) × (b ≡ false)
either a b h = (ground arith, ground arith)

integer-as_int :
    (a : Dynamic) (x : ℤ) → integer a ≡ some x → fits (2 ^ 63) x ≡ true → as_int a ≡ some x
unfolding integer as_int
integer-as_int (u8 n) x h k = h
integer-as_int (u16 n) x h k = h
integer-as_int (u32 n) x h k = h
integer-as_int (u64 n) x h k =
    rw (subst (λ z. fits (2 ^ 63) z ≡ true) (sym (some_same (pos n) x h)) k) h
integer-as_int (i8 i) x h k = h
integer-as_int (i16 i) x h k = h
integer-as_int (i32 i) x h k = h
integer-as_int (i64 i) x h k = h
integer-as_int _ x h k = absurd (cc)

integer-as_uint :
    (a : Dynamic) (x : ℤ)
    → integer a ≡ some x
    → is_int a ≡ false
    → (n : ℕ) × (x ≡ pos n) × (as_uint a ≡ some n) × (is_uint a ≡ true)
unfolding integer is_int as_uint is_uint
integer-as_uint (u8 n) x h k = (n, sym (some_same (pos n) x h), refl, refl)
integer-as_uint (u16 n) x h k = (n, sym (some_same (pos n) x h), refl, refl)
integer-as_uint (u32 n) x h k = (n, sym (some_same (pos n) x h), refl, refl)
integer-as_uint (u64 n) x h k = (n, sym (some_same (pos n) x h), refl, refl)
integer-as_uint _ x h k = absurd (cc)

signed_pair :
    (p : Floats) (a b : Dynamic) (x y : ℤ) (flag : RuntimeFault)
    → is_float a ≡ false
    → as_int a ≡ some x
    → as_int b ≡ some y
    → (is_int a || is_int b) ≡ true
    → is_zero y ≡ false
    → fits (2 ^ 63) (quot x y) ≡ true
    → (div p a b flag ≡ (i64 (quot x y), flag)) × (rem a b flag ≡ (i64 (rest x y), flag))
unfolding div div_int rem on_floats on_ints or_fault
signed_pair p a b x y flag f g h s z k =
    (rw (f, s, on_ints, g, h, z, k) refl, rw (s, on_ints, g, h, z, k) refl)

unsigned_pair :
    (p : Floats) (a b : Dynamic) (m n : ℕ) (flag : RuntimeFault)
    → is_float a ≡ false
    → as_uint a ≡ some m
    → as_uint b ≡ some n
    → is_uint a ≡ true
    → (is_int a || is_int b) ≡ false
    → (n == 0) ≡ false
    → (div p a b flag ≡ (u64 (m / n), flag)) × (rem a b flag ≡ (u64 (m % n), flag))
unfolding div div_int rem on_floats on_uints or_fault
unsigned_pair p a b m n flag f g h u s z =
    (rw (f, s, u, on_uints, g, h, z) refl, rw (s, u, on_uints, g, h, z) refl)

-- Integers of any type, where the divisor is not zero: `/` gives a quotient and `%` a remainder, without
-- a fault, quotient times divisor plus remainder is the dividend, and the remainder is nearer to zero than
-- the divisor. If one of them has a signed type the results are `i64`, and both and the quotient are taken
-- to be in its range; otherwise they are `u64`.
pub div-rem :
    (p : Floats) (a b : Dynamic) (x y : ℤ) (flag : RuntimeFault)
    → integer a ≡ some x
    → integer b ≡ some y
    → is_zero y ≡ false
    → is_within (is_int a || is_int b) x y ≡ true
    → (q : ℤ) × (r : ℤ) × (div p a b flag ≡ (number (is_int a || is_int b) q, flag))
      × (rem a b flag ≡ (number (is_int a || is_int b) r, flag))
      × (q *ℤ y +ℤ r ≡ x)
      × (magnitude r < magnitude y)
div-rem p a b x y flag g h z k = elim (Bool-cases (is_int a || is_int b)) [
  | inl s ↦
      let (u, v, w) =
        three (fits (2 ^ 63) x) (fits (2 ^ 63) y) (fits (2 ^ 63) (quot x y))
          (subst (λ c. is_within c x y ≡ true) s k) in
      let (d, e) =
        signed_pair p a b x y flag (integer-is_float a x g) (integer-as_int a x g u)
          (integer-as_int b y h v) s z w in
      (quot x y, rest x y, rw s d, rw s e, quot-rest x y z, rest_small x y z)
  | inr s ↦
      let (m, i, c, u) = integer-as_uint a x g (either (is_int a) (is_int b) s).0 in
      let (n, j, d, v) = integer-as_uint b y h (either (is_int a) (is_int b) s).1 in
      let nonzero : is_zero (pos n) ≡ false = subst (λ t. is_zero t ≡ false) j z in
      let (e, f) = unsigned_pair p a b m n flag (integer-is_float a x g) c d u s nonzero in
      (
        pos (m / n),
        pos (m % n),
        rw s e,
        rw s f,
        rw (i, j) (quot-rest (pos m) (pos n) nonzero),
        rw j (rest_small (pos m) (pos n) nonzero),
      )
]
