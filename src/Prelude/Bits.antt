-- ===== src/Prelude/Bits.antt =====
-- Masks and shifted bit fields as arithmetic.
use Prim.Native.Nat.{
  ℕ, zero, suc, ◌+◌, ◌-◌, ◌*◌, ◌/◌, ◌%◌, ◌^◌, ◌≤◌, ◌<◌, min, max, bit_and, bit_or, bitwise, digits,
  bit_and-bitwise, bit_or-bitwise,
}
use mathlib.Core.Path.{◌≡◌, refl, ap, sym, ◌∙◌}
use mathlib.Core.Bool.{Bool, true, ◌&&◌}
use zust.Prelude.Tests.{◌==◌}
use native.Mathlib.Omega.{arith}
use native.Mathlib.Nat.{pow-suc, one-le-pow, le_refl, mul_comm, div-div-eq-div-mul}

module _ (z : ℕ → ℕ) (f : ℕ → ℕ → ℕ) where
  fuel_irrelevant : (n m a b : ℕ) → a ≤ n → a ≤ m → digits z f n a b ≡ digits z f m a b
  fuel_irrelevant n zero zero b p q = at_zero n
    where
      at_zero : (k : ℕ) → digits z f k 0 b ≡ digits z f 0 0 b
      at_zero zero = refl
      at_zero (suc k) = refl
  fuel_irrelevant zero (suc m) zero b p q = refl
  fuel_irrelevant (suc n) (suc m) zero b p q = refl
  fuel_irrelevant zero m (suc a) b p q = absurd (omega arith)
  fuel_irrelevant (suc n) zero (suc a) b p q = absurd (omega arith)
  fuel_irrelevant (suc n) (suc m) (suc a) b p q =
      rw (fuel_irrelevant n m (suc a / 2) (b / 2) (omega arith) (omega arith))

  lowest_digit :
      (a b : ℕ)
      → bitwise z f (suc a) b ≡ bitwise z f (suc a / 2) (b / 2) * 2 + f (suc a % 2) (b % 2)
  lowest_digit a b =
      omega (arith, fuel_irrelevant a (suc a / 2) (suc a / 2) (b / 2) (omega arith) (le_refl _))

or_digit : (a b : ℕ) → bit_or a b ≡ bit_or (a / 2) (b / 2) * 2 + max (a % 2) (b % 2)
or_digit zero b = simp bit_or-bitwise (omega arith)
or_digit (suc a) b = simp bit_or-bitwise (lowest_digit (λ y. y) max a b)

and_digit : (a b : ℕ) → bit_and a b ≡ bit_and (a / 2) (b / 2) * 2 + min (a % 2) (b % 2)
and_digit zero b = simp bit_and-bitwise (omega arith)
and_digit (suc a) b = simp bit_and-bitwise (lowest_digit (λ y. 0) min a b)

double_pow : (q k : ℕ) → q * 2 ^ suc k ≡ 2 * (q * 2 ^ k)
double_pow q k = omega (arith, ap (λ (t : ℕ). q * t) (pow-suc 2 k))

zero-bit_or : (b : ℕ) → bit_or 0 b ≡ b
zero-bit_or b = simp bit_or-bitwise refl

-- `lo | hi << k` is a sum when `lo` fits `k` bits.
pub bit_or_shifted : (k lo hi : ℕ) → lo < 2 ^ k → bit_or lo (hi * 2 ^ k) ≡ lo + hi * 2 ^ k
bit_or_shifted zero lo hi h = ground (arith, zero-bit_or hi)
bit_or_shifted (suc k) lo hi h = ground (
  arith,
  or_digit lo (hi * 2 ^ suc k),
  double_pow hi k,
  pow-suc 2 k,
  bit_or_shifted k (lo / 2) hi (omega arith),
)

-- The same with the high field first, `hi << k | lo`.
or_nothing : (n x : ℕ) → x ≤ n → bit_or x 0 ≡ x
or_nothing n zero h = refl
or_nothing zero (suc x) h = absurd (omega arith)
or_nothing (suc n) (suc x) h =
    omega (arith, or_digit (suc x) 0, or_nothing n (suc x / 2) (omega arith))

pub or_high_low : (k hi lo : ℕ) → lo < 2 ^ k → bit_or (hi * 2 ^ k) lo ≡ hi * 2 ^ k + lo
or_high_low zero hi lo h = ground (arith, or_nothing hi hi)
or_high_low (suc k) hi lo h = ground (
  arith,
  or_digit (hi * 2 ^ suc k) lo,
  double_pow hi k,
  pow-suc 2 k,
  or_high_low k hi (lo / 2) (omega arith),
)

-- A mask of `w` ones keeps a `w`-bit word.
bit_and_ones : (w x : ℕ) → x < 2 ^ w → bit_and x (2 ^ w - 1) ≡ x
bit_and_ones zero zero h = refl
bit_and_ones zero (suc x) h = absurd (omega arith)
bit_and_ones (suc w) x h = ground (
  arith,
  and_digit x (2 ^ suc w - 1),
  pow-suc 2 w,
  one-le-pow w 2,
  bit_and_ones w (x / 2) (omega arith),
)

halve_twice : (x k : ℕ) → x / 2 ^ suc k ≡ x / 2 / 2 ^ k
halve_twice x k =
    ap (λ (t : ℕ). x / t) (pow-suc 2 k ∙ mul_comm (2 ^ k) 2) ∙ sym (div-div-eq-div-mul x 2 (2 ^ k))

-- `x & !(2^k - 1)` on `w`-bit words clears the low `k` bits.
pub clear_low_bits : (k w x : ℕ) → k ≤ w → x < 2 ^ w → bit_and x (2 ^ w - 2 ^ k) ≡ x / 2 ^ k * 2 ^ k
clear_low_bits zero w x h hx = ground (arith, bit_and_ones w x)
clear_low_bits (suc k) zero x h hx = absurd (omega arith)
clear_low_bits (suc k) (suc w) x h hx = ground (
  arith,
  and_digit x (2 ^ suc w - 2 ^ suc k),
  pow-suc 2 w,
  pow-suc 2 k,
  double_pow (x / 2 ^ suc k) k,
  halve_twice x k,
  clear_low_bits k w (x / 2) (omega arith) (omega arith),
)

-- A mask and its complement split a word.
pub complement_masks :
    (w x m : ℕ) → x < 2 ^ w → m < 2 ^ w → bit_and x (2 ^ w - 1 - m) + bit_and x m ≡ x
complement_masks zero zero zero hx hm = refl
complement_masks zero (suc x) m hx hm = absurd (omega arith)
complement_masks zero zero (suc m) hx hm = absurd (omega arith)
complement_masks (suc w) x m hx hm = ground (
  arith,
  and_digit x (2 ^ suc w - 1 - m),
  and_digit x m,
  pow-suc 2 w,
  one-le-pow w 2,
  complement_masks w (x / 2) (m / 2) (omega arith) (omega arith),
)

no_bits : (n x : ℕ) → x ≤ n → bit_and x 0 ≡ 0
no_bits n zero h = refl
no_bits zero (suc x) h = absurd (omega arith)
no_bits (suc n) (suc x) h = omega (arith, and_digit (suc x) 0, no_bits n (suc x / 2) (omega arith))

multiple_of_one : (m : ℕ) → m < 2 ^ 0 → m ≡ 0
multiple_of_one m h = omega arith

pub bit_and-le : (w x m : ℕ) → m < 2 ^ w → bit_and x m ≤ m
bit_and-le zero x m h = rw (multiple_of_one m h) (omega (arith, no_bits x x (omega arith)))
bit_and-le (suc w) x m h =
    ground (arith, and_digit x m, pow-suc 2 w, bit_and-le w (x / 2) (m / 2) (omega arith))

-- Over a small range every value is checked by evaluation.
module _ (f g : ℕ → ℕ) where
  agree : ℕ → Bool
  agree zero = true
  agree (suc n) = f n == g n && agree n

  agree→eq : (n x : ℕ) → agree n ≡ true → x < n → f x ≡ g x
  unfolding agree
  agree→eq zero x e h = absurd (omega arith)
  agree→eq (suc n) x e h = ground (arith, agree→eq n x)

-- The codes that hold a small number in their low bits.
pub or_0x80 : (n : ℕ) → n < 16 → bit_or 0x80 n ≡ 0x80 + n
unfolding agree
or_0x80 n = agree→eq (λ n. bit_or 0x80 n) (λ n. 0x80 + n) 16 n refl

pub or_0x90 : (n : ℕ) → n < 16 → bit_or 0x90 n ≡ 0x90 + n
unfolding agree
or_0x90 n = agree→eq (λ n. bit_or 0x90 n) (λ n. 0x90 + n) 16 n refl

pub or_0xa0 : (n : ℕ) → n < 32 → bit_or 0xa0 n ≡ 0xa0 + n
unfolding agree
or_0xa0 n = agree→eq (λ n. bit_or 0xa0 n) (λ n. 0xa0 + n) 32 n refl

pub and_0x80 : (n : ℕ) → n < 16 → bit_and (0x80 + n) 0x0f ≡ n
unfolding agree
and_0x80 n = agree→eq (λ n. bit_and (0x80 + n) 0x0f) (λ n. n) 16 n refl

pub and_0x90 : (n : ℕ) → n < 16 → bit_and (0x90 + n) 0x0f ≡ n
unfolding agree
and_0x90 n = agree→eq (λ n. bit_and (0x90 + n) 0x0f) (λ n. n) 16 n refl

pub and_0xa0 : (n : ℕ) → n < 32 → bit_and (0xa0 + n) 0x1f ≡ n
unfolding agree
and_0xa0 n = agree→eq (λ n. bit_and (0xa0 + n) 0x1f) (λ n. n) 32 n refl
