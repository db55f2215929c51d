-- ===== src/Dynamic/Ops/Checked.antt =====
-- The integer operations of the language that dynamic/src/ops.rs calls: exact results, which the
-- `checked_` forms return where they fit, and shifts of words.
use zust.Prelude.{
  ℕ, zero, suc, ◌+◌, ◌-◌, ◌*◌, ◌/◌, ◌%◌, ◌^◌, Bool, false, Option, none, some, ltb, ◌==◌,
  if◌then◌else◌,
}
use zust.Prelude.Int.{ℤ, pos, negsuc, to_word, of_word}

infixl 65 ◌+ℤ◌ ◌-ℤ◌
infixl 70 ◌*ℤ◌
-- a - b
abbrev pub minus : ℕ → ℕ → ℤ
minus a b = if ltb a b then negsuc (b - a - 1) else pos (a - b)

-- -n
abbrev pub opposite : ℕ → ℤ
opposite zero = pos 0
opposite (suc n) = negsuc n

abbrev pub ◌+ℤ◌ : ℤ → ℤ → ℤ
pos m +ℤ pos n = pos (m + n)
pos m +ℤ negsuc n = minus m (n + 1)
negsuc m +ℤ pos n = minus n (m + 1)
negsuc m +ℤ negsuc n = negsuc (m + n + 1)

abbrev pub negate : ℤ → ℤ
negate (pos n) = opposite n
negate (negsuc n) = pos (n + 1)

abbrev pub ◌-ℤ◌ : ℤ → ℤ → ℤ
a -ℤ b = a +ℤ negate b

abbrev pub ◌*ℤ◌ : ℤ → ℤ → ℤ
pos m *ℤ pos n = pos (m * n)
pos m *ℤ negsuc n = opposite (m * (n + 1))
negsuc m *ℤ pos n = opposite ((m + 1) * n)
negsuc m *ℤ negsuc n = pos ((m + 1) * (n + 1))

-- Division rounds to zero, and the remainder has the sign of the dividend; the divisor is not 0.
abbrev pub quot : ℤ → ℤ → ℤ
quot (pos m) (pos n) = pos (m / n)
quot (pos m) (negsuc n) = opposite (m / (n + 1))
quot (negsuc m) (pos n) = opposite ((m + 1) / n)
quot (negsuc m) (negsuc n) = pos ((m + 1) / (n + 1))

abbrev pub rest : ℤ → ℤ → ℤ
rest (pos m) (pos n) = pos (m % n)
rest (pos m) (negsuc n) = pos (m % (n + 1))
rest (negsuc m) (pos n) = opposite ((m + 1) % n)
rest (negsuc m) (negsuc n) = opposite ((m + 1) % (n + 1))

abbrev pub is_zero : ℤ → Bool
is_zero (pos n) = n == 0
is_zero (negsuc n) = false

abbrev pub fits : ℕ → ℤ → Bool
fits half (pos n) = ltb n half
fits half (negsuc n) = ltb n half

-- i64
abbrev pub signed : ℤ → Option ℤ
signed z = if fits (2 ^ 63) z then some z else none

-- u64
abbrev pub unsigned : ℕ → Option ℕ
unsigned n = if ltb n (2 ^ 64) then some n else none

abbrev pub checked_sub : ℕ → ℕ → Option ℕ
checked_sub a b = if ltb a b then none else some (a - b)

abbrev pub checked_div : ℕ → ℕ → Option ℕ
checked_div a b = if b == 0 then none else some (a / b)

abbrev pub checked_rem : ℕ → ℕ → Option ℕ
checked_rem a b = if b == 0 then none else some (a % b)

abbrev pub signed_div : ℤ → ℤ → Option ℤ
signed_div a b = if is_zero b then none else signed (quot a b)

-- The smallest number has no remainder by -1, since the quotient overflows.
abbrev pub signed_rem : ℤ → ℤ → Option ℤ
signed_rem a b =
    if is_zero b then none else if fits (2 ^ 63) (quot a b) then some (rest a b) else none

-- Numbers of `bits` bits, half of them negative.
abbrev pub wrapping_neg : ℕ → ℤ → ℤ
wrapping_neg half z = of_word half (to_word half (negate z))

abbrev pub complement : ℤ → ℤ
complement (pos n) = negsuc n
complement (negsuc n) = pos n

abbrev pub shift_left : ℕ → ℤ → ℕ → Option ℤ
shift_left bits z s =
    if ltb s bits
    then some (of_word (2 ^ (bits - 1)) (to_word (2 ^ (bits - 1)) z * 2 ^ s % 2 ^ bits))
    else none

abbrev pub floor : ℤ → ℕ → ℤ
floor (pos n) d = pos (n / d)
floor (negsuc n) d = negsuc (n / d)

abbrev pub shift_right : ℕ → ℤ → ℕ → Option ℤ
shift_right bits z s = if ltb s bits then some (floor z (2 ^ s)) else none

abbrev pub word_left : ℕ → ℕ → ℕ → Option ℕ
word_left bits n s = if ltb s bits then some (n * 2 ^ s % 2 ^ bits) else none

abbrev pub word_right : ℕ → ℕ → ℕ → Option ℕ
word_right bits n s = if ltb s bits then some (n / 2 ^ s) else none
