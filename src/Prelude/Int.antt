-- ===== src/Prelude/Int.antt =====
-- Signed integers, and the two's complement words that stand for them.
use Prim.Native.Nat.{ℕ, ◌-◌, ◌*◌, ◌%◌, ◌<◌}
use mathlib.Core.Path.{◌≡◌}
use native.Mathlib.Omega.{arith}
use zust.Prelude.Tests.{ltb, if◌then◌else◌}

-- `negsuc n` is -(n + 1).
pub data ℤ : Type 0 where
  pos : ℕ → ℤ
  negsuc : ℕ → ℤ

-- The unsigned word of `2 * half` values that has the same bits, as `as u8`, `as u16`, ... give it.
abbrev pub to_word : ℕ → ℤ → ℕ
to_word half (pos n) = n % (2 * half)
to_word half (negsuc n) = 2 * half - 1 - n % (2 * half)

-- The signed reading of a word of `2 * half` values.
abbrev pub of_word : ℕ → ℕ → ℤ
of_word half w = if ltb w half then pos w else negsuc (2 * half - 1 - w)

-- -half ≤ z < half
abbrev pub InSigned : ℕ → ℤ → Type 0
InSigned half (pos n) = n < half
InSigned half (negsuc n) = n < half

mod_small : (n half : ℕ) → n < half → n % (2 * half) ≡ n
mod_small n half h = grind arith

pub of_word-to_word : (half : ℕ) (z : ℤ) → InSigned half z → of_word half (to_word half z) ≡ z
of_word-to_word half (pos n) h = ground (arith, mod_small n half)
of_word-to_word half (negsuc n) h = ground (arith, mod_small n half)

pub to_word-lt : (half : ℕ) (z : ℤ) → 0 < half → to_word half z < 2 * half
to_word-lt half (pos n) h = grind arith
to_word-lt half (negsuc n) h = grind arith
