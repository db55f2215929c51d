-- ===== src/Vm/Memory/Align.antt =====
-- vm/src/memory.rs: the arithmetic of `align_up` and of `next_power_of_two`.
use native.Mathlib.Nat.{pow-suc}
use zust.Prelude.{ℕ, zero, suc, ◌+◌, ◌*◌, ◌%◌, ◌^◌, ◌≤◌, ◌<◌, ◌≡◌, ap, arith, ◌⊎◌, inl, inr}
use zust.Prelude.Bits.{clear_low_bits}
use zust.Vm.Memory.{align_up, power_from, next_power_of_two}

-- The alignments that the code asks for.
abbrev pub IsAlignment : ℕ → Type 0
IsAlignment a = (a ≡ 1) ⊎ (a ≡ 2) ⊎ (a ≡ 4) ⊎ (a ≡ 8)

-- Rounding up: the least multiple of the alignment that is not below the value.
pub align_up_lem :
    (v a : ℕ)
    → IsAlignment a
    → v ≤ 2 ^ 62
    → (v ≤ align_up v a) × (align_up v a < v + a) × (align_up v a % a ≡ 0)
unfolding align_up
align_up_lem v a (inl e) h = ground (arith, clear_low_bits 0 64 v)
align_up_lem v a (inr (inl e)) h = ground (arith, clear_low_bits 1 64 (v + 1))
align_up_lem v a (inr (inr (inl e))) h = ground (arith, clear_low_bits 2 64 (v + 3))
align_up_lem v a (inr (inr (inr e))) h = ground (arith, clear_low_bits 3 64 (v + 7))

power_from-ge : (k p n : ℕ) → n ≤ p * 2 ^ k → n ≤ power_from k p n
unfolding power_from
power_from-ge zero p n h = omega arith
power_from-ge (suc k) p n h = ground (arith, power_from-ge k (2 * p) n (omega (arith, doubled)))
  where
    doubled : 2 * p * 2 ^ k ≡ p * 2 ^ suc k
    doubled = omega (arith, ap (λ (t : ℕ). p * t) (pow-suc 2 k))

-- The search stops at the first power that is large enough.
power_from-lt : (k p n : ℕ) → 0 < p → p < 2 * n → power_from k p n < 2 * n
unfolding power_from
power_from-lt zero p n hp h = h
power_from-lt (suc k) p n hp h = ground (arith, power_from-lt k (2 * p) n)

pub next_power_of_two_lem :
    (n : ℕ) → 0 < n → n ≤ 2 ^ 62 → (n ≤ next_power_of_two n) × (next_power_of_two n < 2 * n)
unfolding next_power_of_two
next_power_of_two_lem n pos h =
    (power_from-ge 64 1 n (omega arith), power_from-lt 64 1 n (omega arith) (omega arith))
