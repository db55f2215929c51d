-- ===== src/Root/Arrow/Points.antt =====
-- root/src/arrow/order_id.rs and mod.rs: an identifier and its level in one 64-bit word.
use Prim.Native.Nat.{bit_and, bit_or}
use zust.Prelude.{ℕ, ◌+◌, ◌-◌, ◌*◌, ◌/◌, ◌%◌, ◌^◌, ◌<◌, ◌≡◌, ap, ◌∙◌, arith}
use zust.Prelude.Bits.{or_high_low, complement_masks, clear_low_bits}

abbrev pub id_bits : ℕ
id_bits = 64 - 4

abbrev pub id_mask : ℕ
id_mask = 0xfffffffffffffff

-- `(level as u64) << ID_BITS | (id & ID_MASK)`
unfoldable pub level_id : ℕ → ℕ → ℕ
level_id id level = bit_or (level * 2 ^ id_bits % 2 ^ 64) (bit_and id id_mask)

unfoldable pub id_of : ℕ → ℕ
id_of id_level = bit_and id_level id_mask

unfoldable pub level_of : ℕ → ℕ
level_of id_level = id_level / 2 ^ id_bits

mask_lem : (x : ℕ) → x < 2 ^ 64 → bit_and x id_mask ≡ x % 2 ^ 60
mask_lem x h =
    omega
      (arith, complement_masks 64 x id_mask h (omega arith), clear_low_bits 60 64 x (omega arith) h)

level_id_lem : (id level : ℕ) → id < 2 ^ 64 → level_id id level ≡ level % 16 * 2 ^ 60 + id % 2 ^ 60
unfolding level_id
level_id_lem id level h = rw (mask_lem id h) (
    ap (λ (t : ℕ). bit_or t (id % 2 ^ 60)) (high_bits level)
    ∙ or_high_low 60 (level % 16) (id % 2 ^ 60) (omega arith))
  where
    high_bits : (n : ℕ) → n * 2 ^ id_bits % 2 ^ 64 ≡ n % 16 * 2 ^ 60
    high_bits n = omega arith

-- The level and the identifier are read back from the packed word, the level modulo 16 and the
-- identifier modulo 2^60; so levels of 16 and more are mixed up with lower ones.
pub level_id_parts :
    (id level : ℕ)
    → id < 2 ^ 64
    → (level_of (level_id id level) ≡ level % 16) × (id_of (level_id id level) ≡ id % 2 ^ 60)
unfolding level_of id_of
level_id_parts id level h =
    rw (level_id_lem id level h)
      (omega arith, mask_lem (level % 16 * 2 ^ 60 + id % 2 ^ 60) (omega arith) ∙ omega arith)
