-- ===== src/Dynamic/Ops.antt =====
-- dynamic/src/ops.rs: the operators on values. An operator takes the fault flag of the thread and
-- returns it with the result; what the source does to floats is a parameter.
pub mod Checked
pub mod Operators
pub mod Faults
pub mod Division
mod Examples
use Prim.Native.String.{String}
use zust.Prelude.{
  ℕ, ◌-◌, ◌^◌, ◌*◌, Bool, true, false, ◌&&◌, ◌||◌, Option, none, some, not, ltb, if◌then◌else◌,
}
use zust.Prelude.Int.{ℤ, pos, negsuc}
use zust.Dynamic.Fault.{RuntimeFault, set_fault}
use zust.Dynamic.Value.{Dynamic, null, bool, u8, i8, u16, i16, u32, i32, u64, i64, f16, f32, f64}
use zust.Dynamic.Ops.Checked.{
  ◌-ℤ◌, ◌*ℤ◌, signed, unsigned, checked_sub, checked_div, checked_rem, signed_div, signed_rem,
  wrapping_neg, complement, shift_left, shift_right, word_left, word_right,
}

-- The machine's arithmetic on floats, on their bit patterns, and its conversions.
pub record Floats : Type 0 where
  pub neg_32 : ℕ → ℕ
  pub neg_64 : ℕ → ℕ
  pub sub_32 : ℕ → ℕ → ℕ
  pub sub_64 : ℕ → ℕ → ℕ
  pub mul_32 : ℕ → ℕ → ℕ
  pub mul_64 : ℕ → ℕ → ℕ
  pub div_32 : ℕ → ℕ → ℕ
  pub div_64 : ℕ → ℕ → ℕ
  pub of_int : ℤ → ℕ
  pub of_f16 : ℕ → ℕ
  pub of_f32 : ℕ → ℕ
  pub to_f32 : ℕ → ℕ

abbrev pub Answer : Type 0
Answer = Dynamic × RuntimeFault

unfoldable pub is_int : Dynamic → Bool
is_int (i8 i) = true
is_int (i16 i) = true
is_int (i32 i) = true
is_int (i64 i) = true
is_int _ = false

unfoldable pub is_uint : Dynamic → Bool
is_uint (u8 n) = true
is_uint (u16 n) = true
is_uint (u32 n) = true
is_uint (u64 n) = true
is_uint _ = false

unfoldable pub as_int : Dynamic → Option ℤ
as_int (u8 n) = some (pos n)
as_int (u16 n) = some (pos n)
as_int (u32 n) = some (pos n)
as_int (u64 n) = if ltb n (2 ^ 63) then some (pos n) else none
as_int (i8 i) = some i
as_int (i16 i) = some i
as_int (i32 i) = some i
as_int (i64 i) = some i
as_int _ = none

unfoldable pub as_uint : Dynamic → Option ℕ
as_uint (u8 n) = some n
as_uint (u16 n) = some n
as_uint (u32 n) = some n
as_uint (u64 n) = some n
as_uint _ = none

unfoldable pub is_f32 : Dynamic → Bool
is_f32 (f32 x) = true
is_f32 _ = false

unfoldable pub is_f64 : Dynamic → Bool
is_f64 (f64 x) = true
is_f64 _ = false

unfoldable pub is_float : Dynamic → Bool
is_float (f16 x) = true
is_float (f32 x) = true
is_float (f64 x) = true
is_float _ = false

unfoldable pub int_fault : String → RuntimeFault → Answer
int_fault reason flag = (null, set_fault reason flag)

-- `.map(make).unwrap_or_else(|| int_fault(reason))`
unfoldable pub or_fault : {A : Type 0} → (A → Dynamic) → Option A → String → RuntimeFault → Answer
or_fault make (some a) reason flag = (make a, flag)
or_fault make none reason flag = int_fault reason flag

-- The signed branch: both operands as i64, or a fault with the first reason.
unfoldable pub on_ints :
    (ℤ → ℤ → Option ℤ) → String → String → Dynamic → Dynamic → RuntimeFault → Answer
on_ints op bad_type failed a b flag = elim (as_int a) [
  | none ↦ int_fault bad_type flag
  | some x ↦ elim (as_int b) [
    | none ↦ int_fault bad_type flag
    | some y ↦ or_fault i64 (op x y) failed flag
  ]
]

unfoldable pub on_uints :
    (ℕ → ℕ → Option ℕ) → String → String → Dynamic → Dynamic → RuntimeFault → Answer
on_uints op bad_type failed a b flag = elim (as_uint a) [
  | none ↦ int_fault bad_type flag
  | some x ↦ elim (as_uint b) [
    | none ↦ int_fault bad_type flag
    | some y ↦ or_fault u64 (op x y) failed flag
  ]
]

-- What all operators do with integers: signed if one operand is, unsigned if one is, and otherwise
-- the left operand.
abbrev pub on_numbers :
    (Dynamic → Dynamic → RuntimeFault → Answer)
    → (Dynamic → Dynamic → RuntimeFault → Answer)
    → Dynamic
    → Dynamic
    → RuntimeFault
    → Answer
on_numbers ints uints a b flag =
    if is_int a || is_int b
    then ints a b flag
    else if is_uint a || is_uint b
    then uints a b flag
    else (a, flag)

-- The bits of 0.0 are zero, which `unwrap_or(0.0)` takes where a value is no number.
unfoldable pub as_float : Floats → Dynamic → ℕ
as_float p (u8 n) = p.of_int (pos n)
as_float p (u16 n) = p.of_int (pos n)
as_float p (u32 n) = p.of_int (pos n)
as_float p (u64 n) = p.of_int (pos n)
as_float p (i8 i) = p.of_int i
as_float p (i16 i) = p.of_int i
as_float p (i32 i) = p.of_int i
as_float p (i64 i) = p.of_int i
as_float p (f16 x) = p.of_f16 x
as_float p (f32 x) = p.of_f32 x
as_float p (f64 x) = x
as_float p _ = 0

abbrev pub as_f32 : Floats → Dynamic → ℕ
as_f32 p a = p.to_f32 (as_float p a)

unfoldable pub neg : Floats → Dynamic → Dynamic
neg p (i8 i) = i8 (wrapping_neg (2 ^ 7) i)
neg p (i16 i) = i16 (wrapping_neg (2 ^ 15) i)
neg p (i32 i) = i32 (wrapping_neg (2 ^ 31) i)
neg p (i64 i) = i64 (wrapping_neg (2 ^ 63) i)
neg p (f32 x) = f32 (p.neg_32 x)
neg p (f64 x) = f64 (p.neg_64 x)
neg p _ = null

unfoldable pub flip : Dynamic → Dynamic
flip (bool b) = bool (not b)
flip (i8 i) = i8 (complement i)
flip (i16 i) = i16 (complement i)
flip (i32 i) = i32 (complement i)
flip (i64 i) = i64 (complement i)
flip (u8 n) = u8 (2 ^ 8 - 1 - n)
flip (u16 n) = u16 (2 ^ 16 - 1 - n)
flip (u32 n) = u32 (2 ^ 32 - 1 - n)
flip (u64 n) = u64 (2 ^ 64 - 1 - n)
flip _ = null
