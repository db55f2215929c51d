-- ===== src/Dynamic/Ops/Operators.antt =====
-- dynamic/src/ops.rs: the operators `*`, `-`, `/`, `%`, `<<` and `>>`, whole.
use zust.Prelude.{ℕ, ◌*◌, ◌^◌, ◌&&◌, ◌||◌, Option, none, some, ltb, if◌then◌else◌}
use Prim.Native.String.{String}
use zust.Prelude.Int.{ℤ, pos}
use zust.Dynamic.Fault.{RuntimeFault}
use zust.Dynamic.Value.{Dynamic, u8, i8, u16, i16, u32, i32, u64, i64, f32, f64}
use zust.Dynamic.Ops.{
  Floats, Answer, is_f32, is_f64, is_float, int_fault, or_fault, on_ints, on_uints, on_numbers,
  as_float, as_f32, as_int, as_uint,
}
use zust.Dynamic.Ops.Checked.{
  ◌-ℤ◌, ◌*ℤ◌, signed, unsigned, checked_sub, checked_div, checked_rem, signed_div, signed_rem,
  shift_left, shift_right, word_left, word_right,
}

unfoldable pub mul_int : Dynamic → Dynamic → RuntimeFault → Answer
mul_int =
    on_numbers (on_ints (λ x y. signed (x *ℤ y)) "整数乘法类型或范围错误" "整数乘法溢出")
      (on_uints (λ x y. unsigned (x * y)) "无符号整数乘法类型错误" "无符号整数乘法溢出")

unfoldable pub mul : Floats → Dynamic → Dynamic → RuntimeFault → Answer
mul p a b flag =
    if is_f64 a || is_f64 b
    then (f64 (p.mul_64 (as_float p a) (as_float p b)), flag)
    else if is_f32 a || is_f32 b
    then (f32 (p.mul_32 (as_f32 p a) (as_f32 p b)), flag)
    else mul_int a b flag

-- Two floats, unless both are half floats, which fall through to the integers.
unfoldable pub on_floats :
    Floats
    → (ℕ → ℕ → ℕ)
    → (ℕ → ℕ → ℕ)
    → (Dynamic → Dynamic → RuntimeFault → Answer)
    → Dynamic
    → Dynamic
    → RuntimeFault
    → Answer
on_floats p double single others a b flag =
    if is_float a && is_float b && (is_f64 a || is_f64 b)
    then (f64 (double (as_float p a) (as_float p b)), flag)
    else if is_float a && is_float b && (is_f32 a || is_f32 b)
    then (f32 (single (as_f32 p a) (as_f32 p b)), flag)
    else others a b flag

unfoldable pub sub_int : Dynamic → Dynamic → RuntimeFault → Answer
sub_int =
    on_numbers (on_ints (λ x y. signed (x -ℤ y)) "整数减法类型或范围错误" "整数减法溢出")
      (on_uints checked_sub "无符号整数减法类型错误" "无符号整数减法溢出")

unfoldable pub sub : Floats → Dynamic → Dynamic → RuntimeFault → Answer
sub p = on_floats p p.sub_64 p.sub_32 sub_int

unfoldable pub div_int : Dynamic → Dynamic → RuntimeFault → Answer
div_int =
    on_numbers (on_ints signed_div "整数除法类型或范围错误" "整数除零")
      (on_uints checked_div "无符号整数除法类型错误" "无符号整数除零")

unfoldable pub div : Floats → Dynamic → Dynamic → RuntimeFault → Answer
div p = on_floats p p.div_64 p.div_32 div_int

unfoldable pub rem : Dynamic → Dynamic → RuntimeFault → Answer
rem =
    on_numbers (on_ints signed_rem "整数取余类型或范围错误" "整数取余除零")
      (on_uints checked_rem "无符号整数取余类型错误" "无符号整数取余除零")

-- `u32::try_from` of the operand as i64, or else as u64.
abbrev as_shift : Option ℤ → Option ℕ
as_shift (some (pos n)) = if ltb n (2 ^ 32) then some n else none
as_shift _ = none

abbrev as_word : Option ℕ → Option ℕ
as_word (some n) = if ltb n (2 ^ 32) then some n else none
as_word none = none

unfoldable pub shift_of : Dynamic → Option ℕ
shift_of b = elim (as_shift (as_int b)) [ none ↦ as_word (as_uint b) | some n ↦ some n ]

-- A shift of a value by a known number of bits, by the signed and the unsigned operation.
unfoldable pub shifted :
    (ℕ → ℤ → ℕ → Option ℤ) → (ℕ → ℕ → ℕ → Option ℕ) → String → Dynamic → ℕ → RuntimeFault → Answer
shifted ints words failed (i8 i) s flag = or_fault i8 (ints 8 i s) failed flag
shifted ints words failed (i16 i) s flag = or_fault i16 (ints 16 i s) failed flag
shifted ints words failed (i32 i) s flag = or_fault i32 (ints 32 i s) failed flag
shifted ints words failed (i64 i) s flag = or_fault i64 (ints 64 i s) failed flag
shifted ints words failed (u8 n) s flag = or_fault u8 (words 8 n s) failed flag
shifted ints words failed (u16 n) s flag = or_fault u16 (words 16 n s) failed flag
shifted ints words failed (u32 n) s flag = or_fault u32 (words 32 n s) failed flag
shifted ints words failed (u64 n) s flag = or_fault u64 (words 64 n s) failed flag
shifted ints words failed _ s flag = (i64 (pos 0), flag)

unfoldable pub shl : Dynamic → Dynamic → RuntimeFault → Answer
shl a b flag = elim (shift_of b) [
  | none ↦ int_fault "位移数量类型或范围错误" flag
  | some s ↦ shifted shift_left word_left "左移溢出" a s flag
]

unfoldable pub shr : Dynamic → Dynamic → RuntimeFault → Answer
shr a b flag = elim (shift_of b) [
  | none ↦ int_fault "位移数量类型或范围错误" flag
  | some s ↦ shifted shift_right word_right "右移溢出" a s flag
]
