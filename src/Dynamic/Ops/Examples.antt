-- ===== src/Dynamic/Ops/Examples.antt =====
-- The laws of the operators at concrete values, with floats that only know their signs.
use zust.Prelude.{◌+◌, ◌%◌, ◌^◌, ◌<◌, ◌≡◌, refl, false, none}
use zust.Prelude.Int.{ℤ, pos, negsuc}
use zust.Dynamic.Fault.{has_fault}
use zust.Dynamic.Value.{i64, i8, i16, u8}
use zust.Dynamic.Ops.{Floats, neg, is_int}
use zust.Dynamic.Ops.Checked.{◌+ℤ◌, ◌*ℤ◌}
use zust.Dynamic.Ops.Operators.{div, rem}
use zust.Dynamic.Ops.Faults.{subtract, apply, is_null, apply-Agrees}
use zust.Dynamic.Ops.Division.{magnitude, integer, div-rem}

abbrev signs : Floats
signs = record {
  neg_32 = λ x. (x + 2 ^ 31) % 2 ^ 32;
  neg_64 = λ x. (x + 2 ^ 63) % 2 ^ 64;
  sub_32 = λ x y. x;
  sub_64 = λ x y. x;
  mul_32 = λ x y. (x + y) % 2 ^ 32;
  mul_64 = λ x y. (x + y) % 2 ^ 64;
  div_32 = λ x y. x;
  div_64 = λ x y. x;
  of_int = λ i. 0;
  of_f16 = λ x. x;
  of_f32 = λ x. x;
  to_f32 = λ x. x;
}

-- The smallest numbers stay what they are.
smallest : neg signs (i8 (negsuc 127)) ≡ i8 (negsuc 127)
unfolding neg
smallest = refl

not_null : is_null (i64 (negsuc 0)) ≡ false
unfolding is_null
not_null = refl

apply-Agrees_example :
    is_null (apply signs subtract (i64 (negsuc 0)) (i64 (pos 5)) none).0
    ≡ has_fault (apply signs subtract (i64 (negsuc 0)) (i64 (pos 5)) none).1
apply-Agrees_example = apply-Agrees signs subtract (i64 (negsuc 0)) (i64 (pos 5)) not_null

-- -7 / 2 and -7 % 2, of an i16 and a u8
div-rem_example :
    (q : ℤ) × (r : ℤ) × (div signs (i16 (negsuc 6)) (u8 2) none ≡ (i64 q, none))
    × (rem (i16 (negsuc 6)) (u8 2) none ≡ (i64 r, none))
    × (q *ℤ pos 2 +ℤ r ≡ negsuc 6)
    × (magnitude r < 2)
unfolding integer is_int
div-rem_example = div-rem signs (i16 (negsuc 6)) (u8 2) (negsuc 6) (pos 2) none refl refl refl refl
