-- ===== src/Dynamic/Types/Sum.antt =====
-- dynamic/src/types.rs: the equality of types, and the type of a sum.
pub mod Laws
use Prim.Native.String.{String}
use text.Mathlib.Text.{◌==◌ as str_eq}
use zust.Prelude.{ℕ, max, Bool, true, false, ◌&&◌, ◌||◌, ◌==◌, if◌then◌else◌}
use zust.Prelude.Int.{ℤ, pos, negsuc}
use zust.Dynamic.Types.{
  ConstIntOp, add, sub, mul, div, modulo, Ty, any, void, bool, u8, i8, u16, i16, u32, i32, u64, i64,
  f16, f32, f64, str, map, iter, list, ident, const_int, const_binary, tuple, struct, vec, array,
  array_param, fn, symbol, Tys, nil, cons, Members, end, member, storage_width,
}

unfoldable pub int_eq : ℤ → ℤ → Bool
int_eq (pos a) (pos b) = a == b
int_eq (negsuc a) (negsuc b) = a == b
int_eq _ _ = false

unfoldable pub op_eq : ConstIntOp → ConstIntOp → Bool
op_eq add add = true
op_eq sub sub = true
op_eq mul mul = true
op_eq div div = true
op_eq modulo modulo = true
op_eq _ _ = false

-- `PartialEq for Type`: there is no line for `iter`, which so differs from itself.
unfoldable mutual
  pub ty_eq : Ty → Ty → Bool
  ty_eq any any = true
  ty_eq void void = true
  ty_eq bool bool = true
  ty_eq u8 u8 = true
  ty_eq i8 i8 = true
  ty_eq u16 u16 = true
  ty_eq i16 i16 = true
  ty_eq u32 u32 = true
  ty_eq i32 i32 = true
  ty_eq u64 u64 = true
  ty_eq i64 i64 = true
  ty_eq f16 f16 = true
  ty_eq f32 f32 = true
  ty_eq f64 f64 = true
  ty_eq str str = true
  ty_eq map map = true
  ty_eq (list a) (list b) = ty_eq a b
  ty_eq (tuple as_) (tuple bs) = tys_eq as_ bs
  ty_eq (ident n p) (ident m q) = str_eq n m && tys_eq p q
  ty_eq (const_int a) (const_int b) = int_eq a b
  ty_eq (const_binary o a b) (const_binary q c d) = op_eq o q && ty_eq a c && ty_eq b d
  ty_eq (symbol i p) (symbol j q) = i == j && tys_eq p q
  ty_eq (struct p f) (struct q g) = tys_eq p q && members_eq f g
  ty_eq (vec a n) (vec b m) = ty_eq a b && n == m
  ty_eq (array a n) (array b m) = ty_eq a b && n == m
  ty_eq (array_param a n) (array_param b m) = ty_eq a b && ty_eq n m
  ty_eq (fn p r) (fn q s) = tys_eq p q && ty_eq r s
  ty_eq _ _ = false

  pub tys_eq : Tys → Tys → Bool
  tys_eq nil nil = true
  tys_eq (cons a x) (cons b y) = ty_eq a b && tys_eq x y
  tys_eq _ _ = false

  pub members_eq : Members → Members → Bool
  members_eq end end = true
  members_eq (member n a x) (member m b y) = str_eq n m && ty_eq a b && members_eq x y
  members_eq _ _ = false

unfoldable pub is_str : Ty → Bool
is_str str = true
is_str _ = false

unfoldable pub is_any : Ty → Bool
is_any any = true
is_any (fn tys ret) = is_any ret
is_any _ = false

unfoldable pub is_float : Ty → Bool
is_float f16 = true
is_float f32 = true
is_float f64 = true
is_float _ = false

unfoldable pub is_f64 : Ty → Bool
is_f64 f64 = true
is_f64 _ = false

unfoldable pub is_int : Ty → Bool
is_int i8 = true
is_int i16 = true
is_int i32 = true
is_int i64 = true
is_int _ = false

unfoldable pub is_uint : Ty → Bool
is_uint u8 = true
is_uint u16 = true
is_uint u32 = true
is_uint u64 = true
is_uint _ = false

unfoldable pub int_of_width : ℕ → Ty
int_of_width w = if w == 1 then i8 else if w == 2 then i16 else if w == 4 then i32 else i64

unfoldable pub uint_of_width : ℕ → Ty
uint_of_width w = if w == 1 then u8 else if w == 2 then u16 else if w == 4 then u32 else u64

-- `Add for Type`
unfoldable pub sum_type : Ty → Ty → Ty
sum_type s r =
    if ty_eq s r
    then s
    else if is_str s || is_str r
    then str
    else if is_any s || is_any r
    then any
    else if is_float s || is_float r
    then (if is_f64 s || is_f64 r then f64 else f32)
    else if is_int s || is_int r
    then int_of_width (max (storage_width s) (storage_width r))
    else if is_uint s || is_uint r
    then uint_of_width (max (storage_width s) (storage_width r))
    else any
