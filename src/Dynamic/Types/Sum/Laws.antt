-- ===== src/Dynamic/Types/Sum/Laws.antt =====
-- dynamic/src/types.rs: laws of the equality and of the sum of types.
use text.Mathlib.Text.{◌==◌ as str_eq}
use text.Mathlib.TextEquality.{eq_iff}
use zust.Prelude.{
  ℕ, ◌≡◌, refl, ap, arith, true, false, Bool, Bool-cases, inl, inr, ◌||◌, ◌&&◌, max, ◌==◌, ==_iff,
}
use zust.Prelude.Int.{ℤ, pos, negsuc}
use zust.Dynamic.Types.{
  ConstIntOp, add, sub, mul, div, modulo, Ty, any, void, bool, u8, i8, u16, i16, u32, i32, u64, i64,
  f16, f32, f64, str, map, list, ident, const_int, const_binary, tuple, struct, vec, array,
  array_param, fn, symbol, Tys, nil, cons, Members, end, member, storage_width,
}
use zust.Dynamic.Types.Sum.{
  int_eq, op_eq, ty_eq, tys_eq, members_eq, is_str, is_any, is_float, is_f64, is_int, is_uint,
  sum_type,
}

op_eq_sound : (a b : ConstIntOp) → op_eq a b ≡ true → a ≡ b
unfolding op_eq
op_eq_sound add add h = refl
op_eq_sound sub sub h = refl
op_eq_sound mul mul h = refl
op_eq_sound div div h = refl
op_eq_sound modulo modulo h = refl
op_eq_sound _ _ h = cc

int_eq_sound : (a b : ℤ) → int_eq a b ≡ true → a ≡ b
unfolding int_eq
int_eq_sound (pos a) (pos b) h = ground arith
int_eq_sound (negsuc a) (negsuc b) h = ground arith
int_eq_sound _ _ h = cc

-- Parts that are equal make wholes that are.
both {ℓ κ μ} :
    {A : Type ℓ} {B : Type κ} {C : Type μ} (f : A → B → C) {a b : A} {x y : B} (p q : Bool)
    → (p ≡ true → a ≡ b)
    → (q ≡ true → x ≡ y)
    → (p && q) ≡ true
    → f a x ≡ f b y
both f true true g h e = cc (g refl, h refl)
both f true false g h e = cc
both f false q g h e = cc

three {ℓ κ μ ν} :
    {A : Type ℓ} {B : Type κ} {C : Type μ} {D : Type ν} (f : A → B → C → D) {a b : A} {x y : B}
    {u v : C} (p q r : Bool)
    → (p ≡ true → a ≡ b)
    → (q ≡ true → x ≡ y)
    → (r ≡ true → u ≡ v)
    → (p && q && r) ≡ true
    → f a x u ≡ f b y v
three f true true true g h k e = cc (g refl, h refl, k refl)
three f true true false g h k e = cc
three f true false r g h k e = cc
three f false q r g h k e = cc

mutual
  unfolding ty_eq

  ty_eq_sound : (a b : Ty) → ty_eq a b ≡ true → a ≡ b
  ty_eq_sound any any h = refl
  ty_eq_sound void void h = refl
  ty_eq_sound bool bool h = refl
  ty_eq_sound u8 u8 h = refl
  ty_eq_sound i8 i8 h = refl
  ty_eq_sound u16 u16 h = refl
  ty_eq_sound i16 i16 h = refl
  ty_eq_sound u32 u32 h = refl
  ty_eq_sound i32 i32 h = refl
  ty_eq_sound u64 u64 h = refl
  ty_eq_sound i64 i64 h = refl
  ty_eq_sound f16 f16 h = refl
  ty_eq_sound f32 f32 h = refl
  ty_eq_sound f64 f64 h = refl
  ty_eq_sound str str h = refl
  ty_eq_sound map map h = refl
  ty_eq_sound (list a) (list b) h = ap list (ty_eq_sound a b h)
  ty_eq_sound (tuple x) (tuple y) h = ap tuple (tys_eq_sound x y h)
  ty_eq_sound (ident n p) (ident m q) h =
      both ident (str_eq n m) (tys_eq p q) (eq_iff n m).0 (tys_eq_sound p q) h
  ty_eq_sound (const_int a) (const_int b) h = ap const_int (int_eq_sound a b h)
  ty_eq_sound (const_binary o a b) (const_binary q c d) h =
      three const_binary (op_eq o q) (ty_eq a c) (ty_eq b d) (op_eq_sound o q) (ty_eq_sound a c)
        (ty_eq_sound b d) h
  ty_eq_sound (symbol i p) (symbol j q) h =
      both symbol (i == j) (tys_eq p q) (==_iff i j).0 (tys_eq_sound p q) h
  ty_eq_sound (struct p f) (struct q g) h =
      both struct (tys_eq p q) (members_eq f g) (tys_eq_sound p q) (members_eq_sound f g) h
  ty_eq_sound (vec a n) (vec b m) h =
      both vec (ty_eq a b) (n == m) (ty_eq_sound a b) (==_iff n m).0 h
  ty_eq_sound (array a n) (array b m) h =
      both array (ty_eq a b) (n == m) (ty_eq_sound a b) (==_iff n m).0 h
  ty_eq_sound (array_param a n) (array_param b m) h =
      both array_param (ty_eq a b) (ty_eq n m) (ty_eq_sound a b) (ty_eq_sound n m) h
  ty_eq_sound (fn p r) (fn q s) h =
      both fn (tys_eq p q) (ty_eq r s) (tys_eq_sound p q) (ty_eq_sound r s) h
  ty_eq_sound _ _ h = cc

  tys_eq_sound : (x y : Tys) → tys_eq x y ≡ true → x ≡ y
  tys_eq_sound nil nil h = refl
  tys_eq_sound (cons a x) (cons b y) h =
      both cons (ty_eq a b) (tys_eq x y) (ty_eq_sound a b) (tys_eq_sound x y) h
  tys_eq_sound _ _ h = cc

  members_eq_sound : (x y : Members) → members_eq x y ≡ true → x ≡ y
  members_eq_sound end end h = refl
  members_eq_sound (member n a x) (member m b y) h =
      three member (str_eq n m) (ty_eq a b) (members_eq x y) (eq_iff n m).0 (ty_eq_sound a b)
        (members_eq_sound x y) h
  members_eq_sound _ _ h = cc

or_comm : (a b : Bool) → (a || b) ≡ (b || a)
or_comm true true = refl
or_comm true false = refl
or_comm false true = refl
or_comm false false = refl

max_comm : (a b : ℕ) → max a b ≡ max b a
max_comm a b = omega arith

-- Types that compare equal are the same type.
pub ty_eq→eq : (a b : Ty) → ty_eq a b ≡ true → a ≡ b
ty_eq→eq a b h = ty_eq_sound a b h

-- The type of a sum does not depend on the order of the summands.
pub sum_type_comm : (s r : Ty) → sum_type s r ≡ sum_type r s
unfolding sum_type
sum_type_comm s r = elim (Bool-cases (ty_eq s r)) [
  | inl e ↦ rw (ty_eq→eq s r e)
  | inr e ↦ elim (Bool-cases (ty_eq r s)) [
    | inl f ↦ rw (ty_eq→eq r s f)
    | inr f ↦ rw (
      e,
      f,
      or_comm (is_str s) (is_str r),
      or_comm (is_any s) (is_any r),
      or_comm (is_float s) (is_float r),
      or_comm (is_f64 s) (is_f64 r),
      or_comm (is_int s) (is_int r),
      or_comm (is_uint s) (is_uint r),
      max_comm (storage_width s) (storage_width r),
    )
  ]
]
