-- ===== src/Dynamic/Ops/Faults.antt =====
-- dynamic/src/ops.rs: when an operator reports a fault.
use Prim.Native.String.{String}
use zust.Prelude.{ℕ, ◌≡◌, refl, Bool, true, false, ◌&&◌, ◌||◌, Option, none, some, if◌then◌else◌}
use zust.Prelude.Int.{ℤ}
use zust.Dynamic.Fault.{RuntimeFault, has_fault, set_fault}
use zust.Dynamic.Value.{Dynamic, null, i8, i16, i32, i64, u8, u16, u32, u64, f64}
use zust.Dynamic.Ops.{
  Floats, Answer, is_f32, is_f64, is_float, is_int, is_uint, int_fault, or_fault, on_ints, on_uints,
  on_numbers, as_float, as_int, as_uint,
}
use zust.Dynamic.Ops.Operators.{
  mul_int, mul, on_floats, sub_int, sub, div_int, div, rem, shift_of, shifted, shl, shr,
}

pub data Operator : Type 0 where
  multiply subtract divide remainder left right : Operator

unfoldable pub apply : Floats → Operator → Dynamic → Dynamic → RuntimeFault → Answer
apply p multiply = mul p
apply p subtract = sub p
apply p divide = div p
apply p remainder = rem
apply p left = shl
apply p right = shr

unfoldable pub is_null : Dynamic → Bool
is_null null = true
is_null _ = false

-- The result is null exactly if the flag is set.
abbrev Agrees : Answer → Type 0
Agrees r = is_null r.0 ≡ has_fault r.1

int_fault-Agrees : (reason : String) → Agrees (int_fault reason none)
unfolding int_fault is_null has_fault set_fault
int_fault-Agrees reason = refl

or_fault-Agrees :
    {A : Type 0} (make : A → Dynamic) (r : Option A) (reason : String)
    → ((a : A) → is_null (make a) ≡ false)
    → Agrees (or_fault make r reason none)
unfolding or_fault has_fault
or_fault-Agrees make none reason h = int_fault-Agrees reason
or_fault-Agrees make (some a) reason h = h a

on_ints-Agrees :
    (op : ℤ → ℤ → Option ℤ) (s t : String) (a b : Dynamic) → Agrees (on_ints op s t a b none)
unfolding on_ints is_null
on_ints-Agrees op s t a b = go (as_int a) (as_int b)
  where
    go :
        (x y : Option ℤ)
        → Agrees (elim x [
          | none ↦ int_fault s none
          | some x ↦ elim y [ none ↦ int_fault s none | some y ↦ or_fault i64 (op x y) t none ]
        ])
    go none y = int_fault-Agrees s
    go (some x) none = int_fault-Agrees s
    go (some x) (some y) = or_fault-Agrees i64 (op x y) t (λ i. refl)

on_uints-Agrees :
    (op : ℕ → ℕ → Option ℕ) (s t : String) (a b : Dynamic) → Agrees (on_uints op s t a b none)
unfolding on_uints is_null
on_uints-Agrees op s t a b = go (as_uint a) (as_uint b)
  where
    go :
        (x y : Option ℕ)
        → Agrees (elim x [
          | none ↦ int_fault s none
          | some x ↦ elim y [ none ↦ int_fault s none | some y ↦ or_fault u64 (op x y) t none ]
        ])
    go none y = int_fault-Agrees s
    go (some x) none = int_fault-Agrees s
    go (some x) (some y) = or_fault-Agrees u64 (op x y) t (λ i. refl)

-- Whichever branch a test takes.
if-Agrees : (t : Bool) (x y : Answer) → Agrees x → Agrees y → Agrees (if t then x else y)
if-Agrees true x y h k = h
if-Agrees false x y h k = k

module _ (s t u v : String) (a b : Dynamic) (known : is_null a ≡ false) where
  on_numbers-Agrees :
      (ints : ℤ → ℤ → Option ℤ) (uints : ℕ → ℕ → Option ℕ)
      → Agrees (on_numbers (on_ints ints s t) (on_uints uints u v) a b none)
  unfolding has_fault
  on_numbers-Agrees ints uints =
      if-Agrees (is_int a || is_int b) _ _ (on_ints-Agrees ints s t a b)
        (if-Agrees (is_uint a || is_uint b) _ _ (on_uints-Agrees uints u v a b) known)

on_floats-Agrees :
    (p : Floats) (double single : ℕ → ℕ → ℕ) (others : Dynamic → Dynamic → RuntimeFault → Answer)
    (a b : Dynamic)
    → Agrees (others a b none)
    → Agrees (on_floats p double single others a b none)
unfolding on_floats is_null has_fault
on_floats-Agrees p double single others a b h =
    if-Agrees (is_float a && is_float b && (is_f64 a || is_f64 b)) _ _ refl
      (if-Agrees (is_float a && is_float b && (is_f32 a || is_f32 b)) _ _ refl h)

shifted-Agrees :
    (ints : ℕ → ℤ → ℕ → Option ℤ) (words : ℕ → ℕ → ℕ → Option ℕ) (t : String) (a : Dynamic) (n : ℕ)
    → Agrees (shifted ints words t a n none)
unfolding shifted is_null has_fault
shifted-Agrees ints words t (i8 i) n = or_fault-Agrees i8 (ints 8 i n) t (λ _. refl)
shifted-Agrees ints words t (i16 i) n = or_fault-Agrees i16 (ints 16 i n) t (λ _. refl)
shifted-Agrees ints words t (i32 i) n = or_fault-Agrees i32 (ints 32 i n) t (λ _. refl)
shifted-Agrees ints words t (i64 i) n = or_fault-Agrees i64 (ints 64 i n) t (λ _. refl)
shifted-Agrees ints words t (u8 i) n = or_fault-Agrees u8 (words 8 i n) t (λ _. refl)
shifted-Agrees ints words t (u16 i) n = or_fault-Agrees u16 (words 16 i n) t (λ _. refl)
shifted-Agrees ints words t (u32 i) n = or_fault-Agrees u32 (words 32 i n) t (λ _. refl)
shifted-Agrees ints words t (u64 i) n = or_fault-Agrees u64 (words 64 i n) t (λ _. refl)
shifted-Agrees ints words t _ n = refl

shift-Agrees :
    (ints : ℕ → ℤ → ℕ → Option ℤ) (words : ℕ → ℕ → ℕ → Option ℕ) (s t : String) (a : Dynamic)
    (n : Option ℕ)
    → Agrees (elim n [ none ↦ int_fault s none | some n ↦ shifted ints words t a n none ])
shift-Agrees ints words s t a none = int_fault-Agrees s
shift-Agrees ints words s t a (some n) = shifted-Agrees ints words t a n

-- Applied to a left operand that is not null with no fault pending, an operator gives null exactly if
-- it sets the fault flag.
pub apply-Agrees :
    (p : Floats) (op : Operator) (a b : Dynamic)
    → is_null a ≡ false
    → is_null (apply p op a b none).0 ≡ has_fault (apply p op a b none).1
unfolding apply mul mul_int sub sub_int div div_int rem shl shr is_null has_fault
apply-Agrees p multiply a b known =
    if-Agrees (is_f64 a || is_f64 b) _ _ refl
      (if-Agrees (is_f32 a || is_f32 b) _ _ refl (on_numbers-Agrees _ _ _ _ a b known _ _))
apply-Agrees p subtract a b known =
    on_floats-Agrees p p.sub_64 p.sub_32 sub_int a b (on_numbers-Agrees _ _ _ _ a b known _ _)
apply-Agrees p divide a b known =
    on_floats-Agrees p p.div_64 p.div_32 div_int a b (on_numbers-Agrees _ _ _ _ a b known _ _)
apply-Agrees p remainder a b known = on_numbers-Agrees _ _ _ _ a b known _ _
apply-Agrees p left a b known = shift-Agrees _ _ _ _ a (shift_of b)
apply-Agrees p right a b known = shift-Agrees _ _ _ _ a (shift_of b)

-- A 64-bit float times an integer is a float, whereas a 64-bit float minus an integer is a fault.
pub sub-mul_mixed :
    (p : Floats) (x : ℕ) (b : Dynamic)
    → (is_int b || is_uint b) ≡ true
    → (is_null (sub p (f64 x) b none).0 ≡ true)
      × (mul p (f64 x) b none ≡ (f64 (p.mul_64 x (as_float p b)), none))
unfolding sub sub_int mul on_floats on_ints on_uints is_int is_uint is_null is_float is_f64 is_f32
    as_int as_uint int_fault as_float
sub-mul_mixed p x (i8 i) h = (refl, refl)
sub-mul_mixed p x (i16 i) h = (refl, refl)
sub-mul_mixed p x (i32 i) h = (refl, refl)
sub-mul_mixed p x (i64 i) h = (refl, refl)
sub-mul_mixed p x (u8 i) h = (refl, refl)
sub-mul_mixed p x (u16 i) h = (refl, refl)
sub-mul_mixed p x (u32 i) h = (refl, refl)
sub-mul_mixed p x (u64 i) h = (refl, refl)
sub-mul_mixed p x _ h = cc
