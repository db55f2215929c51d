-- ===== src/Compiler/Consts.antt =====
-- compiler/src/symbol.rs: the lengths of arrays that are known when a program is compiled, and the
-- parameters of generic types. Strings are those of the model of types.
pub mod Laws
pub mod Replaced
mod Examples
use Prim.Native.String.{String}
use text.Mathlib.Text.{◌==◌ as str_eq}
use zust.Prelude.{ℕ, zero, suc, ◌+◌, ◌^◌, Bool, true, false, Option, none, some, if◌then◌else◌}
use zust.Prelude.Int.{ℤ}
use zust.Prelude.Outcome.{Outcome, ok, err, panic, ◌>>=◌}
use zust.Dynamic.Ops.Checked.{◌+ℤ◌, ◌-ℤ◌, ◌*ℤ◌, quot, rest, is_zero, fits, signed}
use zust.Dynamic.Types.{
  ConstIntOp, add, sub, mul, div, modulo, Ty, any, void, bool, u8, i8, u16, i16, u32, i32, u64, i64,
  f16, f32, f64, str, map, iter, list, ident, const_int, const_binary, tuple, struct, vec, array,
  array_param, fn, symbol, Tys, nil, cons, Members, end, member,
}

-- An `Option` that is computed by code that may panic: `err tt` is `None`.
abbrev pub Maybe : Type 0 → Type 0
Maybe A = Outcome (Unit {0}) A

abbrev pub of_option : {A : Type 0} → Option A → Maybe A
of_option none = err tt
of_option (some a) = ok a

-- The operators `/` and `%` of i64 panic where the quotient does not fit.
abbrev pub unchecked : ℤ → ℤ → ℤ → Maybe ℤ
unchecked a b r = if fits (2 ^ 63) (quot a b) then ok r else panic

unfoldable pub fold : ConstIntOp → ℤ → ℤ → Maybe ℤ
fold add a b = of_option (signed (a +ℤ b))
fold sub a b = of_option (signed (a -ℤ b))
fold mul a b = of_option (signed (a *ℤ b))
fold div a b = if is_zero b then err tt else unchecked a b (quot a b)
fold modulo a b = if is_zero b then err tt else unchecked a b (rest a b)

unfoldable pub eval_const_int_type : Ty → Maybe ℤ
eval_const_int_type (const_int value) = ok value
eval_const_int_type (const_binary op left right) = do
  a ← eval_const_int_type left
  b ← eval_const_int_type right
  fold op a b
eval_const_int_type _ = err tt

-- `position` of a parameter that is a plain name.
unfoldable pub position : Tys → String → Option ℕ
position nil name = none
position (cons (ident param nil) params) name =
    let later = position params name in
    if str_eq param name then some 0 else elim later [ none ↦ none | some i ↦ some (suc i) ]
position (cons param params) name = elim (position params name) [
  | none ↦ none
  | some i ↦ some (suc i)
]

-- `args[idx]`
unfoldable pub at : Tys → ℕ → Maybe Ty
at nil i = panic
at (cons t ts) zero = ok t
at (cons t ts) (suc i) = at ts i

-- `map(|idx| args[idx].clone()).unwrap_or_else(|| ty.clone())`
abbrev pub argument : Tys → String → Option ℕ → Maybe Ty
argument args name none = ok (ident name nil)
argument args name (some idx) = at args idx

-- `eval_const_int_type(&ty).map(Type::ConstInt).unwrap_or(ty)`
abbrev pub or_type : Maybe ℤ → Ty → Maybe Ty
or_type (ok value) ty = ok (const_int value)
or_type (err e) ty = ok ty
or_type panic ty = panic
or_type Outcome.stuck ty = Outcome.stuck

unfoldable mutual
  unfolding eval_const_int_type position at

  pub substitute_type : Tys → Tys → Ty → Maybe Ty
  substitute_type params args (ident name nil) = argument args name (position params name)
  substitute_type params args (ident name (cons t ts)) = do
    t' ← substitute_type params args t
    ts' ← substitute_types params args ts
    ok (ident name (cons t' ts'))
  substitute_type params args (struct ps members) = do
    ps' ← substitute_types params args ps
    members' ← substitute_members params args members
    ok (struct ps' members')
  substitute_type params args (list elem) = do
    elem' ← substitute_type params args elem
    ok (list elem')
  substitute_type params args (vec elem len) = do
    elem' ← substitute_type params args elem
    ok (vec elem' len)
  substitute_type params args (array elem len) = do
    elem' ← substitute_type params args elem
    ok (array elem' len)
  substitute_type params args (array_param elem len) = do
    elem' ← substitute_type params args elem
    len' ← substitute_type params args len
    ok (array_param elem' len')
  substitute_type params args (const_binary op left right) = do
    left' ← substitute_type params args left
    right' ← substitute_type params args right
    or_type (eval_const_int_type (const_binary op left' right')) (const_binary op left' right')
  substitute_type params args (fn tys ret) = do
    tys' ← substitute_types params args tys
    ret' ← substitute_type params args ret
    ok (fn tys' ret')
  substitute_type params args (symbol id nested) = do
    nested' ← substitute_types params args nested
    ok (symbol id nested')
  substitute_type params args (tuple items) = do
    items' ← substitute_types params args items
    ok (tuple items')
  substitute_type params args ty = ok ty

  pub substitute_types : Tys → Tys → Tys → Maybe Tys
  substitute_types params args nil = ok nil
  substitute_types params args (cons t ts) = do
    t' ← substitute_type params args t
    ts' ← substitute_types params args ts
    ok (cons t' ts')

  pub substitute_members : Tys → Tys → Members → Maybe Members
  substitute_members params args end = ok end
  substitute_members params args (member name t rest) = do
    t' ← substitute_type params args t
    rest' ← substitute_members params args rest
    ok (member name t' rest')
