-- ===== src/Compiler/Consts/Laws.antt =====
-- compiler/src/symbol.rs: constant lengths under substitution.
use zust.Prelude.{◌≡◌, refl}
use zust.Prelude.Int.{ℤ}
use zust.Prelude.Outcome.{Outcome, ok, err, panic, ◌>>=◌}
use zust.Dynamic.Types.{Ty, const_int, const_binary, Tys}
use zust.Compiler.Consts.{Maybe, eval_const_int_type, substitute_type}

-- Inversion of a chain of two steps that succeeds.
pub both_ok :
    {A B : Type 0} (m : Maybe A) (k : A → Maybe B) (b : B)
    → (m >>= k) ≡ ok b
    → (a : A) × (m ≡ ok a) × (k a ≡ ok b)
both_ok (ok a) k b h = (a, refl, h)
both_ok (err e) k b h = cc
both_ok panic k b h = cc
both_ok Outcome.stuck k b h = cc

-- A length that is known before type parameters are replaced is the same length behind it, and the
-- replacement does not fail.
pub eval_const_int_type-substitute_type :
    (params args : Tys) (ty : Ty) (value : ℤ)
    → eval_const_int_type ty ≡ ok value
    → (ty' : Ty) × (substitute_type params args ty ≡ ok ty') × (eval_const_int_type ty' ≡ ok value)
unfolding substitute_type eval_const_int_type
eval_const_int_type-substitute_type params args (const_int value) v h = (const_int value, refl, h)
eval_const_int_type-substitute_type params args (const_binary op left right) v h =
    let (a, ea, h') = both_ok (eval_const_int_type left) _ v h in
    let (b, eb, e) = both_ok (eval_const_int_type right) _ v h' in
    let (left', sl, el) = eval_const_int_type-substitute_type params args left a ea in
    let (right', sr, er) = eval_const_int_type-substitute_type params args right b eb in
    (const_int v, rw (sl, sr, el, er, e) refl, refl)
eval_const_int_type-substitute_type params args _ v h = cc
