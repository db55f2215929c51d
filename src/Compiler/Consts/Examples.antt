-- ===== src/Compiler/Consts/Examples.antt =====
-- The laws of constants and type parameters at concrete types.
use zust.Prelude.{◌≡◌, refl, some}
use zust.Prelude.Int.{pos}
use zust.Prelude.Outcome.{ok}
use zust.Dynamic.Types.{
  add, mul, Ty, i32, ident, const_int, const_binary, array_param, Tys, nil, cons, struct, member,
  end,
}
use zust.Compiler.Consts.{eval_const_int_type, substitute_type, position, fold}
use zust.Compiler.Consts.Laws.{eval_const_int_type-substitute_type}
use zust.Compiler.Consts.Replaced.{Absent, Absents, substitute_type-Absent}

-- 2 * 3 + 4
abbrev ten : Ty
ten =
    const_binary add (const_binary mul (const_int (pos 2)) (const_int (pos 3))) (const_int (pos 4))

ten_lem : eval_const_int_type ten ≡ ok (pos 10)
unfolding eval_const_int_type fold
ten_lem = refl

-- struct Grid<T, N> { cells: [T; N * 2] }
abbrev grid : Ty
grid = struct (cons (ident "T" nil) (cons (ident "N" nil) nil)) (
    member "cells"
      (array_param (ident "T" nil) (const_binary mul (ident "N" nil) (const_int (pos 2)))) end)

abbrev params : Tys
params = cons (ident "T" nil) (cons (ident "N" nil) nil)

abbrev args : Tys
args = cons i32 (cons (const_int (pos 5)) nil)

abbrev grid' : Ty
grid' = struct args (member "cells" (array_param i32 (const_int (pos 10))) end)

grid_lem : substitute_type params args grid ≡ ok grid'
unfolding substitute_type fold
grid_lem = refl

second : position params "N" ≡ some 1
unfolding position
second = refl

-- Replacing parameters in 2 * 3 + 4 leaves 10.
eval_const_int_type-substitute_type_example :
    (ty : Ty) × (substitute_type (cons (ident "N" nil) nil) (cons (const_int (pos 7)) nil) ten
      ≡ ok ty)
    × (eval_const_int_type ty ≡ ok (pos 10))
eval_const_int_type-substitute_type_example =
    eval_const_int_type-substitute_type (cons (ident "N" nil) nil) (cons (const_int (pos 7)) nil)
      ten (pos 10) ten_lem

absent_args : Absents "N" args
unfolding Absent
absent_args = (tt, (tt, tt))

substitute_type-Absent_example : Absent "N" grid'
substitute_type-Absent_example =
    substitute_type-Absent params args "N" 1 second absent_args grid grid' grid_lem
