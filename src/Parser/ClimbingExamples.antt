-- ===== src/Parser/ClimbingExamples.antt =====
-- parser/src/expr.rs: expressions of numbers, read at concrete inputs.
use zust.Prelude.{
  ℕ, zero, suc, ap, ◌≤◌, ◌+◌, ◌-◌, ◌≡◌, refl, arith, Bool, true, false, not, ◌&&◌, none, List, [],
  ◌∷◌, length, leb,
}
use zust.Prelude.Outcome.{Outcome, ok, err}
use zust.Dynamic.Value.{Bytes, Dynamic}
use zust.Parser.Space.{ParseErr, too_deep, expect_expr}
use zust.Parser.Expr.{Expr, value, Operands}
use zust.Parser.Operators.{add, mul}
use zust.Parser.Climbing.{get_expr}
use zust.Parser.Reading.{contains, keyword, just}
use zust.Parser.Operators.{sub, binary_op, or_else, word, first_of}
use zust.Parser.Climbing.Whole.{get_expr-print_operand}
use zust.Parser.Climbing.Deep.{flat, get_expr-flat}
use zust.Parser.Numbers.Suffixes.{every-contains}
use zust.Parser.Expr.{is_lighter}
use zust.Parser.Climbing.Trees.{
  Tree, erase, ByWeight, in_order, operands, meaning, depth, print_operand, print_chain, Operand,
  atom, bracketed, Chain, done, more,
}
use zust.Parser.Climbing.Signs.{Stop, stops, starts_base, is_chained}
use zust.Parser.Climbing.Correct.{AreReaders, IsOperand, IsChain}

abbrev digit_or : Bool → ℕ → Bytes → Outcome ParseErr Expr × Bytes
digit_or true c rest = (ok (value (Dynamic.u8 (c - b'0'))), rest)
digit_or false c rest = (err expect_expr, c ∷ rest)

-- A digit.
abbrev digit_base : Bytes → Outcome ParseErr Expr × Bytes
digit_base [] = (err expect_expr, [])
digit_base (c ∷ rest) = digit_or (leb b'0' c && leb c b'9') c rest

abbrev digits_only : Operands
digits_only = record {
  postfix = λ d e rest. ok (e, rest);
  list_expr = λ d rest. err expect_expr;
  braces = λ d rest. none;
  if_block = λ d rest. err expect_expr;
  match_block = λ d rest. err expect_expr;
  closure = λ d rest. err expect_expr;
  base = λ d allow rest. digit_base rest;
}

digit_bound : Bytes → ℕ → Bool
digit_bound rest c = not (leb b'0' c && leb c b'9')

digits_only-AreReaders : AreReaders digits_only
unfolding contains digit_bound
digits_only-AreReaders = ((λ d e rest b. refl), stopped)
  where
    refused :
        (c : ℕ) (rest : Bytes) (b : Bool)
        → not b ≡ true
        → digit_or b c rest ≡ (err expect_expr, c ∷ rest)
    refused c rest true h = absurd (cc)
    refused c rest false h = refl

    stopped :
        (d : ℕ) (allow : Bool) (rest : Bytes)
        → Stop rest
        → (e : ParseErr) × (digit_base rest ≡ (err e, rest))
    stopped d allow [] h = absurd h
    stopped d allow (c ∷ rest) h = (
      expect_expr,
      refused c rest (leb b'0' c && leb c b'9') (every-contains (digit_bound rest) stops c refl h),
    )

abbrev digit : ℕ → Operand
digit n = atom ((b'0' + n) ∷ []) (value (Dynamic.u8 n))

one-IsText : (rest : Bytes) → IsOperand digits_only (digit 1) rest
unfolding starts_base is_lighter keyword just binary_op or_else word first_of contains
one-IsText rest = (refl, λ d allow. refl, λ w h. refl)

two-IsText : (rest : Bytes) → IsOperand digits_only (digit 2) rest
unfolding starts_base is_lighter keyword just binary_op or_else word first_of contains
two-IsText rest = (refl, λ d allow. refl, λ w h. refl)

three-IsText : (rest : Bytes) → IsOperand digits_only (digit 3) rest
unfolding starts_base is_lighter keyword just binary_op or_else word first_of contains
three-IsText rest = (refl, λ d allow. refl, λ w h. refl)

-- "1 + (2 - 3) * 1;"
abbrev mixed : Chain
mixed = more add (bracketed (digit 2) (more sub (digit 3) done)) (more mul (digit 1) done)

mixed-IsChain : IsChain digits_only mixed (b';' ∷ [])
unfolding is_chained
mixed-IsChain = (refl, (two-IsText _, (refl, three-IsText _, tt)), (refl, one-IsText _, tt))

get_expr-print_operand_example :
    (t : Tree) × (get_expr digits_only (print_operand (digit 1) (print_chain mixed (b';' ∷ [])))
      ≡ ok (erase t, b';' ∷ []))
    × ByWeight t
    × (in_order t [] ≡ (meaning (digit 1), operands mixed))
    × ((u : Tree) → ByWeight u → in_order u [] ≡ (meaning (digit 1), operands mixed) → u ≡ t)
unfolding contains depth
get_expr-print_operand_example =
    get_expr-print_operand digits_only (digit 1) mixed (b';' ∷ []) digits_only-AreReaders
      (one-IsText _) mixed-IsChain refl (omega arith)

abbrev ones : ℕ → List (Bytes × Expr)
ones zero = []
ones (suc n) = (b'1' ∷ [], value (Dynamic.u8 1)) ∷ ones n

ones-IsChain : (n : ℕ) → IsChain digits_only (flat add (ones n)) (b';' ∷ [])
unfolding flat is_chained
ones-IsChain zero = tt
ones-IsChain (suc n) = (refl, one-IsText _, ones-IsChain n)

length-ones : (n : ℕ) → length (ones n) ≡ n
length-ones zero = refl
length-ones (suc n) = ap suc (length-ones n)

many_ones : 64 ≤ length (ones 64)
many_ones = rw (length-ones 64) (omega arith)

get_expr-flat_example :
    get_expr digits_only (print_operand (digit 1) (print_chain (flat add (ones 64)) (b';' ∷ [])))
    ≡ err too_deep
unfolding is_chained contains
get_expr-flat_example =
    get_expr-flat digits_only (b'1' ∷ []) (value (Dynamic.u8 1)) add (ones 64) (b';' ∷ [])
      digits_only-AreReaders (one-IsText _) refl (ones-IsChain 64) refl many_ones
