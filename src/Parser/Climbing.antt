-- ===== src/Parser/Climbing.antt =====
-- parser/src/expr.rs: `expr_with_min_weight`, which reads operators by their weights. The depth that
-- is left before the limit of the parser is its fuel.
-- The flag `fatal` is left out: an error of the base expression, also one of depth, ends the expression
-- where a left operand is complete.
pub mod Trees
pub mod Splits
pub mod Unique
pub mod Signs
pub mod Steps
pub mod Correct
pub mod Loop
pub mod Whole
pub mod Deep
use zust.Prelude.{
  ℕ, zero, suc, ◌+◌, ◌-◌, Bool, true, false, not, ◌&&◌, ◌||◌, Option, none, some, List, [], ◌∷◌,
  length, take, ltb, ◌==◌, if◌then◌else◌,
}
use zust.Prelude.Outcome.{Outcome, ok, err, panic, stuck, ◌>>=◌}
use zust.Dynamic.Value.{Bytes, Dynamic}
use zust.Parser.Reading.{contains, just, keyword}
use zust.Parser.Space.{
  ParseErr, whitespace, ended, not_expected, too_deep, missing_left, need_left, unexpected,
}
use zust.Parser.Strings.{pass_over}
use zust.Parser.Operators.{BinaryOp, weight, is_assign, binary_op}
use zust.Parser.Expr.{
  Expr, Exprs, nil, cons, value, unary, binary, tuple, range, if_else, UnaryOp, neg, not_op, Reads,
  Closed, Reader, is_lighter, binary_of, combine, Operands,
}
use zust.Parser.Combining.{
  get_byte, take_byte, until, continuing, is_some, continues, crossed_newline, first_is, wants,
  stands_alone, word_of, operand, no_operand, after_base, list_loop, split_of, chained, is_range,
  heavy_operator, weighed_operator, open_range, operator, conditional, unary_expr,
}

-- The limit of the parser, when no other expression is open.
abbrev pub max_parse_depth : ℕ
max_parse_depth = 128

module _ (O : Operands) where
  unfoldable pub tuple_expr : Reader → ℕ → Expr → Bytes → Reads Expr
  tuple_expr rec d e rest = do
    (es, more) ← list_loop rec (length rest + 1) rest
    O.postfix d (tuple (cons e es)) more

  -- Behind an expression in brackets.
  unfoldable pub group_end : Reader → ℕ → Expr → Bytes → Reads Expr
  unfolding tuple_expr
  group_end rec d e rest = do
    c ← get_byte rest
    if c == b',' then tuple_expr rec d e (pass_over rest) else (until b')' rest >>= O.postfix d e)

  -- Behind a bracket. An empty tuple is returned, without the left operand.
  unfoldable pub group :
      Reader → ℕ → Option Closed → Option BinaryOp → ℕ → Bool → Bytes → Reads Closed
  unfolding group_end
  group rec d left op least allow rest = do
    here ← whitespace rest
    if first_is b')' here
        then (O.postfix d (tuple nil) (pass_over here) >>= λ (e, more). ok ((e, true), more))
        else (rec none none 0 true here >>= λ ((e, closed), more).
            whitespace more >>= group_end rec d e >>= λ (e', after).
            operand rec left op least allow (e', true) after)

  -- What starts with none of the bytes and words before.
  unfoldable pub operator_or_base :
      Reader → ℕ → Option Closed → Option BinaryOp → ℕ → Bool → Bytes → Reads Closed
  unfolding operator after_base
  operator_or_base rec d left op least allow here = elim (binary_op here) [
    | some (this, rest) ↦ operator rec left op this least allow here rest
    | none ↦ after_base rec left op least allow (O.base d allow here)
  ]

  unfoldable pub question :
      Reader → ℕ → Option Closed → Option BinaryOp → ℕ → Bool → ℕ → Bytes → Reads Closed
  unfolding operator_or_base
  question rec d left op least allow c rest =
      if c == b'?' && not (wants left op) && least == 0
      then conditional rec left allow rest
      else operator_or_base rec d left op least allow (c ∷ rest)

  unfoldable pub closure_or :
      Reader → ℕ → Option Closed → Option BinaryOp → ℕ → Bool → ℕ → Bytes → Reads Closed
  unfolding question
  closure_or rec d left op least allow c rest =
      if c == b'|' && not (is_some left)
      then (O.closure d rest >>= λ (e, more). operand rec left op least allow (e, true) more)
      else question rec d left op least allow c rest

  -- The blocks of `if` and `match`.
  unfoldable pub block_or :
      Reader → ℕ → Option Closed → Option BinaryOp → ℕ → Bool → ℕ → Bytes → Reads Closed
  unfolding closure_or
  block_or rec d left op least allow c rest =
      elim (word_of (wants left op) (b'i' ∷ b'f' ∷ []) (c ∷ rest)) [
        | some more ↦
            (O.if_block d more >>= λ (e, after). operand rec left op least allow (e, true) after)
        | none ↦ elim (word_of (wants left op) (b'm' ∷ b'a' ∷ b't' ∷ b'c' ∷ b'h' ∷ []) (c ∷ rest)) [
          | some more ↦
              (O.match_block d more >>= λ (e, after).
              operand rec left op least allow (e, true) after)
          | none ↦ closure_or rec d left op least allow c rest
        ]
      ]

  unfoldable pub braces_or :
      Reader → ℕ → Option Closed → Option BinaryOp → ℕ → Bool → ℕ → Bytes → Reads Closed
  unfolding block_or
  braces_or rec d left op least allow c rest =
      elim (if c == b'{' && wants left op then O.braces d (c ∷ rest) else none) [
        | some read ↦ (read >>= λ (e, after). operand rec left op least allow (e, false) after)
        | none ↦ block_or rec d left op least allow c rest
      ]

  unfoldable pub at_byte :
      Reader → ℕ → Option Closed → Option BinaryOp → ℕ → Bool → ℕ → Bytes → Reads Closed
  unfolding group braces_or
  at_byte rec d left op least allow c rest =
      if c == b'('
      then group rec d left op least allow rest
      else if c == b'!' && stands_alone rest
      then unary_expr rec not_op left op least allow rest
      else elim (word_of (wants left op) (b'n' ∷ b'o' ∷ b't' ∷ []) (c ∷ rest)) [
        | some more ↦ unary_expr rec not_op left op least allow more
        | none ↦
            if c == b'-' && stands_alone rest && wants left op
            then unary_expr rec neg left op least allow rest
            else if c == b'['
            then (O.list_expr d (c ∷ rest) >>= λ (e, after).
                operand rec left op least allow (e, false) after)
            else braces_or rec d left op least allow c rest
      ]

  unfoldable pub at_end : Option Closed → Reads Closed
  at_end none = err missing_left
  at_end (some left) = ok (left, [])

  unfoldable pub at_bytes :
      Reader → ℕ → Option Closed → Option BinaryOp → ℕ → Bool → Bytes → Reads Closed
  unfolding at_byte at_end
  at_bytes rec d left op least allow [] = at_end left
  at_bytes rec d left op least allow (c ∷ rest) = at_byte rec d left op least allow c rest

  -- A new line ends a finished expression, unless it goes on with an operator.
  unfoldable pub at_line :
      Reader → ℕ → Option Closed → Option BinaryOp → ℕ → Bool → Bytes → Bytes → Reads Closed
  unfolding at_bytes
  at_line rec d (some (left, closed)) none least allow input here =
      if crossed_newline input here && not (continues here)
      then ok ((left, false), input)
      else at_bytes rec d (some (left, closed)) none least allow here
  at_line rec d left op least allow input here = at_bytes rec d left op least allow here

  unfoldable pub expr_with_min_weight :
      ℕ → Option Closed → Option BinaryOp → ℕ → Bool → Bytes → Reads Closed
  unfolding at_line
  expr_with_min_weight zero left op least allow input = err too_deep
  expr_with_min_weight (suc d) left op least allow input =
      whitespace input >>= at_line (expr_with_min_weight d) d left op least allow input

  unfoldable pub get_expr : Bytes → Reads Expr
  unfolding expr_with_min_weight
  get_expr input =
      expr_with_min_weight max_parse_depth none none 0 true input >>= λ ((e, closed), rest).
      ok (e, rest)
