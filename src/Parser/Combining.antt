-- ===== src/Parser/Combining.antt =====
-- parser/src/expr.rs: what `expr_with_min_weight` does at an operator and behind an operand, given the
-- reader that it calls. The bytes are those of parser/src/lib.rs.
use zust.Prelude.{
  ℕ, zero, suc, ◌+◌, ◌-◌, Bool, true, false, not, ◌&&◌, ◌||◌, Option, none, some, List, [], ◌∷◌,
  length, take, ltb, ◌==◌, if◌then◌else◌,
}
use zust.Prelude.Outcome.{Outcome, ok, err, panic, stuck, ◌>>=◌}
use zust.Dynamic.Value.{Bytes, Dynamic}
use zust.Parser.Reading.{contains, just, keyword}
use zust.Parser.Space.{ParseErr, whitespace, ended, not_expected, need_left, unexpected}
use zust.Parser.Strings.{pass_over}
use zust.Parser.Operators.{BinaryOp, weight, is_assign}
use zust.Parser.Expr.{
  Expr, Exprs, nil, cons, value, unary, binary, range, if_else, UnaryOp, Reads, Closed, Reader,
  is_lighter, binary_of, combine,
}

unfoldable pub get_byte : Bytes → Outcome ParseErr ℕ
get_byte [] = err ended
get_byte (c ∷ rest) = ok c

unfoldable pub take_byte : ℕ → Bytes → Outcome ParseErr Bytes
take_byte b [] = err not_expected
take_byte b (c ∷ rest) = if c == b then ok rest else err not_expected

unfoldable pub until : ℕ → Bytes → Outcome ParseErr Bytes
until b input = whitespace input >>= take_byte b

-- "+-*/%<>=!&|?:.["
abbrev pub continuing : List ℕ
continuing =
    b'+' ∷ b'-' ∷ b'*' ∷ b'/' ∷ b'%' ∷ b'<' ∷ b'>' ∷ b'=' ∷ b'!' ∷ b'&' ∷ b'|' ∷ b'?' ∷ b':' ∷ b'.'
    ∷ b'[' ∷ []

abbrev pub is_some : {A : Type 0} → Option A → Bool
is_some none = false
is_some (some a) = true

unfoldable pub continues : Bytes → Bool
continues [] = false
continues (c ∷ rest) =
    contains continuing c
    || is_some (just (b'a' ∷ b'n' ∷ b'd' ∷ b' ' ∷ []) (c ∷ rest))
    || is_some (just (b'o' ∷ b'r' ∷ b' ' ∷ []) (c ∷ rest))

-- The white space between two positions has the end of a line.
unfoldable pub crossed_newline : Bytes → Bytes → Bool
crossed_newline input here = contains (take (length input - length here) input) b'\n'

abbrev pub first_is : ℕ → Bytes → Bool
first_is b [] = false
first_is b (c ∷ rest) = c == b

-- Another operand must come.
abbrev pub wants : Option Closed → Option BinaryOp → Bool
wants none op = true
wants (some left) none = false
wants (some left) (some op) = true

-- `!` and `-` are no part of an assigning or comparing operator.
unfoldable pub stands_alone : Bytes → Bool
stands_alone [] = true
stands_alone (c ∷ rest) = not (c == b'=')

abbrev pub word_of : Bool → List ℕ → Bytes → Option Bytes
word_of false word input = none
word_of true word input = keyword word input

-- An operand was read.
unfoldable pub operand :
    Reader → Option Closed → Option BinaryOp → ℕ → Bool → Closed → Bytes → Reads Closed
operand rec none op least allow e rest = rec (some e) none least allow rest
operand rec (some (left, closed)) none least allow e rest = err unexpected
operand rec (some (left, closed)) (some op) least allow (right, c) rest =
    rec (some (combine op left right, false)) none least allow rest

-- No operand was read.
unfoldable pub no_operand : Option Closed → Option BinaryOp → ParseErr → Bytes → Reads Closed
no_operand (some (left, closed)) none e rest = ok ((left, false), rest)
no_operand left op e rest = err e

unfoldable pub after_base :
    Reader
    → Option Closed
    → Option BinaryOp
    → ℕ
    → Bool
    → Outcome ParseErr Expr × Bytes
    → Reads Closed
after_base rec left op least allow (ok e, rest) = operand rec left op least allow (e, false) rest
after_base rec left op least allow (err e, rest) = no_operand left op e rest
after_base rec left op least allow (panic, rest) = panic
after_base rec left op least allow (stuck, rest) = stuck

-- `parse_list!` with expressions, up to a bracket, on fuel that the bytes bound.
unfoldable pub list_loop : Reader → ℕ → Bytes → Reads Exprs
list_loop rec zero input = stuck
list_loop rec (suc fuel) input = do
  here ← whitespace input
  c ← get_byte here
  let more = rec none none 0 true here >>= λ ((e, closed), rest). do
    behind ← whitespace rest
    d ← get_byte behind
    (es, after) ← list_loop rec fuel (if d == b',' then pass_over behind else behind)
    ok (cons e es, after)
  if c == b')' then ok (nil, pass_over here) else more

-- The parts of a left operand whose operator weighs less than the next one.
unfoldable pub split_of : Expr → Bool → ℕ → Option (Expr × BinaryOp × Expr)
split_of left closed w = if not closed && is_lighter left w then binary_of left else none

-- An operator that is neither a range nor an assignment, behind the operand `left`.
unfoldable pub chained :
    Reader → Closed → Option BinaryOp → BinaryOp → ℕ → Bool → Bytes → Reads Closed
chained rec left (some op) this least allow rest = err unexpected
chained rec (left, closed) none this least allow rest = elim (split_of left closed (weight this)) [
  | none ↦ rec (some (left, false)) (some this) least allow rest
  | some (l, o, r) ↦
      (rec (some (r, false)) (some this) (weight this) allow rest >>= λ ((right, c), more).
      rec (some (binary l o right, false)) none least allow more)
]

unfoldable pub is_range : BinaryOp → Bool
is_range BinaryOp.range_open = true
is_range BinaryOp.range_close = true
is_range op = false

-- An operator of at least the least weight.
unfoldable pub heavy_operator :
    Reader → Closed → Option BinaryOp → BinaryOp → ℕ → Bool → Bytes → Reads Closed
unfolding chained
heavy_operator rec left op this least allow rest =
    if is_range this
    then (rec none none (weight this + 1) allow rest >>= λ ((stop, closed), more).
        rec (some (combine this left.0 stop, false)) none least allow more)
    else if is_assign this
    then (rec none none (weight this) allow rest >>= λ ((right, closed), more).
        rec (some (binary left.0 this right, false)) none least allow more)
    else chained rec left op this least allow rest

unfoldable pub weighed_operator :
    Reader → Closed → Option BinaryOp → BinaryOp → ℕ → Bool → Bytes → Bytes → Reads Closed
unfolding heavy_operator
weighed_operator rec left op this least allow here rest =
    if ltb (weight this) least
    then ok (left, here)
    else heavy_operator rec left op this least allow rest

-- `..` before a bracket is a range without an end.
unfoldable pub open_range :
    Reader → Closed → Option BinaryOp → ℕ → Bool → Bytes → Bytes → Reads Closed
unfolding weighed_operator
open_range rec left op least allow here rest = do
  behind ← whitespace rest
  c ← get_byte behind
  if c == b']'
      then ok ((range left.0 (value Dynamic.null) false, false), behind)
      else weighed_operator rec left op BinaryOp.range_open least allow here behind

-- An operator was read at `here`.
unfoldable pub operator :
    Reader → Option Closed → Option BinaryOp → BinaryOp → ℕ → Bool → Bytes → Bytes → Reads Closed
unfolding open_range weighed_operator
operator rec none op this least allow here rest = err need_left
operator rec (some left) op BinaryOp.range_open least allow here rest =
    open_range rec left op least allow here rest
operator rec (some left) op this least allow here rest =
    weighed_operator rec left op this least allow here rest

-- A conditional, behind its question mark.
unfoldable pub conditional : Reader → Option Closed → Bool → Bytes → Reads Closed
conditional rec none allow rest = err need_left
conditional rec (some (cond, closed)) allow rest =
    rec none none 0 allow rest >>= λ ((then_expr, a), more).
    whitespace more >>= until b':' >>= λ behind.
    rec none none 0 allow behind >>= λ ((else_expr, b), after).
    ok ((if_else cond then_expr else_expr, true), after)

unfoldable pub unary_expr :
    Reader → UnaryOp → Option Closed → Option BinaryOp → ℕ → Bool → Bytes → Reads Closed
unary_expr rec op left left_op least allow rest =
    rec none none (weight BinaryOp.mul + 1) allow rest >>= λ ((e, closed), more).
    operand rec left left_op least allow (unary op e, false) more
