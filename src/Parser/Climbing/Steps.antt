-- ===== src/Parser/Climbing/Steps.antt =====
-- parser/src/expr.rs: the steps of `expr_with_min_weight` at an operand, at an operator and at the end.
use zust.Prelude.{
  ℕ, suc, ◌-◌, ◌≡◌, refl, ◌∙◌, arith, Bool, true, false, Option, none, some, [], ◌∷◌, ◌++◌, length,
  take, ltb, if◌then◌else◌,
}
use zust.Prelude.Outcome.{ok, err}
use zust.Dynamic.Value.{Bytes}
use zust.Parser.Reading.{contains, just, keyword, ends_here}
use zust.Parser.Space.{ParseErr}
use zust.Parser.Space.Skipped.{Still, whitespace-Still, whitespace-space}
use zust.Parser.Operators.{
  BinaryOp, symbol, weight, is_assign, binary_op, first_of, or_else, word, add, sub, mul, div,
  mod_op, shr, shl, bit_and, bit_or, bit_xor, eq, ne, lt, gt, le, ge, and, or,
}
use zust.Parser.Expr.{Expr, Closed, Reader, Operands}
use zust.Parser.Combining.{
  wants, crossed_newline, stands_alone, no_operand, after_base, chained, is_range, heavy_operator,
  weighed_operator, operator,
}
use zust.Parser.Climbing.{
  operator_or_base, question, closure_or, block_or, braces_or, at_byte, at_bytes, at_line,
  expr_with_min_weight,
}
use zust.Parser.Climbing.Signs.{
  is_chained, Stop, starts_base, Quiet, Plain, stop-Quiet, starts_base→Plain,
}

take_0 : (l : Bytes) → take 0 l ≡ []
take_0 [] = refl
take_0 (x ∷ l) = refl

crossed_nothing : (here : Bytes) → crossed_newline here here ≡ false
unfolding crossed_newline contains
crossed_nothing here = rw (none_left (length here), take_0 here) refl
  where
    none_left : (n : ℕ) → n - n ≡ 0
    none_left n = omega arith

crossed_space : (here : Bytes) → crossed_newline (b' ' ∷ here) here ≡ false
unfolding crossed_newline contains
crossed_space here = rw (one_left (length here), take_0 here) refl
  where
    one_left : (n : ℕ) → suc n - n ≡ 1
    one_left n = omega arith

stop_byte :
    (O : Operands) (rec : Reader) (d : ℕ) (left : Expr) (closed : Bool) (least : ℕ) (allow : Bool)
    (c : ℕ) (rest : Bytes)
    → Quiet c rest
    → at_bytes O rec d (some (left, closed)) none least allow (c ∷ rest)
      ≡ after_base rec (some (left, closed)) none least allow (O.base d allow (c ∷ rest))
unfolding at_bytes at_byte braces_or block_or closure_or question operator_or_base
stop_byte O rec d left closed least allow c rest q =
    rw
      (
        q.0, q.1, q.2, q.3, braces_or, q.4, block_or, closure_or, q.5, question, q.6,
        operator_or_base, q.7,
      )
      refl

base_byte :
    (O : Operands) (rec : Reader) (d : ℕ) (left : Option Closed) (op : Option BinaryOp) (least : ℕ)
    (allow : Bool) (c : ℕ) (rest : Bytes)
    → wants left op ≡ true
    → Plain c rest
    → at_bytes O rec d left op least allow (c ∷ rest)
      ≡ after_base rec left op least allow (O.base d allow (c ∷ rest))
unfolding at_bytes at_byte braces_or block_or closure_or question operator_or_base
base_byte O rec d left op least allow c rest w (q, x, y, z) =
    rw
      (
        q.0, q.1, w, x, q.2, q.3, braces_or, q.4, block_or, w, y, w, z, closure_or, q.5, question,
        q.6, operator_or_base, q.7,
      )
      refl

module _ (O : Operands) where
  -- At an operator, with a left operand and no operator before.
  pub at_operator :
      (rec : Reader) (d : ℕ) (left : Closed) (op : BinaryOp) (least : ℕ) (allow : Bool)
      (rest : Bytes)
      → is_chained op ≡ true
      → at_bytes O rec d (some left) none least allow (symbol op ++ b' ' ∷ rest) ≡ (
          if ltb (weight op) least
          then ok (left, symbol op ++ b' ' ∷ rest)
          else chained rec left none op least allow (b' ' ∷ rest))
  unfolding at_bytes at_byte braces_or block_or closure_or question operator_or_base operator
      weighed_operator heavy_operator is_range is_assign stands_alone binary_op symbol first_of
      or_else word just keyword ends_here contains is_chained
  at_operator rec d (l, c) mul least allow rest h = refl
  at_operator rec d (l, c) div least allow rest h = refl
  at_operator rec d (l, c) mod_op least allow rest h = refl
  at_operator rec d (l, c) add least allow rest h = refl
  at_operator rec d (l, c) sub least allow rest h = refl
  at_operator rec d (l, c) shl least allow rest h = refl
  at_operator rec d (l, c) shr least allow rest h = refl
  at_operator rec d (l, c) bit_and least allow rest h = refl
  at_operator rec d (l, c) bit_xor least allow rest h = refl
  at_operator rec d (l, c) bit_or least allow rest h = refl
  at_operator rec d (l, c) eq least allow rest h = refl
  at_operator rec d (l, c) ne least allow rest h = refl
  at_operator rec d (l, c) lt least allow rest h = refl
  at_operator rec d (l, c) gt least allow rest h = refl
  at_operator rec d (l, c) le least allow rest h = refl
  at_operator rec d (l, c) ge least allow rest h = refl
  at_operator rec d (l, c) and least allow rest h = refl
  at_operator rec d (l, c) or least allow rest h = refl
  at_operator rec d left _ least allow rest h = absurd (cc)

  -- Where the bytes stop, a finished operand is returned.
  pub at_finish :
      (rec : Reader) (d : ℕ) (left : Expr) (closed : Bool) (least : ℕ) (allow : Bool) (rest : Bytes)
      (e : ParseErr)
      → Stop rest
      → O.base d allow rest ≡ (err e, rest)
      → at_bytes O rec d (some (left, closed)) none least allow rest ≡ ok ((left, false), rest)
  at_finish rec d left closed least allow [] e s h = absurd s
  at_finish rec d left closed least allow (c ∷ rest) e s h =
      stop_byte O rec d left closed least allow c rest (stop-Quiet c rest s)
      ∙ rw h (unfold after_base no_operand in refl)

  -- A base expression is read where no other reader starts.
  pub at_base :
      (rec : Reader) (d : ℕ) (left : Option Closed) (op : Option BinaryOp) (least : ℕ)
      (allow : Bool) (here : Bytes)
      → starts_base here ≡ true
      → wants left op ≡ true
      → at_bytes O rec d left op least allow here
        ≡ after_base rec left op least allow (O.base d allow here)
  at_base rec d left op least allow [] s w = unfold starts_base in absurd (cc)
  at_base rec d left op least allow (c ∷ rest) s w =
      base_byte O rec d left op least allow c rest w (starts_base→Plain c rest s)

  -- A finished operand is followed at the next bytes, behind a space or none.
  pub enter_left :
      (d : ℕ) (left : Closed) (least : ℕ) (allow : Bool) (here : Bytes)
      → Still here
      → (expr_with_min_weight O (suc d) (some left) none least allow here
          ≡ at_bytes O (expr_with_min_weight O d) d (some left) none least allow here)
        × (expr_with_min_weight O (suc d) (some left) none least allow (b' ' ∷ here)
            ≡ at_bytes O (expr_with_min_weight O d) d (some left) none least allow here)
  unfolding expr_with_min_weight at_line
  enter_left d (left, c) least allow here s = (
    rw (whitespace-Still here s, crossed_nothing here) refl,
    rw (whitespace-space here s, crossed_space here) refl,
  )

  line_wants :
      (rec : Reader) (d : ℕ) (left : Option Closed) (op : Option BinaryOp) (least : ℕ)
      (allow : Bool) (input here : Bytes)
      → wants left op ≡ true
      → at_line O rec d left op least allow input here ≡ at_bytes O rec d left op least allow here
  unfolding at_line
  line_wants rec d none op least allow input here w = refl
  line_wants rec d (some (l, c)) none least allow input here w = absurd (cc)
  line_wants rec d (some (l, c)) (some op) least allow input here w = refl

  pub enter_operand :
      (d : ℕ) (left : Option Closed) (op : Option BinaryOp) (least : ℕ) (allow : Bool)
      (here : Bytes)
      → Still here
      → wants left op ≡ true
      → (expr_with_min_weight O (suc d) left op least allow here
          ≡ at_bytes O (expr_with_min_weight O d) d left op least allow here)
        × (expr_with_min_weight O (suc d) left op least allow (b' ' ∷ here)
            ≡ at_bytes O (expr_with_min_weight O d) d left op least allow here)
  unfolding expr_with_min_weight
  enter_operand d left op least allow here s w = (
    rw (whitespace-Still here s)
        (line_wants (expr_with_min_weight O d) d left op least allow here here w),
    rw (whitespace-space here s)
        (line_wants (expr_with_min_weight O d) d left op least allow (b' ' ∷ here) here w),
  )
