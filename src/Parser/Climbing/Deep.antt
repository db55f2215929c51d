-- ===== src/Parser/Climbing/Deep.antt =====
-- parser/src/expr.rs: the limit on the depth counts the operators of a chain.
use zust.Prelude.{
  ℕ, zero, suc, ◌*◌, ◌≤◌, ◌≡◌, refl, ◌∙◌, arith, Bool, true, false, none, some, List, [], ◌∷◌,
  length, ltb,
}
use zust.Prelude.Outcome.{err}
use zust.Dynamic.Value.{Bytes}
use zust.Parser.Space.{too_deep}
use zust.Parser.Operators.{BinaryOp, weight}
use zust.Parser.Expr.{Expr, binary, Operands, is_lighter, binary_of}
use zust.Parser.Combining.{operand, split_of}
use zust.Parser.Climbing.{expr_with_min_weight, get_expr}
use zust.Parser.Climbing.Trees.{
  Operand, atom, Chain, done, more, meaning, print_operand, print_chain, print_here, depth,
  not_below_0,
}
use zust.Parser.Climbing.Signs.{is_chained, Stop}
use zust.Parser.Climbing.Steps.{at_operator, enter_operand}
use zust.Parser.Climbing.Correct.{
  AreReaders, IsOperand, IsChain, chained-weight, chain-Behind, operand-Still, reader, enter_chain,
  operand_lem,
}
use zust.Parser.Climbing.Loop.{chained_whole, next_operand}
use zust.Parser.Climbing.Whole.{every_depth}

-- Operands behind one operator.
unfoldable pub flat : BinaryOp → List (Bytes × Expr) → Chain
flat op [] = done
flat op ((text, e) ∷ rest) = more op (atom text e) (flat op rest)

not_below : (n : ℕ) → ltb n n ≡ false
not_below n = ground arith

module _ (O : Operands) where
  behind_operator :
      (d : ℕ) (left : Expr) (closed : Bool) (op : BinaryOp) (o : Operand) (chain : Chain)
      (tail : Bytes) (allow : Bool)
      → split_of left closed (weight op) ≡ none
      → IsChain O (more op o chain) tail
      → Stop tail
      → reader O (suc d) (some (left, closed)) none 0 allow (print_chain (more op o chain) tail)
        ≡ reader O d
            (some (left, false))
            (some op)
            0
            allow
            (b' ' ∷ print_operand o (print_chain chain tail))
  unfolding print_here
  behind_operator d left closed op o chain tail allow p h s =
      enter_chain O d (left, closed) 0 allow (more op o chain) tail h s
      ∙ at_operator O (reader O d) d (left, closed) op 0 allow
          (print_operand o (print_chain chain tail)) h.0
      ∙ rw (not_below_0 (weight op)) (
          chained_whole (reader O d) left closed op 0 allow
            (b' ' ∷ print_operand o (print_chain chain tail)) p)

  flat_loop :
      (d : ℕ) (left : Expr) (closed : Bool) (op : BinaryOp) (l : List (Bytes × Expr)) (tail : Bytes)
      (allow : Bool)
      → AreReaders O
      → split_of left closed (weight op) ≡ none
      → IsChain O (flat op l) tail
      → Stop tail
      → d ≤ 2 * length l
      → reader O d (some (left, closed)) none 0 allow (print_chain (flat op l) tail) ≡ err too_deep
  unfolding expr_with_min_weight flat split_of is_lighter binary_of meaning depth
  flat_loop zero left closed op l tail allow r p h s q = refl
  flat_loop (suc d) left closed op [] tail allow r p h s q = absurd (omega arith)
  flat_loop (suc zero) left closed op ((text, e) ∷ l) tail allow r p h s q =
      behind_operator 0 left closed op (atom text e) (flat op l) tail allow p h s
  flat_loop (suc (suc d)) left closed op ((text, e) ∷ l) tail allow r p h s q =
      behind_operator (suc d) left closed op (atom text e) (flat op l) tail allow p h s
      ∙ next_operand O d left op (atom text e) (flat op l) tail 0 allow r (every_depth O d r).2 h.0
          h.1 h.2 s (omega arith)
      ∙ flat_loop d (binary left op e) false op l tail allow r (rw (not_below (weight op)) refl) h.2
          s (omega arith)

  -- `get_expr` refuses a chain of 64 or more times the same operator as too deep, though nothing is nested
  -- in it: an operator that groups from the left, spaced, between operands that are no brackets, before one
  -- of ")", "]", "}", "," and ";". The readers of operands take no postfix form behind an operand, fail at the
  -- end of the chain without a move, and read each operand as its expression, which no operator splits.
  pub get_expr-flat :
      (text : Bytes) (e : Expr) (op : BinaryOp) (l : List (Bytes × Expr)) (tail : Bytes)
      → AreReaders O
      → IsOperand O (atom text e) (print_chain (flat op l) tail)
      → is_chained op ≡ true
      → IsChain O (flat op l) tail
      → Stop tail
      → 64 ≤ length l
      → get_expr O (print_operand (atom text e) (print_chain (flat op l) tail)) ≡ err too_deep
  unfolding get_expr split_of operand meaning depth
  get_expr-flat text e op l tail r h c k s n =
      let b = chain-Behind O (flat op l) tail k s in
      rw
        (
          (enter_operand O 127 none none 0 true
              (print_operand (atom text e) (print_chain (flat op l) tail))
              (operand-Still O (atom text e) (print_chain (flat op l) tail) h b).0 refl).0,
          operand_lem O 127 none none 0 true (atom text e) (print_chain (flat op l) tail) r
              (every_depth O 127 r).2 refl h b (omega arith),
          flat_loop 127 e false op l tail true r (rw (h.2 (weight op) (chained-weight op c)) refl) k
              s (omega arith),
        )
        refl
