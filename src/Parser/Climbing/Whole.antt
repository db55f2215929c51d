-- ===== src/Parser/Climbing/Whole.antt =====
-- parser/src/expr.rs: `expr_with_min_weight` reads a chain of operands as the tree of its weights.
use zust.Prelude.{ℕ, zero, suc, ◌+◌, ◌≤◌, ◌≡◌, refl, sym, ◌∙◌, arith, Bool, true, none, some, []}
use zust.Prelude.Outcome.{ok}
use zust.Dynamic.Value.{Bytes}
use zust.Parser.Expr.{Operands}
use zust.Parser.Combining.{operand}
use zust.Parser.Climbing.{get_expr, max_parse_depth}
use zust.Parser.Climbing.Trees.{
  Tree, leaf, erase, Operand, Chain, done, more, meaning, climb, climb-all, print_operand,
  print_chain, print_here, depth, depths, ByWeight, in_order, operands,
}
use zust.Parser.Climbing.Unique.{ByWeight-unique}
use zust.Parser.Climbing.Signs.{Stop, Stop-Still}
use zust.Parser.Climbing.Steps.{enter_left, enter_operand}
use zust.Parser.Climbing.Correct.{
  is_group, AreReaders, IsOperand, IsChain, chain-Behind, operand-Still, here-Still, reader,
  enter_chain, Gives, Wholes, operand_lem,
}
use zust.Parser.Climbing.Loop.{operand-Ready, because, Loops, at_next, at_last}

module _ (O : Operands) where
  last_loop :
      (d : ℕ) (t : Tree) (closed : Bool) (tail : Bytes) (least : ℕ) (allow : Bool)
      → AreReaders O
      → Stop tail
      → Gives O
          (climb least t done).0
          (climb least t done).1
          tail
          (reader O (suc d) (some (erase t, closed)) none least allow (print_chain done tail))
        × Gives O
            (climb least t done).0
            (climb least t done).1
            tail
            (reader O (suc d) (some (erase t, closed)) none least allow (print_here done tail))
  unfolding climb print_chain print_here
  last_loop d t closed tail least allow r s =
      let end = at_last O d t closed tail least allow r s in
      let enter = enter_left O d (erase t, closed) least allow tail (Stop-Still tail s) in
      ((end.0, enter.0 ∙ end.1), (end.0, enter.0 ∙ end.1))

  first_rounds : AreReaders O → Loops O 1
  unfolding depths
  first_rounds r t closed done tail least allow f k s q = last_loop 0 t closed tail least allow r s
  first_rounds r t closed (more op o chain) tail least allow f k s q = absurd (omega arith)

  next_rounds :
      (d : ℕ) → AreReaders O → Wholes O d → Loops O d → Loops O (suc d) → Loops O (suc (suc d))
  unfolding depths
  next_rounds d r w loops outer t closed done tail least allow f k s q =
      last_loop (suc d) t closed tail least allow r s
  next_rounds d r w loops outer t closed (more op o chain) tail least allow f k s q =
      let end =
        at_next O d t closed op o chain tail least allow r w loops outer f k s (omega arith) in
      let enter =
        enter_left O (suc d) (erase t, closed) least allow (print_here (more op o chain) tail)
          (here-Still O (more op o chain) tail k s) in
      (
        (
          end.0,
          enter_chain O (suc d) (erase t, closed) least allow (more op o chain) tail k s ∙ end.1,
        ),
        (end.0, enter.0 ∙ end.1),
      )

  next_expressions : (d : ℕ) → AreReaders O → Wholes O d → Loops O d → Wholes O (suc d)
  unfolding operand erase
  next_expressions d r w loops o chain tail least allow h k s q =
      let b = chain-Behind O chain tail k s in
      let rest =
        (loops (leaf (meaning o)) (is_group o) chain tail least allow
          (operand-Ready O o chain (print_chain chain tail) h) k s (omega arith)).0 in
      because O (climb least (leaf (meaning o)) chain).0 (climb least (leaf (meaning o)) chain).1
        tail _ _
        ((enter_operand O d none none least allow (print_operand o (print_chain chain tail))
            (operand-Still O o (print_chain chain tail) h b).0 refl).0
          ∙ operand_lem O d none none least allow o (print_chain chain tail) r w refl h b
              (omega arith))
        rest

  no_rounds : Loops O 0
  no_rounds t closed chain tail least allow f k s q = absurd (omega arith)

  no_expressions : Wholes O 0
  no_expressions o chain tail least allow h k s q = absurd (omega arith)

  pub every_depth : (d : ℕ) → AreReaders O → Loops O d × Loops O (suc d) × Wholes O d
  every_depth zero r = (no_rounds, first_rounds r, no_expressions)
  every_depth (suc d) r =
      let (loops, outer, w) = every_depth d r in
      (outer, next_rounds d r w loops outer, next_expressions d r w loops)

  -- `get_expr` reads a written chain of operands and spaced operators that group from the left, with
  -- chains in brackets as operands, up to one of ")", "]", "}", "," and ";", if two, with two for each
  -- operator and two for each pair of brackets in it, is at most 128. It is
  -- asked of the readers of operands that behind an operand there is no postfix form; that a base
  -- expression fails, without a move, where the chain ends; that each operand which is no bracket starts
  -- like a base expression and is read as its expression, before what is written behind it; and that none of
  -- these is split by an operator. The tree that is returned has the operands and operators in the order
  -- in which they are written, no operator that weighs less on the left of another, only heavier ones on
  -- its right, and it is the only such tree. Weights are those of the code, in which `&&` and `||` are equal.
  pub get_expr-print_operand :
      (o : Operand) (chain : Chain) (tail : Bytes)
      → AreReaders O
      → IsOperand O o (print_chain chain tail)
      → IsChain O chain tail
      → Stop tail
      → 2 + depth o + depths chain ≤ max_parse_depth
      → (t : Tree) × (get_expr O (print_operand o (print_chain chain tail)) ≡ ok (erase t, tail))
        × ByWeight t
        × (in_order t [] ≡ (meaning o, operands chain))
        × ((u : Tree) → ByWeight u → in_order u [] ≡ (meaning o, operands chain) → u ≡ t)
  unfolding get_expr print_here in_order
  get_expr-print_operand o chain tail r h k s q =
      let (b, read) = (every_depth max_parse_depth r).2 o chain tail 0 true h k s q in
      let (all, ordered, kept) = climb-all (leaf (meaning o)) chain tt in
      let t : Tree = (climb 0 (leaf (meaning o)) chain).0 in
      (
        t,
        rw (read, all) refl,
        ordered,
        kept,
        λ u w same. ByWeight-unique u t w ordered (same ∙ sym kept),
      )
