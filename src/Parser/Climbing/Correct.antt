-- ===== src/Parser/Climbing/Correct.antt =====
-- parser/src/expr.rs: chains of operands are read as the trees that the weights make of them.
use zust.Prelude.{
  ℕ, suc, ◌+◌, ◌≤◌, ◌≡◌, refl, ◌∙◌, Bool, true, false, Option, none, some, [], ◌∷◌, ◌++◌, ◌⊎◌, inl,
  inr, ltb, ◌==◌,
}
use zust.Prelude.Outcome.{ok, err}
use zust.Dynamic.Value.{Bytes}
use zust.Parser.Reading.{contains}
use zust.Parser.Space.{ParseErr, comment}
use zust.Parser.Space.Skipped.{Still, whitespace-Still}
use zust.Parser.Operators.{
  BinaryOp, symbol, weight, add, sub, mul, div, mod_op, shr, shl, bit_and, bit_or, bit_xor, eq, ne,
  lt, gt, le, ge, and, or,
}
use zust.Parser.Expr.{Expr, binary, Reads, Closed, Reader, Operands, is_lighter, combine}
use zust.Parser.Combining.{wants, operand, after_base, get_byte, take_byte, until}
use zust.Parser.Climbing.{group, group_end, at_bytes, at_byte, expr_with_min_weight}
use zust.Parser.Climbing.Trees.{
  Tree, leaf, erase, Operand, atom, bracketed, Chain, done, more, meaning, climb, climb-all,
  print_operand, print_chain, print_here, depth, depths,
}
use zust.Parser.Climbing.Signs.{
  is_chained, Stop, starts_base, symbol-Still, starts_base-Still, Stop-Still,
}
use zust.Parser.Climbing.Steps.{at_base, enter_left}

pub combine-binary :
    (op : BinaryOp) (l r : Expr) → is_chained op ≡ true → combine op l r ≡ binary l op r
unfolding combine is_chained
combine-binary mul l r h = refl
combine-binary div l r h = refl
combine-binary mod_op l r h = refl
combine-binary add l r h = refl
combine-binary sub l r h = refl
combine-binary shl l r h = refl
combine-binary shr l r h = refl
combine-binary bit_and l r h = refl
combine-binary bit_xor l r h = refl
combine-binary bit_or l r h = refl
combine-binary eq l r h = refl
combine-binary ne l r h = refl
combine-binary lt l r h = refl
combine-binary gt l r h = refl
combine-binary le l r h = refl
combine-binary ge l r h = refl
combine-binary and l r h = refl
combine-binary or l r h = refl
combine-binary _ l r h = absurd (cc)

pub chained-weight : (op : BinaryOp) → is_chained op ≡ true → ltb 20 (weight op) ≡ false
unfolding weight is_chained
chained-weight mul h = refl
chained-weight div h = refl
chained-weight mod_op h = refl
chained-weight add h = refl
chained-weight sub h = refl
chained-weight shl h = refl
chained-weight shr h = refl
chained-weight bit_and h = refl
chained-weight bit_xor h = refl
chained-weight bit_or h = refl
chained-weight eq h = refl
chained-weight ne h = refl
chained-weight lt h = refl
chained-weight gt h = refl
chained-weight le h = refl
chained-weight ge h = refl
chained-weight and h = refl
chained-weight or h = refl
chained-weight _ h = absurd (cc)

-- What may stand behind an operand: a byte that stops, or an operator between spaces.
abbrev pub Behind : Bytes → Type 0
Behind rest =
    Stop rest
    ⊎ ((op : BinaryOp) × (more : Bytes) × (is_chained op ≡ true)
        × (rest ≡ b' ' ∷ (symbol op ++ b' ' ∷ more)))

abbrev pub NotClosing : Bytes → Type 0
NotClosing [] = ⊥
NotClosing (c ∷ rest) = (c == b')') ≡ false

starts : (here : Bytes) → starts_base here ≡ true → Still here × NotClosing here
starts [] h = absurd (unfold starts_base in cc)
starts (c ∷ rest) h = let (a, b) = starts_base-Still c rest h in (a, b)

abbrev pub is_group : Operand → Bool
is_group (atom text e) = false
is_group (bracketed o chain) = true

module _ (O : Operands) where
  -- The readers of operands stop behind them.
  abbrev pub AreReaders : Type 0
  AreReaders =
      ((d : ℕ) (e : Expr) (rest : Bytes) → Behind rest → O.postfix d e rest ≡ ok (e, rest))
      × ((d : ℕ) (allow : Bool) (rest : Bytes)
          → Stop rest
          → (e : ParseErr) × (O.base d allow rest ≡ (err e, rest)))

  -- A text before `rest` is read as a base expression, and is not split by an operator behind it.
  abbrev pub IsText : Bytes → Expr → Bytes → Type 0
  IsText text e rest =
      (starts_base (text ++ rest) ≡ true)
      × ((d : ℕ) (allow : Bool) → O.base d allow (text ++ rest) ≡ (ok e, rest))
      × ((w : ℕ) → ltb 20 w ≡ false → is_lighter e w ≡ false)

  -- Each text of an operand, and of a chain, is read so before what is written behind it.
  abbrev mutual
    pub IsOperand : Operand → Bytes → Type 0
    IsOperand (atom text e) rest = IsText text e rest
    IsOperand (bracketed o chain) rest =
        IsOperand o (print_chain chain (b')' ∷ rest)) × IsChain chain (b')' ∷ rest)

    pub IsChain : Chain → Bytes → Type 0
    IsChain done rest = Unit
    IsChain (more op o chain) rest =
        (is_chained op ≡ true) × IsOperand o (print_chain chain rest) × IsChain chain rest

  pub chain-Behind :
      (chain : Chain) (tail : Bytes)
      → IsChain chain tail
      → Stop tail
      → Behind (print_chain chain tail)
  unfolding print_chain
  chain-Behind done tail h s = inl s
  chain-Behind (more op o chain) tail h s =
      inr (op, print_operand o (print_chain chain tail), h.0, refl)

  pub operand-Still :
      (o : Operand) (tail : Bytes)
      → IsOperand o tail
      → Behind tail
      → Still (print_operand o tail) × NotClosing (print_operand o tail)
  unfolding print_operand comment contains
  operand-Still (atom text e) tail h b = starts (text ++ tail) h.0
  operand-Still (bracketed o chain) tail h b = ((refl, refl), refl)

  pub here-Still :
      (chain : Chain) (tail : Bytes)
      → IsChain chain tail
      → Stop tail
      → Still (print_here chain tail)
  unfolding print_here
  here-Still done tail h s = Stop-Still tail s
  here-Still (more op o chain) tail h s =
      symbol-Still op (print_operand o (print_chain chain tail)) h.0

  abbrev pub reader : ℕ → Reader
  reader d = expr_with_min_weight O d

  -- Behind a finished operand the reader is at the next operator, or at the end.
  pub enter_chain :
      (d : ℕ) (left : Closed) (least : ℕ) (allow : Bool) (chain : Chain) (tail : Bytes)
      → IsChain chain tail
      → Stop tail
      → reader (suc d) (some left) none least allow (print_chain chain tail)
        ≡ at_bytes O (reader d) d (some left) none least allow (print_here chain tail)
  unfolding print_chain print_here
  enter_chain d left least allow done tail h s =
      (enter_left O d left least allow tail (Stop-Still tail s)).0
  enter_chain d left least allow (more op o chain) tail h s =
      (enter_left O d left least allow (print_here (more op o chain) tail)
        (here-Still (more op o chain) tail h s)).1

  until_bracket : (tail : Bytes) → until b')' (b')' ∷ tail) ≡ ok tail
  unfolding until take_byte
  until_bracket tail =
      rw (whitespace-Still (b')' ∷ tail) (Stop-Still (b')' ∷ tail) (unfold contains in refl))) refl

  -- An expression in brackets.
  group_lem :
      (d : ℕ) (left : Option Closed) (op : Option BinaryOp) (least : ℕ) (allow : Bool)
      (here tail : Bytes) (e : Expr) (b : Bool)
      → Still here
      → NotClosing here
      → reader d none none 0 true here ≡ ok ((e, b), b')' ∷ tail)
      → O.postfix d e tail ≡ ok (e, tail)
      → group O (reader d) d left op least allow here
        ≡ operand (reader d) left op least allow (e, true) tail
  unfolding group group_end get_byte
  group_lem d left op least allow [] tail e b s n h p = absurd n
  group_lem d left op least allow (c ∷ rest) tail e b s n h p =
      rw
        (
          whitespace-Still (c ∷ rest) s,
          n,
          h,
          whitespace-Still (b')' ∷ tail) (Stop-Still (b')' ∷ tail) (unfold contains in refl)),
          until_bracket tail,
          p,
        )
        refl

  at_bracket :
      (d : ℕ) (left : Option Closed) (op : Option BinaryOp) (least : ℕ) (allow : Bool)
      (rest : Bytes)
      → at_bytes O (reader d) d left op least allow (b'(' ∷ rest)
        ≡ group O (reader d) d left op least allow rest
  unfolding at_bytes at_byte
  at_bracket d left op least allow rest = refl

  abbrev pub Gives : Tree → Chain → Bytes → Reads Closed → Type 0
  Gives t chain tail r = (b : Bool) × (r ≡ ok ((erase t, b), print_here chain tail))

  -- What the induction on the depth shows of a whole chain.
  abbrev pub Wholes : ℕ → Type 0
  Wholes d =
      (o : Operand) (chain : Chain) (tail : Bytes) (least : ℕ) (allow : Bool)
      → IsOperand o (print_chain chain tail)
      → IsChain chain tail
      → Stop tail
      → 2 + depth o + depths chain ≤ d
      → Gives (climb least (leaf (meaning o)) chain).0 (climb least (leaf (meaning o)) chain).1 tail
          (reader d none none least allow (print_operand o (print_chain chain tail)))

  pub operand_lem :
      (d : ℕ) (left : Option Closed) (op : Option BinaryOp) (least : ℕ) (allow : Bool) (o : Operand)
      (tail : Bytes)
      → AreReaders
      → Wholes d
      → wants left op ≡ true
      → IsOperand o tail
      → Behind tail
      → depth o ≤ d
      → at_bytes O (reader d) d left op least allow (print_operand o tail)
        ≡ operand (reader d) left op least allow (meaning o, is_group o) tail
  unfolding print_operand meaning depth
  operand_lem d left op least allow (atom text e) tail r w q h b n =
      at_base O (reader d) d left op least allow (text ++ tail) h.0 q
      ∙ rw (h.1 d allow) (unfold after_base in refl)
  operand_lem d left op least allow (bracketed o chain) tail r w q h b n =
      let inner = w o chain (b')' ∷ tail) 0 true h.0 h.1 (unfold contains in refl) n in
      let (all, x, y) = climb-all (leaf (meaning o)) chain tt in
      let s =
        operand-Still o (print_chain chain (b')' ∷ tail)) h.0
          (chain-Behind chain (b')' ∷ tail) h.1 (unfold contains in refl)) in
      at_bracket d left op least allow (print_operand o (print_chain chain (b')' ∷ tail)))
      ∙ group_lem d left op least allow (print_operand o (print_chain chain (b')' ∷ tail))) tail
          (meaning (bracketed o chain)) inner.0 s.0 s.1
          (inner.1 ∙ rw all (unfold print_here in refl))
          (r.0 d (meaning (bracketed o chain)) tail b)
