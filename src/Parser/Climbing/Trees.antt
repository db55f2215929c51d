-- ===== src/Parser/Climbing/Trees.antt =====
-- parser/src/expr.rs: chains of operands and operators, and the trees that the weights make of them.
use zust.Prelude.{
  ℕ, ◌+◌, ◌≡◌, refl, ap, ◌∙◌, arith, Bool, true, false, List, [], ◌∷◌, ◌++◌, Bool-cases, inl, inr,
  ltb, if◌then◌else◌,
}
use zust.Dynamic.Value.{Bytes}
use zust.Parser.Operators.{BinaryOp, symbol, weight}
use zust.Parser.Expr.{Expr, binary}

pub data Tree : Type 0 where
  leaf : Expr → Tree
  node : Tree → BinaryOp → Tree → Tree

unfoldable pub erase : Tree → Expr
erase (leaf e) = e
erase (node l op r) = binary (erase l) op (erase r)

-- An operator and its right operand go to the right edge of a tree, below each operator that weighs
-- less.
unfoldable pub insert : Tree → BinaryOp → Expr → Tree
insert (leaf a) op e = node (leaf a) op (leaf e)
insert (node l o r) op e =
    let below = insert r op e in
    if ltb (weight o) (weight op) then node l o below else node (node l o r) op (leaf e)

-- What is written: an operand that one reader takes, with its text and its expression, or a chain in
-- brackets; and a chain of operators behind an operand.
mutual
  pub data Operand : Type 0 where
    atom : Bytes → Expr → Operand
    bracketed : Operand → Chain → Operand

  pub data Chain : Type 0 where
    done : Chain
    more : BinaryOp → Operand → Chain → Chain

-- The tree of a chain, up to the first operator that weighs less than `least`, and what is left.
unfoldable mutual
  pub meaning : Operand → Expr
  meaning (atom text e) = e
  meaning (bracketed o chain) = erase (climb 0 (leaf (meaning o)) chain).0

  pub climb : ℕ → Tree → Chain → Tree × Chain
  climb least t done = (t, done)
  climb least t (more op o chain) =
      let further = climb least (insert t op (meaning o)) chain in
      if ltb (weight op) least then (t, more op o chain) else further

unfoldable mutual
  pub print_operand : Operand → Bytes → Bytes
  print_operand (atom text e) rest = text ++ rest
  print_operand (bracketed o chain) rest = b'(' ∷ print_operand o (print_chain chain (b')' ∷ rest))

  pub print_chain : Chain → Bytes → Bytes
  print_chain done rest = rest
  print_chain (more op o chain) rest =
      b' ' ∷ (symbol op ++ b' ' ∷ print_operand o (print_chain chain rest))

-- The same without the space in front.
unfoldable pub print_here : Chain → Bytes → Bytes
print_here done rest = rest
print_here (more op o chain) rest = symbol op ++ b' ' ∷ print_operand o (print_chain chain rest)

-- The depth of the parser that they take.
unfoldable mutual
  pub depth : Operand → ℕ
  depth (atom text e) = 0
  depth (bracketed o chain) = 2 + depth o + depths chain

  pub depths : Chain → ℕ
  depths done = 0
  depths (more op o chain) = 2 + depth o + depths chain

-- The specification: on the left of an operator none weighs less, on its right each weighs more.
unfoldable pub is_under : Tree → ℕ → Bool
is_under (leaf e) w = false
is_under (node l o r) w = ltb (weight o) w

unfoldable pub is_over : Tree → ℕ → Bool
is_over (leaf e) w = true
is_over (node l o r) w = ltb w (weight o)

abbrev pub ByWeight : Tree → Type 0
ByWeight (leaf e) = Unit
ByWeight (node l o r) =
    (is_under l (weight o) ≡ false) × (is_over r (weight o) ≡ true) × ByWeight l × ByWeight r

-- The operands of a tree from left to right, with the operators between them.
unfoldable pub in_order : Tree → List (BinaryOp × Expr) → Expr × List (BinaryOp × Expr)
in_order (leaf e) rest = (e, rest)
in_order (node l o r) rest = let (e, behind) = in_order r rest in in_order l ((o, e) ∷ behind)

unfoldable pub operands : Chain → List (BinaryOp × Expr)
operands done = []
operands (more op o chain) = (op, meaning o) ∷ operands chain

insert-is_over :
    (t : Tree) (op : BinaryOp) (e : Expr) (w : ℕ)
    → is_over t w ≡ true
    → ltb w (weight op) ≡ true
    → is_over (insert t op e) w ≡ true
unfolding insert is_over
insert-is_over (leaf a) op e w h k = k
insert-is_over (node l o r) op e w h k = elim (Bool-cases (ltb (weight o) (weight op))) [
  | inl y ↦ rw y h
  | inr n ↦ rw n k
]

pub insert-ByWeight : (t : Tree) (op : BinaryOp) (e : Expr) → ByWeight t → ByWeight (insert t op e)
unfolding insert is_under is_over
insert-ByWeight (leaf a) op e h = (refl, refl, tt, tt)
insert-ByWeight (node l o r) op e h = elim (Bool-cases (ltb (weight o) (weight op))) [
  | inl y ↦ rw y (h.0, insert-is_over r op e (weight o) h.1 y, h.2, insert-ByWeight r op e h.3)
  | inr n ↦ rw n (n, refl, h, tt)
]

insert-in_order :
    (t : Tree) (op : BinaryOp) (e : Expr) (rest : List (BinaryOp × Expr))
    → in_order (insert t op e) rest ≡ in_order t ((op, e) ∷ rest)
unfolding insert in_order
insert-in_order (leaf a) op e rest = refl
insert-in_order (node l o r) op e rest = elim (Bool-cases (ltb (weight o) (weight op))) [
  | inl y ↦ rw y (ap (λ p. in_order l ((o, p.0) ∷ p.1)) (insert-in_order r op e rest))
  | inr n ↦ rw n refl
]

pub climb-more :
    (least : ℕ) (t : Tree) (op : BinaryOp) (o : Operand) (chain : Chain)
    → ltb (weight op) least ≡ false
    → climb least t (more op o chain) ≡ climb least (insert t op (meaning o)) chain
unfolding climb
climb-more least t op o chain h = rw h refl

pub climb-less :
    (least : ℕ) (t : Tree) (op : BinaryOp) (o : Operand) (chain : Chain)
    → ltb (weight op) least ≡ true
    → climb least t (more op o chain) ≡ (t, more op o chain)
unfolding climb
climb-less least t op o chain h = rw h refl

pub not_below_0 : (n : ℕ) → ltb n 0 ≡ false
not_below_0 n = ground arith

-- Without a least weight the whole chain is taken.
pub climb-all :
    (t : Tree) (chain : Chain)
    → ByWeight t
    → ((climb 0 t chain).1 ≡ done)
      × ByWeight (climb 0 t chain).0
      × (in_order (climb 0 t chain).0 [] ≡ in_order t (operands chain))
unfolding operands
climb-all t done h = unfold climb in (refl, h, refl)
climb-all t (more op o chain) h =
    let (a, b, c) =
      climb-all (insert t op (meaning o)) chain (insert-ByWeight t op (meaning o) h) in
    rw (climb-more 0 t op o chain (not_below_0 (weight op)))
      (a, b, c ∙ insert-in_order t op (meaning o) (operands chain))
