-- ===== src/Parser/Climbing/Splits.antt =====
-- parser/src/expr.rs: how the tree of a chain is made when a left operand is split.
use zust.Prelude.{ℕ, ◌≤◌, ◌≡◌, refl, arith, true, false, Bool-cases, inl, inr, ltb}
use zust.Parser.Operators.{BinaryOp, weight}
use zust.Parser.Expr.{Expr}
use zust.Parser.Climbing.Trees.{
  Tree, leaf, node, insert, Chain, done, more, meaning, climb, climb-more, climb-less, depths,
  is_under,
}

pub insert-heavier :
    (l r : Tree) (o op : BinaryOp) (e : Expr)
    → ltb (weight o) (weight op) ≡ true
    → insert (node l o r) op e ≡ node l o (insert r op e)
unfolding insert
insert-heavier l r o op e h = rw h refl

pub insert-is_under :
    (t : Tree) (op : BinaryOp) (e : Expr)
    → is_under t (weight op) ≡ false
    → insert t op e ≡ node t op (leaf e)
unfolding insert is_under
insert-is_under (leaf a) op e h = refl
insert-is_under (node l o r) op e h = rw h refl

between : (a b c : ℕ) → ltb a b ≡ true → ltb c b ≡ false → ltb a c ≡ true
between a b c h k = ground arith

least_below : (a w least : ℕ) → ltb a w ≡ false → ltb w least ≡ false → ltb a least ≡ false
least_below a w least h k = ground arith

-- The right operand takes what weighs enough, before the whole does.
pub climb-split :
    (least w : ℕ) (l : Tree) (o : BinaryOp) (x : Tree) (chain : Chain)
    → ltb (weight o) w ≡ true
    → ltb w least ≡ false
    → climb least (node l o x) chain
      ≡ climb least (node l o (climb w x chain).0) (climb w x chain).1
climb-split least w l o x done h k = unfold climb in refl
climb-split least w l o x (more op a chain) h k = elim (Bool-cases (ltb (weight op) w)) [
  | inl y ↦ rw (climb-less w x op a chain y) refl
  | inr n ↦
      rw
        (
          climb-more w x op a chain n,
          climb-more least (node l o x) op a chain (least_below (weight op) w least n k),
          insert-heavier l x o op (meaning a) (between (weight o) w (weight op) h n),
        )
        (climb-split least w l o (insert x op (meaning a)) chain h k)
]

insert-top :
    (t : Tree) (op : BinaryOp) (e : Expr) (w : ℕ)
    → is_under t w ≡ false
    → ltb (weight op) w ≡ false
    → is_under (insert t op e) w ≡ false
unfolding insert is_under
insert-top (leaf a) op e w h k = k
insert-top (node l o r) op e w h k = elim (Bool-cases (ltb (weight o) (weight op))) [
  | inl y ↦ rw y h
  | inr n ↦ rw n k
]

pub climb-is_under :
    (w : ℕ) (t : Tree) (chain : Chain)
    → is_under t w ≡ false
    → is_under (climb w t chain).0 w ≡ false
climb-is_under w t done h = unfold climb in h
climb-is_under w t (more op a chain) h = elim (Bool-cases (ltb (weight op) w)) [
  | inl y ↦ rw (climb-less w t op a chain y) h
  | inr n ↦
      rw (climb-more w t op a chain n)
        (climb-is_under w (insert t op (meaning a)) chain (insert-top t op (meaning a) w h n))
]

-- The next operator does not split the right operand of a tree.
abbrev pub Fits : Tree → Chain → Type 0
Fits t done = Unit
Fits t (more op a chain) = is_under t (weight op) ≡ false

lower : (t : Tree) (v w : ℕ) → is_under t w ≡ false → ltb v w ≡ true → is_under t v ≡ false
unfolding is_under
lower (leaf a) v w h k = refl
lower (node l o r) v w h k = ground arith

pub climb-Fits :
    (w : ℕ) (t : Tree) (chain : Chain)
    → is_under t w ≡ false
    → Fits (climb w t chain).0 (climb w t chain).1
climb-Fits w t done h = unfold climb in tt
climb-Fits w t (more op a chain) h = elim (Bool-cases (ltb (weight op) w)) [
  | inl y ↦ rw (climb-less w t op a chain y) (lower t (weight op) w h y)
  | inr n ↦
      rw (climb-more w t op a chain n)
        (climb-Fits w (insert t op (meaning a)) chain (insert-top t op (meaning a) w h n))
]

pub climb-depths : (w : ℕ) (t : Tree) (chain : Chain) → depths (climb w t chain).1 ≤ depths chain
unfolding depths
climb-depths w t done = unfold climb in omega arith
climb-depths w t (more op a chain) = elim (Bool-cases (ltb (weight op) w)) [
  | inl y ↦ rw (climb-less w t op a chain y) (omega arith)
  | inr n ↦
      rw (climb-more w t op a chain n)
        (omega (arith, climb-depths w (insert t op (meaning a)) chain))
]
