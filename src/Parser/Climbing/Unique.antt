-- ===== src/Parser/Climbing/Unique.antt =====
-- parser/src/expr.rs: a chain has one tree by the weights.
use zust.Prelude.{ℕ, ◌≡◌, refl, sym, ap, ◌∙◌, arith, true, false, List, [], ◌∷◌, ltb}
use zust.Parser.Operators.{BinaryOp, weight}
use zust.Parser.Expr.{Expr}
use zust.Parser.Climbing.Trees.{Tree, leaf, node, insert, is_under, is_over, ByWeight, in_order}
use zust.Parser.Climbing.Splits.{insert-heavier, insert-is_under}

build : Tree → List (BinaryOp × Expr) → Tree
build t [] = t
build t ((op, e) ∷ rest) = build (insert t op e) rest

-- The left operands above a place at the right edge of a tree, the nearest first.
plug : List (Tree × BinaryOp) → Tree → Tree
plug [] t = t
plug ((l, o) ∷ spine) t = plug spine (node l o t)

-- Each operator of a tree weighs more.
abbrev Above : Tree → ℕ → Type 0
Above (leaf e) w = Unit
Above (node l o r) w = (ltb w (weight o) ≡ true) × Above l w × Above r w

abbrev Clear : List (Tree × BinaryOp) → Tree → Type 0
Clear [] t = Unit
Clear ((l, o) ∷ spine) t = Above t (weight o) × Clear spine t

abbrev Lighter : List (Tree × BinaryOp) → ℕ → Type 0
Lighter [] w = Unit
Lighter ((l, o) ∷ spine) w = (ltb (weight o) w ≡ true) × Lighter spine w

root_over : (t : Tree) (v w : ℕ) → is_under t v ≡ false → ltb w v ≡ true → is_over t w ≡ true
unfolding is_under is_over
root_over (leaf e) v w h k = refl
root_over (node l o r) v w h k = ground arith

over_both : (t : Tree) (v w : ℕ) → is_over t v ≡ true → ltb w v ≡ true → is_over t w ≡ true
unfolding is_over
over_both (leaf e) v w h k = refl
over_both (node l o r) v w h k = ground arith

ByWeight-Above : (t : Tree) (w : ℕ) → ByWeight t → is_over t w ≡ true → Above t w
unfolding is_over
ByWeight-Above (leaf e) w h k = tt
ByWeight-Above (node l o r) w (u, v, x, y) k = (
  k,
  ByWeight-Above l w x (root_over l (weight o) w u k),
  ByWeight-Above r w y (over_both r (weight o) w v k),
)

spine_parts :
    (spine : List (Tree × BinaryOp)) (l : Tree) (o : BinaryOp) (r : Tree)
    → Clear spine (node l o r)
    → Lighter spine (weight o) × Clear spine l × Clear spine r
spine_parts [] l o r h = (tt, tt, tt)
spine_parts ((a, p) ∷ spine) l o r ((x, y, z), k) =
    let (u, v, w) = spine_parts spine l o r k in ((x, u), (y, v), (z, w))

insert-plug :
    (spine : List (Tree × BinaryOp)) (t : Tree) (op : BinaryOp) (e : Expr)
    → Lighter spine (weight op)
    → insert (plug spine t) op e ≡ plug spine (insert t op e)
unfolding plug
insert-plug [] t op e h = refl
insert-plug ((l, o) ∷ spine) t op e h =
    insert-plug spine (node l o t) op e h.1 ∙ ap (plug spine) (insert-heavier l t o op e h.0)

build-in_order :
    (spine : List (Tree × BinaryOp)) (t : Tree) (rest : List (BinaryOp × Expr))
    → ByWeight t
    → Clear spine t
    → build (plug spine (leaf (in_order t rest).0)) (in_order t rest).1 ≡ build (plug spine t) rest
unfolding build plug in_order
build-in_order spine (leaf e) rest h k = refl
build-in_order spine (node l o r) rest (u, v, x, y) k =
    let (w, a, b) = spine_parts spine l o r k in
    let (e, behind) = in_order r rest in
    build-in_order spine l ((o, e) ∷ behind) x a
    ∙ ap (λ t. build t behind)
        (insert-plug spine l o e w ∙ ap (plug spine) (insert-is_under l o e u))
    ∙ build-in_order ((l, o) ∷ spine) r rest y (ByWeight-Above r (weight o) y v, b)

pub ByWeight-unique : (t u : Tree) → ByWeight t → ByWeight u → in_order t [] ≡ in_order u [] → t ≡ u
unfolding build plug
ByWeight-unique t u h k same =
    sym (build-in_order [] t [] h tt)
    ∙ ap (λ p. build (leaf p.0) p.1) same
    ∙ build-in_order [] u [] k tt
