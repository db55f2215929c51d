-- ===== src/Parser/Climbing/Loop.antt =====
-- parser/src/expr.rs: `expr_with_min_weight` takes the operators of a chain one by one.
use zust.Prelude.{
  ℕ, suc, ◌+◌, ◌≤◌, ◌≡◌, refl, ◌∙◌, arith, Bool, true, false, none, some, ◌∷◌, Bool-cases, inl, inr,
  ltb,
}
use zust.Prelude.Outcome.{◌>>=◌}
use zust.Dynamic.Value.{Bytes}
use zust.Parser.Operators.{BinaryOp, weight}
use zust.Parser.Expr.{Expr, binary, Reads, Closed, Reader, Operands, is_lighter, binary_of}
use zust.Parser.Combining.{operand, split_of, chained}
use zust.Parser.Climbing.{at_bytes}
use zust.Parser.Climbing.Trees.{
  Tree, leaf, node, erase, insert, Operand, atom, bracketed, Chain, done, more, meaning, climb,
  climb-more, climb-less, print_operand, print_chain, print_here, depth, depths, is_under,
}
use zust.Parser.Climbing.Splits.{
  insert-heavier, insert-is_under, climb-split, Fits, climb-Fits, climb-depths,
}
use zust.Parser.Climbing.Signs.{is_chained, Stop}
use zust.Parser.Climbing.Steps.{at_operator, at_finish, enter_operand}
use zust.Parser.Climbing.Correct.{
  combine-binary, chained-weight, is_group, AreReaders, IsOperand, IsChain, chain-Behind,
  operand-Still, reader, Gives, Wholes, operand_lem,
}

-- A tree whose left operand the first operator of the chain may split, or none.
abbrev pub Ready : Tree → Bool → Chain → Type 0
Ready (leaf e) closed chain = (w : ℕ) → ltb 20 w ≡ false → split_of e closed w ≡ none
Ready (node l o r) closed chain = (closed ≡ false) × Fits r chain

leaf-Fits : (e : Expr) (chain : Chain) → Fits (leaf e) chain
unfolding is_under
leaf-Fits e done = tt
leaf-Fits e (more op o chain) = refl

pub climb-IsChain :
    (O : Operands) (least : ℕ) (t : Tree) (chain : Chain) (tail : Bytes)
    → IsChain O chain tail
    → IsChain O (climb least t chain).1 tail
climb-IsChain O least t done tail h = unfold climb in tt
climb-IsChain O least t (more op o chain) tail h = elim (Bool-cases (ltb (weight op) least)) [
  | inl y ↦ rw (climb-less least t op o chain y) h
  | inr n ↦
      rw (climb-more least t op o chain n)
        (climb-IsChain O least (insert t op (meaning o)) chain tail h.2)
]

pub operand-Ready :
    (O : Operands) (o : Operand) (chain : Chain) (rest : Bytes)
    → IsOperand O o rest
    → Ready (leaf (meaning o)) (is_group o) chain
unfolding split_of meaning
operand-Ready O (atom text e) chain rest h w k = rw (h.2 w k) refl
operand-Ready O (bracketed o inner) chain rest h w k = refl

-- The two ways of an operator behind a left operand.
pub chained_whole :
    (rec : Reader) (left : Expr) (closed : Bool) (op : BinaryOp) (least : ℕ) (allow : Bool)
    (rest : Bytes)
    → split_of left closed (weight op) ≡ none
    → chained rec (left, closed) none op least allow rest
      ≡ rec (some (left, false)) (some op) least allow rest
unfolding chained
chained_whole rec left closed op least allow rest p = rw (chained, p) refl

chained_split :
    (rec : Reader) (left l r : Expr) (closed : Bool) (o op : BinaryOp) (least : ℕ) (allow : Bool)
    (rest : Bytes)
    → split_of left closed (weight op) ≡ some (l, o, r)
    → chained rec (left, closed) none op least allow rest ≡ (
        rec (some (r, false)) (some op) (weight op) allow rest >>= λ ((right, c), behind).
        rec (some (binary l o right, false)) none least allow behind)
unfolding chained
chained_split rec left l r closed o op least allow rest p = rw (chained, p) refl

module _ (O : Operands) where
  pub because :
      (t : Tree) (chain : Chain) (tail : Bytes) (r s : Reads Closed)
      → r ≡ s
      → Gives O t chain tail s
      → Gives O t chain tail r
  because t chain tail r s h (b, k) = (b, h ∙ k)

  -- Behind an operator the next operand joins the left one.
  pub next_operand :
      (d : ℕ) (left : Expr) (op : BinaryOp) (o : Operand) (chain : Chain) (tail : Bytes) (least : ℕ)
      (allow : Bool)
      → AreReaders O
      → Wholes O d
      → is_chained op ≡ true
      → IsOperand O o (print_chain chain tail)
      → IsChain O chain tail
      → Stop tail
      → depth o ≤ d
      → reader O
          (suc d)
          (some (left, false))
          (some op)
          least
          allow
          (b' ' ∷ print_operand o (print_chain chain tail))
        ≡ reader O d
            (some (binary left op (meaning o), false))
            none
            least
            allow
            (print_chain chain tail)
  unfolding operand
  next_operand d left op o chain tail least allow r w c h k s n =
      let b = chain-Behind O chain tail k s in
      (enter_operand O d (some (left, false)) (some op) least allow
        (print_operand o (print_chain chain tail))
        (operand-Still O o (print_chain chain tail) h b).0 refl).1
      ∙ operand_lem O d (some (left, false)) (some op) least allow o (print_chain chain tail) r w
          refl h b n
      ∙ rw (combine-binary op left (meaning o) c) refl

  -- What the induction on the depth shows of a tree and the chain behind it, with a space in front or without.
  abbrev pub Loops : ℕ → Type 0
  Loops d =
      (t : Tree) (closed : Bool) (chain : Chain) (tail : Bytes) (least : ℕ) (allow : Bool)
      → Ready t closed chain
      → IsChain O chain tail
      → Stop tail
      → 1 + depths chain ≤ d
      → Gives O (climb least t chain).0 (climb least t chain).1 tail
          (reader O d (some (erase t, closed)) none least allow (print_chain chain tail))
        × Gives O (climb least t chain).0 (climb least t chain).1 tail
            (reader O d (some (erase t, closed)) none least allow (print_here chain tail))

  -- An operator that takes the whole tree as its left operand.
  take_whole :
      (d : ℕ) (t : Tree) (closed : Bool) (op : BinaryOp) (o : Operand) (chain : Chain)
      (tail : Bytes) (least : ℕ) (allow : Bool)
      → AreReaders O
      → Wholes O d
      → Loops d
      → split_of (erase t) closed (weight op) ≡ none
      → is_under t (weight op) ≡ false
      → ltb (weight op) least ≡ false
      → IsChain O (more op o chain) tail
      → Stop tail
      → 3 + depth o + depths chain ≤ suc (suc d)
      → Gives O (climb least t (more op o chain)).0 (climb least t (more op o chain)).1 tail (
          chained
            (reader O (suc d))
            (erase t, closed)
            none
            op
            least
            allow
            (b' ' ∷ print_operand o (print_chain chain tail)))
  unfolding erase
  take_whole d t closed op o chain tail least allow r w loops p u n k s q =
      let t' = node t op (leaf (meaning o)) in
      rw (climb-more least t op o chain n, insert-is_under t op (meaning o) u)
        (because (climb least t' chain).0 (climb least t' chain).1 tail _ _
          (chained_whole (reader O (suc d)) (erase t) closed op least allow
              (b' ' ∷ print_operand o (print_chain chain tail)) p
            ∙ next_operand d (erase t) op o chain tail least allow r w k.0 k.1 k.2 s (omega arith))
          (loops t' false chain tail least allow (refl, leaf-Fits (meaning o) chain) k.2 s
            (omega arith)).0)

  -- An operator that takes the right operand of the tree.
  take_right :
      (d : ℕ) (l : Tree) (o : BinaryOp) (x : Tree) (op : BinaryOp) (a : Operand) (chain : Chain)
      (tail : Bytes) (least : ℕ) (allow : Bool)
      → AreReaders O
      → Wholes O d
      → Loops d
      → Loops (suc d)
      → ltb (weight o) (weight op) ≡ true
      → is_under x (weight op) ≡ false
      → ltb (weight op) least ≡ false
      → IsChain O (more op a chain) tail
      → Stop tail
      → 3 + depth a + depths chain ≤ suc (suc d)
      → Gives O
          (climb least (node l o x) (more op a chain)).0
          (climb least (node l o x) (more op a chain)).1
          tail
          (chained
            (reader O (suc d))
            (erase (node l o x), false)
            none
            op
            least
            allow
            (b' ' ∷ print_operand a (print_chain chain tail)))
  unfolding erase split_of is_lighter binary_of is_under
  take_right d l o x op a chain tail least allow r w loops outer y u n k s q =
      let x' = node x op (leaf (meaning a)) in
      let cut : Chain = (climb (weight op) x' chain).1 in
      let got : Tree = (climb (weight op) x' chain).0 in
      let h : ltb (weight op) (weight op) ≡ false = ground arith in
      let inner =
        (loops x' false chain tail (weight op) allow (refl, leaf-Fits (meaning a) chain) k.2 s
          (omega arith)).0 in
      rw
        (
          climb-more least (node l o x) op a chain n,
          insert-heavier l x o op (meaning a) y,
          insert-is_under x op (meaning a) u,
          climb-split least (weight op) l o x' chain y n,
        )
        (because (climb least (node l o got) cut).0 (climb least (node l o got) cut).1 tail _ _
          (chained_split (reader O (suc d)) (erase (node l o x)) (erase l) (erase x) false o op
              least allow (b' ' ∷ print_operand a (print_chain chain tail)) (rw y refl)
            ∙ rw
                (
                  next_operand d (erase x) op a chain tail (weight op) allow r w k.0 k.1 k.2 s
                      (omega arith),
                  inner.1,
                )
                refl)
          (outer (node l o got) false cut tail least allow (refl, climb-Fits (weight op) x' chain h)
            (climb-IsChain O (weight op) x' chain tail k.2) s
            (omega (arith, climb-depths (weight op) x' chain))).1)

  -- An operator that weighs enough.
  heavy :
      (d : ℕ) (t : Tree) (closed : Bool) (op : BinaryOp) (o : Operand) (chain : Chain)
      (tail : Bytes) (least : ℕ) (allow : Bool)
      → AreReaders O
      → Wholes O d
      → Loops d
      → Loops (suc d)
      → Ready t closed (more op o chain)
      → ltb (weight op) least ≡ false
      → IsChain O (more op o chain) tail
      → Stop tail
      → 3 + depth o + depths chain ≤ suc (suc d)
      → Gives O (climb least t (more op o chain)).0 (climb least t (more op o chain)).1 tail (
          chained
            (reader O (suc d))
            (erase t, closed)
            none
            op
            least
            allow
            (b' ' ∷ print_operand o (print_chain chain tail)))
  unfolding erase split_of is_lighter is_under
  heavy d (leaf e) closed op o chain tail least allow r w loops outer f n k s q =
      take_whole d (leaf e) closed op o chain tail least allow r w loops
        (f (weight op) (chained-weight op k.0)) refl n k s q
  heavy d (node l x y) closed op o chain tail least allow r w loops outer (c, f) n k s q =
      rw c (elim (Bool-cases (ltb (weight x) (weight op))) [
        | inl h ↦ take_right d l x y op o chain tail least allow r w loops outer h f n k s q
        | inr h ↦
            take_whole d (node l x y) false op o chain tail least allow r w loops (rw h refl) h n k
              s q
      ])

  pub at_next :
      (d : ℕ) (t : Tree) (closed : Bool) (op : BinaryOp) (o : Operand) (chain : Chain)
      (tail : Bytes) (least : ℕ) (allow : Bool)
      → AreReaders O
      → Wholes O d
      → Loops d
      → Loops (suc d)
      → Ready t closed (more op o chain)
      → IsChain O (more op o chain) tail
      → Stop tail
      → 3 + depth o + depths chain ≤ suc (suc d)
      → Gives O (climb least t (more op o chain)).0 (climb least t (more op o chain)).1 tail (
          at_bytes O
            (reader O (suc d))
            (suc d)
            (some (erase t, closed))
            none
            least
            allow
            (print_here (more op o chain) tail))
  unfolding print_here
  at_next d t closed op o chain tail least allow r w loops outer f k s q =
      let step =
        at_operator O (reader O (suc d)) (suc d) (erase t, closed) op least allow
          (print_operand o (print_chain chain tail)) k.0 in
      elim (Bool-cases (ltb (weight op) least)) [
        | inl y ↦ rw (climb-less least t op o chain y) (closed, step ∙ rw y refl)
        | inr n ↦
            because (climb least t (more op o chain)).0 (climb least t (more op o chain)).1 tail _ _
              (step ∙ rw n refl)
              (heavy d t closed op o chain tail least allow r w loops outer f n k s q)
      ]

  pub at_last :
      (d : ℕ) (t : Tree) (closed : Bool) (tail : Bytes) (least : ℕ) (allow : Bool)
      → AreReaders O
      → Stop tail
      → Gives O t done tail
          (at_bytes O (reader O d) d (some (erase t, closed)) none least allow tail)
  unfolding print_here
  at_last d t closed tail least allow r s =
      let (e, h) = r.1 d allow tail s in
      (false, at_finish O (reader O d) d (erase t) closed least allow tail e s h)
