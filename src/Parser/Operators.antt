-- ===== src/Parser/Operators.antt =====
-- parser/src/expr.rs: the binary operators, their symbols and weights, and how they are read.
pub mod Laws
use zust.Prelude.{ℕ, Bool, true, false, Option, none, some, List, [], ◌∷◌, ◌==◌, if◌then◌else◌}
use zust.Parser.Reading.{just, keyword}

pub data BinaryOp : Type 0 where
  add sub mul div mod_op shr shl bit_and bit_or bit_xor : BinaryOp
  add_assign sub_assign mul_assign div_assign mod_assign shr_assign shl_assign : BinaryOp
  bit_and_assign bit_or_assign bit_xor_assign assign : BinaryOp
  eq ne lt gt le ge and or idx range_open range_close unknow : BinaryOp

-- The symbols, as bytes.
unfoldable pub symbol : BinaryOp → List ℕ
symbol add = 43 ∷ []
symbol sub = 45 ∷ []
symbol mul = 42 ∷ []
symbol div = 47 ∷ []
symbol mod_op = 37 ∷ []
symbol shl = 60 ∷ 60 ∷ []
symbol shr = 62 ∷ 62 ∷ []
symbol bit_and = 38 ∷ []
symbol bit_or = 124 ∷ []
symbol bit_xor = 94 ∷ []
symbol add_assign = 43 ∷ 61 ∷ []
symbol sub_assign = 45 ∷ 61 ∷ []
symbol mul_assign = 42 ∷ 61 ∷ []
symbol div_assign = 47 ∷ 61 ∷ []
symbol mod_assign = 37 ∷ 61 ∷ []
symbol shl_assign = 60 ∷ 60 ∷ 61 ∷ []
symbol shr_assign = 62 ∷ 62 ∷ 61 ∷ []
symbol bit_and_assign = 38 ∷ 61 ∷ []
symbol bit_or_assign = 124 ∷ 61 ∷ []
symbol bit_xor_assign = 94 ∷ 61 ∷ []
symbol assign = 61 ∷ []
symbol eq = 61 ∷ 61 ∷ []
symbol ne = 33 ∷ 61 ∷ []
symbol lt = 60 ∷ []
symbol gt = 62 ∷ []
symbol le = 60 ∷ 61 ∷ []
symbol ge = 62 ∷ 61 ∷ []
symbol and = 38 ∷ 38 ∷ []
symbol or = 124 ∷ 124 ∷ []
symbol idx = 91 ∷ 93 ∷ []
symbol range_open = 46 ∷ 46 ∷ []
symbol range_close = 46 ∷ 46 ∷ 61 ∷ []
symbol unknow = 63 ∷ []

unfoldable pub is_logic : BinaryOp → Bool
is_logic and = true
is_logic or = true
is_logic eq = true
is_logic ne = true
is_logic lt = true
is_logic gt = true
is_logic le = true
is_logic ge = true
is_logic _ = false

unfoldable pub is_add : BinaryOp → Bool
is_add add = true
is_add add_assign = true
is_add _ = false

unfoldable pub is_arith : BinaryOp → Bool
is_arith sub = true
is_arith mul = true
is_arith div = true
is_arith mod_op = true
is_arith shr = true
is_arith shl = true
is_arith bit_and = true
is_arith bit_or = true
is_arith bit_xor = true
is_arith sub_assign = true
is_arith mul_assign = true
is_arith div_assign = true
is_arith mod_assign = true
is_arith shr_assign = true
is_arith shl_assign = true
is_arith bit_and_assign = true
is_arith bit_or_assign = true
is_arith bit_xor_assign = true
is_arith _ = false

unfoldable pub is_assign : BinaryOp → Bool
is_assign add_assign = true
is_assign assign = true
is_assign div_assign = true
is_assign mod_assign = true
is_assign mul_assign = true
is_assign sub_assign = true
is_assign bit_and_assign = true
is_assign bit_or_assign = true
is_assign bit_xor_assign = true
is_assign shl_assign = true
is_assign shr_assign = true
is_assign _ = false

unfoldable pub weight : BinaryOp → ℕ
weight idx = 30
weight mul = 20
weight div = 20
weight mod_op = 20
weight add = 19
weight sub = 19
weight shl = 18
weight shr = 18
weight bit_and = 17
weight bit_xor = 16
weight bit_or = 15
weight eq = 10
weight ne = 10
weight lt = 10
weight gt = 10
weight le = 10
weight ge = 10
weight and = 9
weight or = 9
weight range_open = 5
weight range_close = 5
weight _ = 0

-- The symbols that are tried with `just`, in the order of the source.
abbrev pub trials : List BinaryOp
trials =
    shl_assign ∷ shr_assign ∷ shl ∷ shr ∷ ge ∷ eq ∷ ne ∷ le ∷ and ∷ or ∷ add_assign ∷ sub_assign
    ∷ mul_assign ∷ div_assign ∷ mod_assign ∷ bit_and_assign ∷ bit_or_assign ∷ bit_xor_assign
    ∷ range_close ∷ range_open ∷ []

-- The single bytes behind them.
abbrev pub singles : List BinaryOp
singles = add ∷ sub ∷ mul ∷ div ∷ mod_op ∷ lt ∷ gt ∷ assign ∷ bit_and ∷ bit_or ∷ bit_xor ∷ []

-- The operator with what is left of the input, or none and the input as it was.
unfoldable pub first_of : List BinaryOp → List ℕ → Option (BinaryOp × List ℕ)
unfolding symbol
first_of [] input = none
first_of (op ∷ ops) input =
    let later = first_of ops input in
    elim (just (symbol op) input) [ none ↦ later | some left ↦ some (op, left) ]

unfoldable pub or_else :
    Option (BinaryOp × List ℕ) → Option (BinaryOp × List ℕ) → Option (BinaryOp × List ℕ)
or_else none later = later
or_else (some found) later = some found

unfoldable pub word : List ℕ → BinaryOp → List ℕ → Option (BinaryOp × List ℕ)
word name op input = elim (keyword name input) [ none ↦ none | some left ↦ some (op, left) ]

-- `Parser::binary_op`
unfoldable pub binary_op : List ℕ → Option (BinaryOp × List ℕ)
binary_op input = or_else (word (97 ∷ 110 ∷ 100 ∷ []) and input) (
    or_else (word (111 ∷ 114 ∷ []) or input)
      (or_else (first_of trials input) (first_of singles input)))
