-- ===== src/Parser/Climbing/Signs.antt =====
-- parser/src/expr.rs: the bytes at which an operand or an operator starts, or an expression ends.
use zust.Prelude.{
  ℕ, ◌≡◌, refl, arith, Bool, true, false, not, ◌&&◌, Option, none, some, List, [], ◌∷◌, ◌++◌, ◌==◌,
}
use zust.Dynamic.Value.{Bytes}
use zust.Parser.Reading.{contains, just, keyword}
use zust.Parser.Space.{white_space, comment, after_slash}
use zust.Parser.Space.Skipped.{Still}
use zust.Parser.Operators.{
  BinaryOp, symbol, binary_op, first_of, or_else, word, add, sub, mul, div, mod_op, shr, shl,
  bit_and, bit_or, bit_xor, eq, ne, lt, gt, le, ge, and, or,
}
use zust.Parser.Numbers.Suffixes.{every-contains, front}

-- The operators that group from the left.
unfoldable pub is_chained : BinaryOp → Bool
is_chained mul = true
is_chained div = true
is_chained mod_op = true
is_chained add = true
is_chained sub = true
is_chained shl = true
is_chained shr = true
is_chained bit_and = true
is_chained bit_xor = true
is_chained bit_or = true
is_chained eq = true
is_chained ne = true
is_chained lt = true
is_chained gt = true
is_chained le = true
is_chained ge = true
is_chained and = true
is_chained or = true
is_chained op = false

-- ")", "]", "}", "," and ";"
abbrev pub stops : List ℕ
stops = b')' ∷ b']' ∷ b'}' ∷ b',' ∷ b';' ∷ []

abbrev pub Stop : Bytes → Type 0
Stop [] = ⊥
Stop (c ∷ rest) = contains stops c ≡ true

abbrev pub is_none : {A : Type 0} → Option A → Bool
is_none none = true
is_none (some a) = false

abbrev is_plain : ℕ → Bytes → Bool
is_plain c rest =
    not (c == b'(')
    && not (c == b'!')
    && not (c == b'-')
    && not (c == b'[')
    && not (c == b'{')
    && not (c == b'|')
    && not (c == b'?')
    && is_none (keyword (b'n' ∷ b'o' ∷ b't' ∷ []) (c ∷ rest))
    && is_none (keyword (b'i' ∷ b'f' ∷ []) (c ∷ rest))
    && is_none (keyword (b'm' ∷ b'a' ∷ b't' ∷ b'c' ∷ b'h' ∷ []) (c ∷ rest))
    && is_none (binary_op (c ∷ rest))

-- No other reader than that of base expressions starts here, and no white space or comment.
unfoldable pub starts_base : Bytes → Bool
starts_base [] = false
starts_base (c ∷ rest) =
    is_plain c rest && (not (c == b')') && not (contains white_space c) && not (c == b'/'))

-- An operator with spaces around is still.
pub symbol-Still :
    (op : BinaryOp) (rest : Bytes) → is_chained op ≡ true → Still (symbol op ++ b' ' ∷ rest)
unfolding symbol comment after_slash contains is_chained
symbol-Still mul rest h = (refl, refl)
symbol-Still div rest h = (refl, refl)
symbol-Still mod_op rest h = (refl, refl)
symbol-Still add rest h = (refl, refl)
symbol-Still sub rest h = (refl, refl)
symbol-Still shl rest h = (refl, refl)
symbol-Still shr rest h = (refl, refl)
symbol-Still bit_and rest h = (refl, refl)
symbol-Still bit_xor rest h = (refl, refl)
symbol-Still bit_or rest h = (refl, refl)
symbol-Still eq rest h = (refl, refl)
symbol-Still ne rest h = (refl, refl)
symbol-Still lt rest h = (refl, refl)
symbol-Still gt rest h = (refl, refl)
symbol-Still le rest h = (refl, refl)
symbol-Still ge rest h = (refl, refl)
symbol-Still and rest h = (refl, refl)
symbol-Still or rest h = (refl, refl)
symbol-Still _ rest h = absurd (cc)

-- What a byte that stops is not.
abbrev pub Quiet : ℕ → Bytes → Type 0
Quiet c rest =
    ((c == b'(') ≡ false)
    × ((c == b'!') ≡ false)
    × ((c == b'-') ≡ false)
    × ((c == b'[') ≡ false)
    × ((c == b'{') ≡ false)
    × ((c == b'|') ≡ false)
    × ((c == b'?') ≡ false)
    × (binary_op (c ∷ rest) ≡ none)

abbrev quiet : Bytes → ℕ → Bool
quiet rest c =
    not (c == b'(')
    && not (c == b'!')
    && not (c == b'-')
    && not (c == b'[')
    && not (c == b'{')
    && not (c == b'|')
    && not (c == b'?')
    && is_none (binary_op (c ∷ rest))

is_none→eq : {A : Type 0} (a : Option A) → is_none a ≡ true → a ≡ none
is_none→eq none h = refl
is_none→eq (some a) h = absurd (cc)

pub stop-Quiet : (c : ℕ) (rest : Bytes) → contains stops c ≡ true → Quiet c rest
unfolding binary_op symbol first_of or_else word just keyword contains
stop-Quiet c rest h =
    split (c == b'(') (c == b'!') (c == b'-') (c == b'[') (c == b'{') (c == b'|') (c == b'?')
      (binary_op (c ∷ rest)) (every-contains (quiet rest) stops c refl h)
  where
    split :
        (a b d e f g i : Bool) (o : Option (BinaryOp × Bytes))
        → (not a && not b && not d && not e && not f && not g && not i && is_none o) ≡ true
        → (a ≡ false)
          × (b ≡ false)
          × (d ≡ false)
          × (e ≡ false)
          × (f ≡ false)
          × (g ≡ false)
          × (i ≡ false)
          × (o ≡ none)
    split a b d e f g i o h = (
      ground arith,
      ground arith,
      ground arith,
      ground arith,
      ground arith,
      ground arith,
      ground arith,
      is_none→eq o (ground arith),
    )

-- What a byte that starts a base expression is not.
abbrev pub Plain : ℕ → Bytes → Type 0
Plain c rest =
    Quiet c rest
    × (keyword (b'n' ∷ b'o' ∷ b't' ∷ []) (c ∷ rest) ≡ none)
    × (keyword (b'i' ∷ b'f' ∷ []) (c ∷ rest) ≡ none)
    × (keyword (b'm' ∷ b'a' ∷ b't' ∷ b'c' ∷ b'h' ∷ []) (c ∷ rest) ≡ none)

pub starts_base→Plain : (c : ℕ) (rest : Bytes) → starts_base (c ∷ rest) ≡ true → Plain c rest
unfolding starts_base
starts_base→Plain c rest h =
    split (c == b'(') (c == b'!') (c == b'-') (c == b'[') (c == b'{') (c == b'|') (c == b'?')
      (binary_op (c ∷ rest)) (keyword (b'n' ∷ b'o' ∷ b't' ∷ []) (c ∷ rest))
      (keyword (b'i' ∷ b'f' ∷ []) (c ∷ rest))
      (keyword (b'm' ∷ b'a' ∷ b't' ∷ b'c' ∷ b'h' ∷ []) (c ∷ rest)) (front (is_plain c rest) _ h).0
  where
    split :
        (a b d e f g i : Bool) (o : Option (BinaryOp × Bytes)) (x y z : Option Bytes)
        → (not a
            && not b
            && not d
            && not e
            && not f
            && not g
            && not i
            && is_none x
            && is_none y
            && is_none z
            && is_none o)
          ≡ true
        → ((a ≡ false)
            × (b ≡ false)
            × (d ≡ false)
            × (e ≡ false)
            × (f ≡ false)
            × (g ≡ false)
            × (i ≡ false)
            × (o ≡ none))
          × (x ≡ none)
          × (y ≡ none)
          × (z ≡ none)
    split a b d e f g i o x y z h = (
      (
        ground arith,
        ground arith,
        ground arith,
        ground arith,
        ground arith,
        ground arith,
        ground arith,
        is_none→eq o (ground arith),
      ),
      is_none→eq x (ground arith),
      is_none→eq y (ground arith),
      is_none→eq z (ground arith),
    )

three : (a b c : Bool) → (not a && not b && not c) ≡ true → (a ≡ false) × (b ≡ false) × (c ≡ false)
three a b c h = (ground arith, ground arith, ground arith)

-- Where a base expression starts no white space, comment or closing bracket stands.
pub starts_base-Still :
    (c : ℕ) (rest : Bytes)
    → starts_base (c ∷ rest) ≡ true
    → Still (c ∷ rest) × ((c == b')') ≡ false)
unfolding starts_base comment
starts_base-Still c rest h =
    let (x, y, z) =
      three (c == b')') (contains white_space c) (c == b'/') (front (is_plain c rest) _ h).1 in
    ((rw z refl, y), x)

pub Stop-Still : (rest : Bytes) → Stop rest → Still rest
unfolding comment contains
Stop-Still [] h = absurd h
Stop-Still (c ∷ rest) h = (
  rw (no_bit (c == b'/') (every-contains (λ x. not (x == b'/')) stops c refl h)) refl,
  no_bit (contains white_space c)
      (every-contains (λ x. not (contains white_space x)) stops c refl h),
)
  where
    no_bit : (a : Bool) → not a ≡ true → a ≡ false
    no_bit a h = ground arith
