-- ===== src/Parser/Reading.antt =====
-- parser/src/lib.rs: the smallest steps of the parser, on the rest of its buffer. A step that fails
-- leaves the input to the caller.
use zust.Prelude.{
  ℕ, Bool, true, false, ◌||◌, Option, none, some, List, [], ◌∷◌, ◌==◌, if◌then◌else◌,
}

-- Spaces and the bytes of operators and punctuation, none of which is part of an identifier.
abbrev pub not_ident : List ℕ
not_ident =
    32 ∷ 9 ∷ 10 ∷ 13 ∷ 47 ∷ 42 ∷ 43 ∷ 45 ∷ 61 ∷ 40 ∷ 41 ∷ 123 ∷ 125 ∷ 91 ∷ 93 ∷ 59 ∷ 58 ∷ 44 ∷ 46
    ∷ 60 ∷ 62 ∷ 33 ∷ 63 ∷ 35 ∷ 36 ∷ 37 ∷ 94 ∷ 38 ∷ 124 ∷ 92 ∷ 34 ∷ 39 ∷ []

unfoldable pub contains : List ℕ → ℕ → Bool
contains [] x = false
contains (y ∷ ys) x = (y == x) || contains ys x

unfoldable pub just : List ℕ → List ℕ → Option (List ℕ)
just [] input = some input
just (p ∷ pattern) [] = none
just (p ∷ pattern) (b ∷ input) = let rest = just pattern input in if p == b then rest else none

-- Not followed by a byte that goes on with an identifier.
unfoldable pub ends_here : List ℕ → Bool
ends_here [] = true
ends_here (b ∷ rest) = contains not_ident b

unfoldable pub keyword : List ℕ → List ℕ → Option (List ℕ)
keyword pattern input = elim (just pattern input) [
  | none ↦ none
  | some rest ↦ if ends_here rest then some rest else none
]
