-- ===== src/Parser/Space/Skipped.antt =====
-- parser/src/lib.rs: what `whitespace` skips.
use zust.Prelude.{
  ℕ, zero, suc, ◌+◌, ◌<◌, ◌≡◌, refl, subst, ◌∙◌, arith, true, false, ◌&&◌, List, [], ◌∷◌, ◌++◌,
  length, length-append, append_assoc, All, Bool-cases, inl, inr, ◌==◌,
}
use zust.Prelude.Outcome.{Outcome, ok}
use zust.Dynamic.Value.{Bytes}
use zust.Parser.Reading.{contains}
use zust.Parser.Space.{
  ParseErr, white_space, line_end, block_end, block_start, after_slash, comment, next_space,
  whitespace_loop, whitespace,
}

-- What a round of `whitespace` skips: a white byte, a comment up to the end of its line, or a closed
-- comment with the white byte behind it.
pub data Blank : Type 0 where
  white : ℕ → Blank
  line : Bytes → Blank
  block : Bytes → ℕ → Blank

-- Without the `*/` that ends a comment.
abbrev pub Unclosed : Bytes → Type 0
Unclosed [] = Unit
Unclosed (c ∷ []) = Unit
Unclosed (c ∷ d ∷ rest) = ((c == b'*' && d == b'/') ≡ false) × Unclosed (d ∷ rest)

abbrev pub IsBlank : Blank → Type 0
IsBlank (white c) = contains white_space c ≡ true
IsBlank (line body) = All (λ c. (c == b'\n') ≡ false) body
IsBlank (block body c) = Unclosed body × (contains white_space c ≡ true)

unfoldable pub print_blank : Blank → Bytes
print_blank (white c) = c ∷ []
print_blank (line body) = b'/' ∷ b'/' ∷ (body ++ b'\n' ∷ [])
print_blank (block body c) = b'/' ∷ b'*' ∷ (body ++ b'*' ∷ b'/' ∷ c ∷ [])

unfoldable pub print_blanks : List Blank → Bytes → Bytes
print_blanks [] rest = rest
print_blanks (b ∷ blanks) rest = print_blank b ++ print_blanks blanks rest

-- The text behind: the end, or a byte that is not white and no slash.
abbrev pub Behind : Bytes → Type 0
Behind [] = Unit
Behind (c ∷ rest) = (contains white_space c ≡ false) × ((c == b'/') ≡ false)

white_no_slash : (c : ℕ) → contains white_space c ≡ true → (c == b'/') ≡ false
unfolding contains
white_no_slash c h = ground arith

line_end_body :
    (body rest : Bytes)
    → All (λ c. (c == b'\n') ≡ false) body
    → line_end (body ++ b'\n' ∷ rest) ≡ b'\n' ∷ rest
unfolding line_end
line_end_body [] rest h = refl
line_end_body (c ∷ body) rest h = rw h.0 (line_end_body body rest h.1)

block_end_body :
    (c : ℕ) (body rest : Bytes)
    → Unclosed (c ∷ body)
    → block_end c (body ++ b'*' ∷ b'/' ∷ rest) ≡ ok rest
unfolding block_end
block_end_body c [] rest h = elim (Bool-cases (c == b'*')) [ inl y ↦ rw y refl | inr n ↦ rw n refl ]
block_end_body c (d ∷ body) rest h = rw h.0 (block_end_body d body rest h.1)

block_start_body :
    (body rest : Bytes) → Unclosed body → block_start (body ++ b'*' ∷ b'/' ∷ rest) ≡ ok rest
unfolding block_start block_end
block_start_body [] rest h = refl
block_start_body (c ∷ body) rest h = block_end_body c body rest h

next_space_white :
    (f : Bytes → Outcome ParseErr Bytes) (c : ℕ) (rest : Bytes)
    → contains white_space c ≡ true
    → next_space f (c ∷ rest) ≡ f rest
unfolding next_space
next_space_white f c rest h = rw h refl

-- A round skips a blank.
round :
    (fuel : ℕ) (b : Blank) (rest : Bytes)
    → IsBlank b
    → whitespace_loop (suc fuel) (print_blank b ++ rest) ≡ whitespace_loop fuel rest
unfolding whitespace_loop comment after_slash print_blank
round fuel (white c) rest h =
    rw (white_no_slash c h) (next_space_white (whitespace_loop fuel) c rest h)
round fuel (line body) rest h =
    rw (append_assoc body (b'\n' ∷ []) rest, line_end_body body rest h)
      (next_space_white (whitespace_loop fuel) b'\n' rest (unfold contains in refl))
round fuel (block body c) rest h =
    rw (append_assoc body (b'*' ∷ b'/' ∷ c ∷ []) rest, block_start_body body (c ∷ rest) h.0)
      (next_space_white (whitespace_loop fuel) c rest h.1)

stops : (fuel : ℕ) (rest : Bytes) → Behind rest → whitespace_loop (suc fuel) rest ≡ ok rest
unfolding whitespace_loop comment next_space
stops fuel [] h = refl
stops fuel (c ∷ rest) h = rw (h.1, h.0) refl

print_blank-length : (b : Blank) → 0 < length (print_blank b)
unfolding print_blank
print_blank-length (white c) = omega arith
print_blank-length (line body) = omega arith
print_blank-length (block body c) = omega arith

whitespace_loop-print_blanks :
    (fuel : ℕ) (blanks : List Blank) (rest : Bytes)
    → All IsBlank blanks
    → Behind rest
    → length (print_blanks blanks rest) < fuel
    → whitespace_loop fuel (print_blanks blanks rest) ≡ ok rest
unfolding print_blanks
whitespace_loop-print_blanks zero blanks rest h b n = absurd (omega (arith, n))
whitespace_loop-print_blanks (suc fuel) [] rest h b n = stops fuel rest b
whitespace_loop-print_blanks (suc fuel) (x ∷ blanks) rest h b n =
    round fuel x (print_blanks blanks rest) h.0
    ∙ whitespace_loop-print_blanks fuel blanks rest h.1 b (
        omega (
          arith,
          n,
          length-append (print_blank x) (print_blanks blanks rest),
          print_blank-length x,
        ))

-- `whitespace` skips any sequence of white bytes and comments up to the text behind, where each
-- comment goes up to the end of its line, or is closed with a white byte behind it. The text behind
-- is at its end or starts with a byte that is neither white nor a slash.
pub whitespace-print_blanks :
    (blanks : List Blank) (rest : Bytes)
    → All IsBlank blanks
    → Behind rest
    → whitespace (print_blanks blanks rest) ≡ ok rest
unfolding whitespace
whitespace-print_blanks blanks rest h b =
    whitespace_loop-print_blanks (length (print_blanks blanks rest) + 1) blanks rest h b
      (omega arith)

at_comment :
    (fuel : ℕ) (a : Bytes) (d : ℕ) (rest : Bytes)
    → Unclosed a
    → contains white_space d ≡ false
    → whitespace_loop (suc fuel) (b'/' ∷ b'*' ∷ (a ++ b'*' ∷ b'/' ∷ d ∷ rest)) ≡ ok (d ∷ rest)
unfolding whitespace_loop comment after_slash next_space
at_comment fuel a d rest h n = rw (block_start_body a (d ∷ rest) h, n) refl

-- Behind a closed comment `whitespace` stops at any byte that is not white, also where it is the
-- slash of another comment.
pub whitespace-comment :
    (a : Bytes) (d : ℕ) (rest : Bytes)
    → Unclosed a
    → contains white_space d ≡ false
    → whitespace (b'/' ∷ b'*' ∷ (a ++ b'*' ∷ b'/' ∷ d ∷ rest)) ≡ ok (d ∷ rest)
unfolding whitespace
whitespace-comment a d rest h n =
    let input : Bytes = b'/' ∷ b'*' ∷ (a ++ b'*' ∷ b'/' ∷ d ∷ rest) in
    subst (λ k. whitespace_loop k input ≡ ok (d ∷ rest)) (one_more (length input))
      (at_comment (length input) a d rest h n)
  where
    one_more : (n : ℕ) → suc n ≡ n + 1
    one_more n = omega arith

-- No white byte and no comment stands in front.
abbrev pub Still : Bytes → Type 0
Still [] = ⊥
Still (c ∷ rest) = (comment (c ∷ rest) ≡ ok (c ∷ rest)) × (contains white_space c ≡ false)

kept_round : (fuel : ℕ) (here : Bytes) → Still here → whitespace_loop (suc fuel) here ≡ ok here
unfolding whitespace_loop next_space
kept_round fuel [] h = absurd h
kept_round fuel (c ∷ rest) h = rw (h.0, h.1) refl

kept_space :
    (fuel : ℕ) (here : Bytes)
    → Still here
    → whitespace_loop (suc (suc fuel)) (b' ' ∷ here) ≡ ok here
unfolding print_blank
kept_space fuel here h =
    round (suc fuel) (white b' ') here (unfold contains in refl) ∙ kept_round fuel here h

to_suc : (n : ℕ) → suc n ≡ n + 1
to_suc n = omega arith

pub whitespace-Still : (here : Bytes) → Still here → whitespace here ≡ ok here
unfolding whitespace
whitespace-Still here h = rw (← to_suc (length here)) (kept_round (length here) here h)

pub whitespace-space : (here : Bytes) → Still here → whitespace (b' ' ∷ here) ≡ ok here
unfolding whitespace
whitespace-space here h = rw (← to_suc (length (b' ' ∷ here))) (kept_space (length here) here h)
