-- ===== src/Parser/Idents/Joined.antt =====
-- parser/src/lib.rs: `ident` reads a path of identifiers.
use zust.Prelude.{
  ℕ, zero, suc, ◌+◌, ◌≤◌, ◌<◌, ◌≡◌, refl, arith, true, false, none, some, List, [], ◌∷◌, ◌++◌,
  length, length-append, append_assoc, All, ◌==◌, if◌then◌else◌,
}
use zust.Prelude.Outcome.{ok, err}
use zust.Dynamic.Value.{Bytes}
use zust.Parser.Reading.{contains, not_ident, just}
use zust.Parser.Space.{found_keyword}
use zust.Parser.Strings.{Utf8, collect}
use zust.Parser.Strings.Pieces.{collect-All}
use zust.Parser.Numbers.{empty_digits}
use zust.Parser.Idents.{colons, is_ident_byte, keywords, any_text, ident_loop, ident_of, ident}

abbrev pub IsSegment : Bytes → Type 0
IsSegment s = (empty_digits s ≡ false) × All (λ c. is_ident_byte c ≡ true) s

-- The segments behind the first, each with colons before it.
unfoldable pub join_colons : List Bytes → Bytes
join_colons [] = []
join_colons (s ∷ segments) = colons ++ (s ++ join_colons segments)

-- A byte behind an identifier, which is no colon.
abbrev pub Ends : ℕ → Type 0
Ends c = (contains not_ident c ≡ true) × ((b':' == c) ≡ false)

collect-segment :
    (s : Bytes) (segments : List Bytes) (c : ℕ) (rest : Bytes)
    → IsSegment s
    → Ends c
    → collect is_ident_byte (s ++ (join_colons segments ++ c ∷ rest))
      ≡ (s, join_colons segments ++ c ∷ rest)
unfolding join_colons
collect-segment s [] c rest h e =
    collect-All is_ident_byte s rest c h.1 (unfold is_ident_byte in rw e.0 refl)
collect-segment s (x ∷ segments) c rest h e =
    collect-All is_ident_byte s (b':' ∷ ((x ++ join_colons segments) ++ c ∷ rest)) b':' h.1
      (unfold is_ident_byte contains in refl)

no_colons : (c : ℕ) (rest : Bytes) → (b':' == c) ≡ false → just colons (c ∷ rest) ≡ none
unfolding just
no_colons c rest h = rw h refl

two_colons : (rest : Bytes) → just colons (b':' ∷ b':' ∷ rest) ≡ some rest
unfolding just
two_colons rest = refl

ident_loop-join_colons :
    (fuel : ℕ) (segments : List Bytes) (c : ℕ) (rest : Bytes)
    → All IsSegment segments
    → Ends c
    → length segments < fuel
    → ident_loop fuel (join_colons segments ++ c ∷ rest) ≡ ok (join_colons segments, c ∷ rest)
unfolding join_colons ident_loop
ident_loop-join_colons zero segments c rest h e n = absurd (omega (arith, n))
ident_loop-join_colons (suc fuel) [] c rest h e n = rw (ident_loop, no_colons c rest e.1) refl
ident_loop-join_colons (suc fuel) (s ∷ segments) c rest h e n =
    rw
      (
        append_assoc s (join_colons segments) (c ∷ rest),
        ident_loop,
        two_colons (s ++ (join_colons segments ++ c ∷ rest)),
        collect-segment s segments c rest h.0 e,
        h.0.0,
        ident_loop-join_colons fuel segments c rest h.1 e (omega (arith, n)),
      )
      refl

segments-length :
    (segments : List Bytes) (rest : Bytes) → length segments ≤ length (join_colons segments ++ rest)
unfolding join_colons
segments-length [] rest = omega arith
segments-length (s ∷ segments) rest = omega (
  arith,
  segments-length segments rest,
  length-append (s ++ join_colons segments) rest,
  length-append s (join_colons segments),
  length-append (join_colons segments) rest,
)

module _ (U : Utf8) where
  -- `ident` reads segments joined by double colons as one identifier, and leaves the rest of the
  -- buffer, unless the whole text is a keyword, which it refuses; a keyword as one of several segments
  -- is read. Each segment is a sequence of bytes of identifiers. Behind the last stands another byte,
  -- which is no colon.
  pub ident-join_colons :
      (s : Bytes) (segments : List Bytes) (c : ℕ) (rest : Bytes)
      → IsSegment s
      → All IsSegment segments
      → Ends c
      → ident U (s ++ (join_colons segments ++ c ∷ rest)) ≡ (
          if any_text keywords (s ++ join_colons segments)
          then err found_keyword
          else ok (U.lossy (s ++ join_colons segments), c ∷ rest))
  unfolding ident ident_of
  ident-join_colons s segments c rest h k e =
      rw
        (
          collect-segment s segments c rest h e,
          h.0,
          ident_loop-join_colons (length (join_colons segments ++ c ∷ rest) + 1) segments c rest k e
              (omega (arith, segments-length segments (c ∷ rest))),
        )
        refl
