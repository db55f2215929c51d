-- ===== src/Parser/Idents.antt =====
-- parser/src/lib.rs: identifiers, on the rest of the buffer.
pub mod Joined
use zust.Prelude.{
  ℕ, zero, suc, ◌+◌, Bool, true, false, not, ◌||◌, Option, none, some, List, [], ◌∷◌, ◌++◌, length,
  if◌then◌else◌,
}
use zust.Prelude.Outcome.{Outcome, ok, err, stuck, ◌>>=◌}
use zust.Dynamic.Value.{Bytes, same_text}
use zust.Parser.Reading.{contains, not_ident, just}
use zust.Parser.Space.{ParseErr, not_expected, found_keyword}
use zust.Parser.Strings.{Utf8, collect}
use zust.Parser.Numbers.{empty_digits}

abbrev pub colons : Bytes
colons = b':' ∷ b':' ∷ []

unfoldable pub is_ident_byte : ℕ → Bool
is_ident_byte c = not (contains not_ident c)

-- "true", "false", "null", "let", "if", "else", "for", "in", "while", "loop", "pub", "fn", "struct",
-- "impl", "const", "static", "continue", "return", "break", "match", "and", "or" and "not"
abbrev pub keywords : List Bytes
keywords =
    (b't' ∷ b'r' ∷ b'u' ∷ b'e' ∷ [])
    ∷ (b'f' ∷ b'a' ∷ b'l' ∷ b's' ∷ b'e' ∷ [])
    ∷ (b'n' ∷ b'u' ∷ b'l' ∷ b'l' ∷ [])
    ∷ (b'l' ∷ b'e' ∷ b't' ∷ [])
    ∷ (b'i' ∷ b'f' ∷ [])
    ∷ (b'e' ∷ b'l' ∷ b's' ∷ b'e' ∷ [])
    ∷ (b'f' ∷ b'o' ∷ b'r' ∷ [])
    ∷ (b'i' ∷ b'n' ∷ [])
    ∷ (b'w' ∷ b'h' ∷ b'i' ∷ b'l' ∷ b'e' ∷ [])
    ∷ (b'l' ∷ b'o' ∷ b'o' ∷ b'p' ∷ [])
    ∷ (b'p' ∷ b'u' ∷ b'b' ∷ [])
    ∷ (b'f' ∷ b'n' ∷ [])
    ∷ (b's' ∷ b't' ∷ b'r' ∷ b'u' ∷ b'c' ∷ b't' ∷ [])
    ∷ (b'i' ∷ b'm' ∷ b'p' ∷ b'l' ∷ [])
    ∷ (b'c' ∷ b'o' ∷ b'n' ∷ b's' ∷ b't' ∷ [])
    ∷ (b's' ∷ b't' ∷ b'a' ∷ b't' ∷ b'i' ∷ b'c' ∷ [])
    ∷ (b'c' ∷ b'o' ∷ b'n' ∷ b't' ∷ b'i' ∷ b'n' ∷ b'u' ∷ b'e' ∷ [])
    ∷ (b'r' ∷ b'e' ∷ b't' ∷ b'u' ∷ b'r' ∷ b'n' ∷ [])
    ∷ (b'b' ∷ b'r' ∷ b'e' ∷ b'a' ∷ b'k' ∷ [])
    ∷ (b'm' ∷ b'a' ∷ b't' ∷ b'c' ∷ b'h' ∷ [])
    ∷ (b'a' ∷ b'n' ∷ b'd' ∷ [])
    ∷ (b'o' ∷ b'r' ∷ [])
    ∷ (b'n' ∷ b'o' ∷ b't' ∷ [])
    ∷ []

unfoldable pub any_text : List Bytes → Bytes → Bool
any_text [] text = false
any_text (x ∷ xs) text = same_text x text || any_text xs text

-- The loop of `ident`: what it adds to the identifier, and the rest.
unfoldable pub ident_loop : ℕ → Bytes → Outcome ParseErr (Bytes × Bytes)
ident_loop zero input = stuck
ident_loop (suc fuel) input = elim (just colons input) [
  | none ↦ ok ([], input)
  | some behind ↦
      let (run, more) = collect is_ident_byte behind in
      let next = ident_loop fuel more >>= λ (text, rest). ok (colons ++ (run ++ text), rest) in
      if empty_digits run then ok ([], input) else next
]

module _ (U : Utf8) where
  unfoldable pub ident_of : Bytes → Bytes → Outcome ParseErr (Bytes × Bytes)
  ident_of text rest = if any_text keywords text then err found_keyword else ok (U.lossy text, rest)

  -- Each round takes two bytes at least.
  unfoldable pub ident : Bytes → Outcome ParseErr (Bytes × Bytes)
  unfolding ident_loop
  ident input =
      let (run, behind) = collect is_ident_byte input in
      if empty_digits run
      then err not_expected
      else (ident_loop (length behind + 1) behind >>= λ (text, rest). ident_of (run ++ text) rest)
