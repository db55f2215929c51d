-- ===== src/Parser/Strings/Raw.antt =====
-- parser/src/lib.rs: `text` reads raw texts.
use zust.Prelude.{
  ℕ, zero, suc, ◌≡◌, refl, sym, ap, ◌∙◌, true, none, some, [], ◌∷◌, ◌++◌, length, All, Bool-cases,
  inl, inr, ◌==◌,
}
use zust.Prelude.Outcome.{ok}
use zust.Dynamic.Value.{Bytes}
use zust.Parser.Reading.{just}
use zust.Parser.Strings.{Utf8, hashes, raw_search, raw_body, raw_text, text_after_r, text}
use zust.Parser.Strings.Pieces.{collect-All}

-- In the body of a raw text no quote has the closing hashes behind it.
abbrev pub Unquoted : ℕ → Bytes → Type 0
Unquoted n [] = Unit
Unquoted n (c ∷ body) = (just (b'"' ∷ hashes n) (c ∷ body) ≡ none) × Unquoted n body

just-hashes : (n : ℕ) (rest : Bytes) → just (hashes n) (hashes n ++ rest) ≡ some rest
unfolding just hashes
just-hashes zero rest = refl
just-hashes (suc n) rest = just-hashes n rest

just_close : (n : ℕ) (rest : Bytes) → just (b'"' ∷ hashes n) (b'"' ∷ (hashes n ++ rest)) ≡ some rest
unfolding just
just_close n rest = just-hashes n rest

-- Hashes that a body does not have do not come from the quote behind it.
just-hashes-none :
    (n : ℕ) (body rest : Bytes)
    → just (hashes n) body ≡ none
    → just (hashes n) (body ++ b'"' ∷ rest) ≡ none
unfolding just hashes
just-hashes-none zero body rest h = absurd (cc)
just-hashes-none (suc n) [] rest h = refl
just-hashes-none (suc n) (c ∷ body) rest h = elim (Bool-cases (b'#' == c)) [
  | inl y ↦ rw y (just-hashes-none n body rest (sym (rw y refl) ∙ h))
  | inr m ↦ rw m refl
]

just_close-none :
    (n c : ℕ) (body rest : Bytes)
    → just (b'"' ∷ hashes n) (c ∷ body) ≡ none
    → just (b'"' ∷ hashes n) (c ∷ (body ++ b'"' ∷ rest)) ≡ none
unfolding just
just_close-none n c body rest h = elim (Bool-cases (b'"' == c)) [
  | inl y ↦ rw y (just-hashes-none n body rest (sym (rw y refl) ∙ h))
  | inr m ↦ rw m refl
]

raw_search_body :
    (n : ℕ) (body rest : Bytes)
    → Unquoted n body
    → raw_search (b'"' ∷ hashes n) (body ++ b'"' ∷ (hashes n ++ rest)) ≡ ok (body, rest)
unfolding raw_search
raw_search_body n [] rest h = rw (raw_search, just_close n rest) refl
raw_search_body n (c ∷ body) rest h =
    rw
      (raw_search, just_close-none n c body (hashes n ++ rest) h.0, raw_search_body n body rest h.1)
      refl

hashes-All : (n : ℕ) → All (λ c. (c == b'#') ≡ true) (hashes n)
unfolding hashes
hashes-All zero = tt
hashes-All (suc n) = (refl, hashes-All n)

length-hashes : (n : ℕ) → length (hashes n) ≡ n
unfolding hashes
length-hashes zero = refl
length-hashes (suc n) = ap suc (length-hashes n)

module _ (U : Utf8) where
  raw_text_lem :
      (n : ℕ) (body rest : Bytes)
      → Unquoted n body
      → raw_text U (hashes n ++ b'"' ∷ (body ++ b'"' ∷ (hashes n ++ rest)))
        ≡ ok (U.lossy body, rest)
  unfolding raw_text raw_body
  raw_text_lem n body rest h =
      rw
        (
          collect-All (λ c. c == b'#') (hashes n) (body ++ b'"' ∷ (hashes n ++ rest)) b'"'
              (hashes-All n) refl,
          length-hashes n,
          raw_search_body n body rest h,
        )
        refl

  after_r :
      (n : ℕ) (rest : Bytes)
      → text_after_r U (hashes n ++ b'"' ∷ rest) ≡ raw_text U (hashes n ++ b'"' ∷ rest)
  unfolding text_after_r hashes
  after_r zero rest = refl
  after_r (suc n) rest = refl

  -- `text` reads a raw text with any number of hashes as the bytes between its quotes, made into
  -- UTF-8, and leaves the rest of the buffer, where no quote among these bytes has as many hashes
  -- behind it.
  pub text-hashes :
      (n : ℕ) (body rest : Bytes)
      → Unquoted n body
      → text U (b'r' ∷ (hashes n ++ b'"' ∷ (body ++ b'"' ∷ (hashes n ++ rest))))
        ≡ ok (U.lossy body, rest)
  unfolding text
  text-hashes n body rest h =
      after_r n (body ++ b'"' ∷ (hashes n ++ rest)) ∙ raw_text_lem n body rest h
