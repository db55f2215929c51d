-- ===== src/Dynamic/Json/Refused.antt =====
-- dynamic/src/json.rs: the texts that are written and not read back.
use zust.Prelude.{
  ℕ, suc, ◌+◌, ◌-◌, ◌≡◌, All, refl, sym, ap, arith, [], ◌∷◌, ◌++◌, append_assoc, length, drop-zero,
  inl, inr, ◌⊎◌,
}
use zust.Prelude.Outcome.{err}
use zust.Dynamic.Value.{Bytes}
use zust.Dynamic.Json.Strings.{escape, escaped, escaped_all, str_to_json, get_string}
use zust.Dynamic.Json.Buffer.{unknown_escape, Text}
use zust.Dynamic.Json.Texts.{IsPlain, string_loop-escaped_all, string_loop-unknown, enough_fuel}

-- The byte 8, or 12, and the letter that it is written with.
abbrev pub Refused : ℕ → ℕ → Type 0
Refused c letter = ((c ≡ 0x08) × (letter ≡ b'b')) ⊎ ((c ≡ 0x0c) × (letter ≡ b'f'))

escaped-Refused : (c letter : ℕ) → Refused c letter → escaped c ≡ b'\\' ∷ letter ∷ []
unfolding escaped
escaped-Refused c letter (inl (e, l)) = rw (e, l) refl
escaped-Refused c letter (inr (e, l)) = rw (e, l) refl

escape-Refused :
    (c letter : ℕ) (rest : Bytes)
    → Refused c letter
    → escape (letter ∷ rest) ≡ err (unknown_escape letter)
unfolding escape
escape-Refused c letter rest (inl (e, l)) = rw l refl
escape-Refused c letter rest (inr (e, l)) = rw l refl

escaped_all-append : (s s' : Bytes) → escaped_all (s ++ s') ≡ escaped_all s ++ escaped_all s'
unfolding escaped_all
escaped_all-append [] s' = refl
escaped_all-append (c ∷ s) s' =
    rw (escaped_all-append s s') (sym (append_assoc (escaped c) (escaped_all s) (escaped_all s')))

bytes_before :
    (s s' rest : Bytes) (c letter : ℕ)
    → Refused c letter
    → (escaped_all (s ++ c ∷ s') ++ b'"' ∷ []) ++ rest
      ≡ escaped_all s ++ b'\\' ∷ letter ∷ (escaped_all s' ++ b'"' ∷ rest)
unfolding escaped_all
bytes_before s s' rest c letter r =
    rw
      (
        escaped_all-append s (c ∷ s'),
        append_assoc (escaped_all s) (escaped_all (c ∷ s')) (b'"' ∷ []),
        append_assoc (escaped_all s) (escaped_all (c ∷ s') ++ b'"' ∷ []) rest,
        escaped-Refused c letter r,
      )
      (ap (λ t. escaped_all s ++ b'\\' ∷ letter ∷ t)
        (append_assoc (escaped_all s') (b'"' ∷ []) rest))

-- A text with a byte 8 or 12 is written with `\b` or `\f`, which `get_string` refuses as an
-- unknown escape, whatever stands behind the first such byte.
pub get_string-refuses :
    (t : Text) (s s' rest : Bytes) (c letter : ℕ)
    → All IsPlain s
    → Refused c letter
    → get_string t (str_to_json (s ++ c ∷ s') ++ rest) ≡ err (unknown_escape letter)
unfolding get_string str_to_json
get_string-refuses t s s' rest c letter p r =
    let behind = letter ∷ (escaped_all s' ++ b'"' ∷ rest) in
    let fuel = suc (length (escaped_all s ++ b'\\' ∷ behind)) + 1 in
    rw
      (
        bytes_before s s' rest c letter r,
        drop-zero (escaped_all s ++ b'\\' ∷ behind),
        string_loop-escaped_all s (b'\\' ∷ behind) fuel 1 [] p
            (omega (arith, enough_fuel s (b'\\' ∷ behind))),
        string_loop-unknown (fuel - length s) letter (escaped_all s' ++ b'"' ∷ rest)
            (1 + length (escaped_all s)) s (omega (arith, enough_fuel s (b'\\' ∷ behind)))
            (escape-Refused c letter _ r),
      )
      refl
