-- ===== src/Dynamic/Json/Texts.antt =====
-- dynamic/src/json.rs: a text that is written is read back.
use zust.Prelude.{
  ℕ, zero, suc, ◌+◌, ◌-◌, ◌≤◌, ◌<◌, ◌≡◌, All, ◌≢◌, refl, sym, ap, ◌∙◌, subst, arith, true, false,
  [], ◌∷◌, ◌++◌, append_assoc, append-nil, length, length-append, drop-zero, drop-length-append,
  ltb, ltb→lt, lt→ltb, ◌==◌, ==_iff, Bool-cases, inl, inr, ◌⊎◌,
}
use zust.Prelude.Outcome.{ok, err}
use zust.Dynamic.Value.{Bytes}
use zust.Dynamic.Json.Strings.{
  encode_utf8, between, escape, one_char, string_loop, hex_4, escaped, escaped_all, str_to_json,
  get_string,
}
use zust.Dynamic.Json.Buffer.{unknown_escape, Text}
use zust.Dynamic.Json.Escapes.{escape_bmp}

-- How `to_json` writes a byte that `get_string` reads back: with a backslash, or as it is.
abbrev Slashed : ℕ → Type 0
Slashed c =
    (es : Bytes) × (escaped c ≡ b'\\' ∷ es)
    × ((rest : Bytes) → escape (es ++ rest) ≡ ok (c ∷ [], length es))

abbrev Bare : ℕ → Type 0
Bare c = (escaped c ≡ c ∷ []) × ((c == b'"') ≡ false) × ((c == b'\\') ≡ false)

-- The byte has an escape that `get_string` knows.
abbrev pub IsPlain : ℕ → Type 0
IsPlain c = (c ≢ 0x08) × (c ≢ 0x0c)

control :
    (c : ℕ)
    → c < 0x20
    → (c == b'\n') ≡ false
    → (c == b'\r') ≡ false
    → (c == b'\t') ≡ false
    → IsPlain c
    → escaped c ≡ b'\\' ∷ b'u' ∷ hex_4 c
unfolding escaped
control c h n r t p = ground arith

control-Slashed : (c : ℕ) → c < 0x20 → escaped c ≡ b'\\' ∷ b'u' ∷ hex_4 c → Slashed c
unfolding between encode_utf8 hex_4
control-Slashed c h e = (
  b'u' ∷ hex_4 c,
  e,
  λ rest. escape_bmp c rest (omega arith) (ground arith) ∙ rw (lt→ltb c 0x80 (omega arith)) refl,
)

bare : (c : ℕ) → (c == b'"') ≡ false → (c == b'\\') ≡ false → 0x20 < c + 1 → escaped c ≡ c ∷ []
unfolding escaped
bare c q s h = ground arith

same-Slashed : (c k : ℕ) → (c == k) ≡ true → Slashed k → Slashed c
same-Slashed c k e s = subst Slashed (sym ((==_iff c k).0 e)) s

written : (c : ℕ) → IsPlain c → Slashed c ⊎ Bare c
unfolding escape escaped
written c p = elim (Bool-cases (c == b'"')) [
  | inl e ↦ inl (same-Slashed c b'"' e (b'"' ∷ [], refl, λ rest. refl))
  | inr q ↦ elim (Bool-cases (c == b'\\')) [
    | inl e ↦ inl (same-Slashed c b'\\' e (b'\\' ∷ [], refl, λ rest. refl))
    | inr s ↦ elim (Bool-cases (c == b'\n')) [
      | inl e ↦ inl (same-Slashed c b'\n' e (b'n' ∷ [], refl, λ rest. refl))
      | inr n ↦ elim (Bool-cases (c == b'\r')) [
        | inl e ↦ inl (same-Slashed c b'\r' e (b'r' ∷ [], refl, λ rest. refl))
        | inr r ↦ elim (Bool-cases (c == b'\t')) [
          | inl e ↦ inl (same-Slashed c b'\t' e (b't' ∷ [], refl, λ rest. refl))
          | inr t ↦ elim (Bool-cases (ltb c 0x20)) [
            | inl h ↦
                inl (control-Slashed c (ltb→lt c 0x20 h) (control c (ltb→lt c 0x20 h) n r t p))
            | inr h ↦ inr (bare c q s (ground arith), q, s)
          ]
        ]
      ]
    ]
  ]
]

string_loop-slashed :
    (fuel c : ℕ) (es rest : Bytes) (pos : ℕ) (vec : Bytes)
    → ((rest : Bytes) → escape (es ++ rest) ≡ ok (c ∷ [], length es))
    → string_loop (suc fuel) (b'\\' ∷ (es ++ rest)) pos vec
      ≡ string_loop fuel rest (pos + 1 + length es) (vec ++ c ∷ [])
unfolding string_loop one_char
string_loop-slashed fuel c es rest pos vec h = rw (h rest, drop-length-append es rest) refl

string_loop-bare :
    (fuel c : ℕ) (rest : Bytes) (pos : ℕ) (vec : Bytes)
    → (c == b'"') ≡ false
    → (c == b'\\') ≡ false
    → string_loop (suc fuel) (c ∷ rest) pos vec
      ≡ string_loop fuel rest (pos + 1 + 0) (vec ++ c ∷ [])
unfolding string_loop one_char
string_loop-bare fuel c rest pos vec q s = rw (q, s, drop-zero rest) refl

-- One byte, however it is written.
string_loop-escaped :
    (fuel c : ℕ) (rest : Bytes) (pos : ℕ) (vec : Bytes)
    → IsPlain c
    → string_loop (suc fuel) (escaped c ++ rest) pos vec
      ≡ string_loop fuel rest (pos + length (escaped c)) (vec ++ c ∷ [])
string_loop-escaped fuel c rest pos vec p = elim (written c p) [
  | inl (es, e, h) ↦ rw e (
      string_loop-slashed fuel c es rest pos vec h
      ∙ ap (λ at. string_loop fuel rest at (vec ++ c ∷ [])) (omega arith))
  | inr (e, q, s) ↦ rw e (
      string_loop-bare fuel c rest pos vec q s
      ∙ ap (λ at. string_loop fuel rest at (vec ++ c ∷ [])) (omega arith))
]

same_loop :
    (k k' : ℕ) (rest : Bytes) (pos pos' : ℕ) (vec : Bytes)
    → k ≡ k'
    → pos ≡ pos'
    → string_loop k rest pos vec ≡ string_loop k' rest pos' vec
same_loop k k' rest pos pos' vec h e = rw (h, e) refl

-- The bytes of `s`, with any buffer behind them.
pub string_loop-escaped_all :
    (s rest : Bytes) (fuel pos : ℕ) (vec : Bytes)
    → All IsPlain s
    → length s ≤ fuel
    → string_loop fuel (escaped_all s ++ rest) pos vec
      ≡ string_loop (fuel - length s) rest (pos + length (escaped_all s)) (vec ++ s)
unfolding escaped_all
string_loop-escaped_all [] rest fuel pos vec p h =
    rw (append-nil vec)
      (same_loop fuel (fuel - 0) rest pos (pos + 0) vec (omega arith) (omega arith))
string_loop-escaped_all (c ∷ s) rest zero pos vec p h = absurd (omega arith)
string_loop-escaped_all (c ∷ s) rest (suc fuel) pos vec p h =
    rw
      (
        append_assoc (escaped c) (escaped_all s) rest,
        string_loop-escaped fuel c (escaped_all s ++ rest) pos vec p.0,
        string_loop-escaped_all s rest fuel (pos + length (escaped c)) (vec ++ c ∷ []) p.1
            (omega arith),
        append_assoc vec (c ∷ []) s,
        length-append (escaped c) (escaped_all s),
      )
      (same_loop (fuel - length s) (suc fuel - length (c ∷ s)) rest
        (pos + length (escaped c) + length (escaped_all s))
        (pos + (length (escaped c) + length (escaped_all s))) (vec ++ c ∷ s) (omega arith)
        (omega arith))

string_loop-quote :
    (fuel : ℕ) (rest : Bytes) (pos : ℕ) (vec : Bytes)
    → 1 ≤ fuel
    → string_loop fuel (b'"' ∷ rest) pos vec ≡ ok (vec, pos + 1)
unfolding string_loop
string_loop-quote zero rest pos vec h = absurd (omega arith)
string_loop-quote (suc fuel) rest pos vec h = refl

pub string_loop-unknown :
    (fuel x : ℕ) (rest : Bytes) (pos : ℕ) (vec : Bytes)
    → 1 ≤ fuel
    → escape (x ∷ rest) ≡ err (unknown_escape x)
    → string_loop fuel (b'\\' ∷ x ∷ rest) pos vec ≡ err (unknown_escape x)
unfolding string_loop one_char
string_loop-unknown zero x rest pos vec h e = absurd (omega arith)
string_loop-unknown (suc fuel) x rest pos vec h e = rw e refl

length-escaped : (c : ℕ) → 1 ≤ length (escaped c)
unfolding escaped hex_4
length-escaped c = ground arith

pub length-escaped_all : (s : Bytes) → length s ≤ length (escaped_all s)
unfolding escaped_all
length-escaped_all [] = omega arith
length-escaped_all (c ∷ s) =
    omega (arith, length-escaped c, length-escaped_all s, length-append (escaped c) (escaped_all s))

pub enough_fuel : (s rest : Bytes) → length s + length rest ≤ length (escaped_all s ++ rest)
enough_fuel s rest = omega (arith, length-escaped_all s, length-append (escaped_all s) rest)

-- A text in UTF-8 without the bytes 8 and 12, written with its quotes, is read back, whatever
-- follows it, and exactly its own bytes are used.
pub get_string-str_to_json :
    (t : Text) (s rest : Bytes)
    → t.valid_utf8 s ≡ true
    → All IsPlain s
    → get_string t (str_to_json s ++ rest) ≡ ok (s, length (str_to_json s))
unfolding get_string str_to_json
get_string-str_to_json t s rest u p =
    let fuel = suc (length (escaped_all s ++ b'"' ∷ rest)) + 1 in
    rw
      (
        append_assoc (escaped_all s) (b'"' ∷ []) rest,
        drop-zero (escaped_all s ++ b'"' ∷ rest),
        string_loop-escaped_all s (b'"' ∷ rest) fuel 1 [] p
            (omega (arith, enough_fuel s (b'"' ∷ rest))),
        string_loop-quote (fuel - length s) rest (1 + length (escaped_all s)) s
            (omega (arith, enough_fuel s (b'"' ∷ rest))),
        u,
        length-append (escaped_all s) (b'"' ∷ []),
      )
      (ap (λ at. ok (s, at)) (omega arith))
