-- ===== src/Dynamic/Json/Answers.antt =====
-- dynamic/src/json.rs: the reader of texts on any input.
use zust.Prelude.{
  ℕ, zero, suc, ◌+◌, ◌≤◌, ◌<◌, arith, Bool, true, false, [], ◌∷◌, ◌++◌, Option, none, some,
  drop-zero, length, length-drop, drop, ◌==◌, if◌then◌else◌,
}
use zust.Prelude.Outcome.{Outcome, ok, err, panic, stuck, ◌>>=◌}
use zust.Dynamic.Value.{Bytes}
use zust.Dynamic.Json.Buffer.{JsonErr, bad_unicode, bad_utf8, Read, Text}
use zust.Dynamic.Json.Strings.{
  from_str_radix, low_surrogate, code_point, pushed, unicode_escape, escape, one_char, string_loop,
  get_string,
}

-- The reader has an answer, an error or a value with the property `P`: it does not panic, and its
-- loops do not run out of fuel.
abbrev pub Answers : {A : Type 0} → (A → Type 0) → Outcome JsonErr A → Type 0
Answers P (ok a) = P a
Answers P (err e) = Unit
Answers P panic = ⊥
Answers P stuck = ⊥

pub bind-Answers :
    {A B : Type 0} (P : A → Type 0) (Q : B → Type 0) (r : Outcome JsonErr A)
    (f : A → Outcome JsonErr B)
    → Answers P r
    → ((a : A) → P a → Answers Q (f a))
    → Answers Q (r >>= f)
bind-Answers P Q (ok a) f h k = k a h
bind-Answers P Q (err e) f h k = tt
bind-Answers P Q panic f h k = h
bind-Answers P Q stuck f h k = h

pub Answers-mono :
    {A : Type 0} (P Q : A → Type 0) (r : Outcome JsonErr A)
    → Answers P r
    → ((a : A) → P a → Q a)
    → Answers Q r
Answers-mono P Q (ok a) h k = k a h
Answers-mono P Q (err e) h k = tt
Answers-mono P Q panic h k = h
Answers-mono P Q stuck h k = h

-- A result that used between `low` and `high` bytes.
abbrev pub Used : {A : Type 0} → ℕ → ℕ → A × ℕ → Type 0
Used low high (a, size) = (low ≤ size) × (size ≤ high)

low_surrogate-le : (n : ℕ) (rest : Bytes) → (low_surrogate n rest).1 ≤ length rest
unfolding low_surrogate
low_surrogate-le n (a ∷ b ∷ e ∷ f ∷ g ∷ h ∷ rest) = ground arith
low_surrogate-le n [] = omega arith
low_surrogate-le n (a ∷ []) = omega arith
low_surrogate-le n (a ∷ b ∷ []) = omega arith
low_surrogate-le n (a ∷ b ∷ e ∷ []) = omega arith
low_surrogate-le n (a ∷ b ∷ e ∷ f ∷ []) = omega arith
low_surrogate-le n (a ∷ b ∷ e ∷ f ∷ g ∷ []) = omega arith

code_point-le : (n : ℕ) (rest : Bytes) → (code_point n rest).1 ≤ length rest
unfolding code_point
code_point-le n rest = ground (arith, low_surrogate-le n rest)

pub option-Answers :
    {A : Type 0} (P : A → Type 0) (o : Option ℕ) (e : JsonErr) (f : ℕ → Outcome JsonErr A)
    → ((n : ℕ) → Answers P (f n))
    → Answers P (elim o [ none ↦ err e | some n ↦ f n ])
option-Answers P none e f h = tt
option-Answers P (some n) e f h = h n

unicode_escape-Answers : (rest : Bytes) → Answers (Used 4 (length rest)) (unicode_escape rest)
unfolding unicode_escape
unicode_escape-Answers (e ∷ f ∷ g ∷ h ∷ rest) =
    option-Answers (Used 4 (suc (suc (suc (suc (length rest))))))
      (from_str_radix (e ∷ f ∷ g ∷ h ∷ [])) bad_unicode
      (λ n. let (code, more) = code_point n rest in ok (pushed code, 4 + more))
      λ n. (omega arith, omega (arith, code_point-le n rest))
unicode_escape-Answers [] = tt
unicode_escape-Answers (e ∷ []) = tt
unicode_escape-Answers (e ∷ f ∷ []) = tt
unicode_escape-Answers (e ∷ f ∷ g ∷ []) = tt

escape_u :
    (rest : Bytes)
    → Answers
        (Used 1 (suc (length rest)))
        (unicode_escape rest >>= λ (bytes, used). ok (bytes, 1 + used))
escape_u rest =
    bind-Answers (Used 4 (length rest)) (Used 1 (suc (length rest))) (unicode_escape rest)
      (λ (bytes, used). ok (bytes, 1 + used)) (unicode_escape-Answers rest)
      λ a u. (omega arith, omega arith)

pub if-Answers :
    {A : Type 0} (P : A → Type 0) (b : Bool) (x y : Outcome JsonErr A)
    → Answers P x
    → Answers P y
    → Answers P (if b then x else y)
if-Answers P true x y h k = h
if-Answers P false x y h k = k

escape-Answers : (rest : Bytes) → Answers (Used 1 (length rest)) (escape rest)
unfolding escape
escape-Answers [] = tt
escape-Answers (c ∷ rest) =
    let P = Used {A = Bytes} 1 (suc (length rest)) in
    let one : (x : ℕ) → P (x ∷ [], 1) = λ x. (omega arith, omega arith) in
    if-Answers P (c == b'\\') _ _ (one b'\\') (
      if-Answers P (c == b'"') _ _ (one b'"') (
        if-Answers P (c == b'r') _ _ (one b'\r') (
          if-Answers P (c == b'n') _ _ (one b'\n') (
            if-Answers P (c == b't') _ _ (one b'\t')
              (if-Answers P (c == b'u') _ _ (escape_u rest) tt)))))

pub between-Answers :
    {A : Type 0} (low high low' high' : ℕ) (r : Read A)
    → Answers (Used low' high') r
    → low ≤ low'
    → high' ≤ high
    → Answers (Used low high) r
between-Answers low high low' high' r h l k =
    Answers-mono (Used low' high') (Used low high) r h λ a u. (omega arith, omega arith)

one_char-Answers : (c : ℕ) (rest : Bytes) → Answers (Used 0 (length rest)) (one_char c rest)
unfolding one_char
one_char-Answers c rest =
    if-Answers (Used 0 (length rest)) (c == b'\\') _ _
      (between-Answers 0 (length rest) 1 (length rest) (escape rest) (escape-Answers rest)
        (omega arith) (omega arith))
      (omega arith, omega arith)

string_loop-Answers :
    (fuel : ℕ) (rest : Bytes) (at : ℕ) (vec : Bytes)
    → length rest < fuel
    → Answers (Used at (at + length rest)) (string_loop fuel rest at vec)
unfolding string_loop
string_loop-Answers zero rest at vec h = absurd (omega arith)
string_loop-Answers (suc fuel) [] at vec h = (omega arith, omega arith)
string_loop-Answers (suc fuel) (c ∷ rest) at vec h =
    if-Answers (Used at (at + suc (length rest))) (c == b'"') _ _ (omega arith, omega arith)
      (bind-Answers (Used 0 (length rest)) (Used at (at + suc (length rest))) (one_char c rest)
        (λ (bytes, used). string_loop fuel (drop used rest) (at + 1 + used) (vec ++ bytes))
        (one_char-Answers c rest)
        λ (bytes, used) (low, high).
          between-Answers at (at + suc (length rest)) (at + 1 + used) _
            (string_loop fuel (drop used rest) (at + 1 + used) (vec ++ bytes))
            (string_loop-Answers fuel (drop used rest) (at + 1 + used) (vec ++ bytes)
              (omega (arith, length-drop used rest)))
            (omega arith) (omega (arith, length-drop used rest)))

pub get_string-Answers :
    (t : Text) (c : ℕ) (rest : Bytes)
    → Answers (Used 1 (suc (length rest))) (get_string t (c ∷ rest))
unfolding get_string
get_string-Answers t c rest =
    bind-Answers (Used 1 (1 + length rest)) (Used 1 (suc (length rest)))
      (string_loop (suc (length rest) + 1) (drop 0 rest) 1 [])
      (λ (vec, at). if t.valid_utf8 vec then ok (vec, at) else err bad_utf8)
      (rw (drop-zero rest) (string_loop-Answers (suc (length rest) + 1) rest 1 [] (omega arith)))
      λ (vec, at) used.
        if-Answers (Used 1 (suc (length rest))) (t.valid_utf8 vec) (ok (vec, at)) (err bad_utf8)
          (omega arith, omega arith) tt
