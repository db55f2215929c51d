-- ===== src/Dynamic/Json/Tokens.antt =====
-- dynamic/src/json.rs: `get_token` on what is written for numbers, `true`, `false` and `null`.
use zust.Prelude.{
  ℕ, suc, ◌^◌, ◌<◌, ◌≡◌, refl, subst, arith, false, true, ◌⊎◌, inl, inr, [], ◌∷◌, ◌++◌, some, All,
  length, take-length-append, ◌==◌,
}
use zust.Prelude.Int.{ℤ, pos, negsuc, InSigned}
use zust.Prelude.Outcome.{ok}
use zust.Dynamic.Value.{Bytes, Dynamic, i64, same_text}
use zust.Dynamic.Json.Buffer.{Text}
use zust.Dynamic.Json.Numbers.{
  token_bytes, contains, token_run, get_token, decimal, int_to_string, token_value, parse_i64,
}
use zust.Dynamic.Json.Decimal.{IsDigit, decimal-IsDigit, decimal_loop-cons, parse_i64-int_to_string}
use zust.Dynamic.Json.Read.{token_at}

-- What may stand behind a token.
abbrev pub Ends : Bytes → Type 0
Ends [] = Unit
Ends (c ∷ rest) = contains token_bytes c ≡ false

abbrev pub IsToken : Bytes → Type 0
IsToken = All (λ c. contains token_bytes c ≡ true)

token_run-Ends : (rest : Bytes) → Ends rest → token_run rest ≡ 0
unfolding token_run
token_run-Ends [] e = refl
token_run-Ends (c ∷ rest) e = rw e refl

token_run-append :
    (token rest : Bytes) → IsToken token → Ends rest → token_run (token ++ rest) ≡ length token
unfolding token_run
token_run-append [] rest h e = token_run-Ends rest e
token_run-append (c ∷ token) rest h e = rw (h.0, token_run-append token rest h.1 e) refl

pub get_token-append :
    (token rest : Bytes)
    → IsToken token
    → Ends rest
    → get_token (token ++ rest) ≡ (token, length token)
unfolding get_token
get_token-append token rest h e =
    rw (token_run-append token rest h e, take-length-append token rest) refl

-- A digit or a minus.
abbrev pub IsNum : ℕ → Type 0
IsNum c = (c ≡ b'-') ⊎ IsDigit c

num_token : (c : ℕ) → IsNum c → contains token_bytes c ≡ true
unfolding contains
num_token c h = ground arith

nums_IsToken : (s : Bytes) → All IsNum s → IsToken s
nums_IsToken [] h = tt
nums_IsToken (c ∷ s) h = (num_token c h.0, nums_IsToken s h.1)

first-IsDigit : (s : Bytes) (c : ℕ) (rest : Bytes) → s ≡ c ∷ rest → All IsDigit s → IsDigit c
first-IsDigit s c rest q h = (subst (All IsDigit) q h).0

IsDigit-IsNum : (s : Bytes) → All IsDigit s → All IsNum s
IsDigit-IsNum [] h = tt
IsDigit-IsNum (c ∷ s) h = (inr h.0, IsDigit-IsNum s h.1)

-- No letter, and no point, is in a number.
IsOther : ℕ → Type 0
IsOther k = (k ≡ b'.') ⊎ (b'9' < k)

num-IsOther : (c k : ℕ) → IsNum c → IsOther k → (c == k) ≡ false
unfolding IsOther
num-IsOther c k h o = ground arith

contains-nums : (s : Bytes) (k : ℕ) → All IsNum s → IsOther k → contains s k ≡ false
unfolding contains
contains-nums [] k h o = refl
contains-nums (c ∷ s) k h o = rw (num-IsOther c k h.0 o, contains-nums s k h.1 o) refl

same_text-nums :
    (s : Bytes) (k : ℕ) (word : Bytes) → All IsNum s → IsOther k → same_text s (k ∷ word) ≡ false
unfolding same_text
same_text-nums [] k word h o = refl
same_text-nums (c ∷ s) k word h o = rw (num-IsOther c k h.0 o) refl

token_value-nums :
    (t : Text) (s : Bytes) (z : ℤ)
    → All IsNum s
    → parse_i64 s ≡ some z
    → token_value t s ≡ ok (i64 z)
unfolding token_value IsOther
token_value-nums t s z h p =
    rw
      (
        same_text-nums s b't' (b'r' ∷ b'u' ∷ b'e' ∷ []) h (inr (omega arith)),
        same_text-nums s b'f' (b'a' ∷ b'l' ∷ b's' ∷ b'e' ∷ []) h (inr (omega arith)),
        same_text-nums s b'n' (b'u' ∷ b'l' ∷ b'l' ∷ []) h (inr (omega arith)),
        contains-nums s b'.' h (inl refl),
        contains-nums s b'e' h (inr (omega arith)),
        contains-nums s b'E' h (inr (omega arith)),
        p,
      )
      refl

int_to_string-IsNum : (z : ℤ) → All IsNum (int_to_string z)
unfolding int_to_string
int_to_string-IsNum (pos n) = IsDigit-IsNum (decimal n) (decimal-IsDigit n)
int_to_string-IsNum (negsuc n) =
    (inl refl, IsDigit-IsNum (decimal (suc n)) (decimal-IsDigit (suc n)))

-- It starts with one of these.
pub int_to_string-cons : (z : ℤ) → (c : ℕ) × (rest : Bytes) × (int_to_string z ≡ c ∷ rest) × IsNum c
unfolding int_to_string decimal
int_to_string-cons (negsuc n) = (b'-', decimal (suc n), refl, inl refl)
int_to_string-cons (pos n) =
    let (c, rest, q) = decimal_loop-cons n n [] in
    (c, rest, q, inr (first-IsDigit (decimal n) c rest q (decimal-IsDigit n)))

-- A token, read where it stands.
pub token_at-append :
    (t : Text) (token rest : Bytes) (v : Dynamic)
    → IsToken token
    → Ends rest
    → token_value t token ≡ ok v
    → token_at t (token ++ rest) ≡ ok (v, length token)
unfolding token_at
token_at-append t token rest v h e p = rw (get_token-append token rest h e, p) refl

pub token_at-int :
    (t : Text) (z : ℤ) (rest : Bytes)
    → InSigned (2 ^ 63) z
    → Ends rest
    → token_at t (int_to_string z ++ rest) ≡ ok (i64 z, length (int_to_string z))
token_at-int t z rest h e =
    token_at-append t (int_to_string z) rest (i64 z)
      (nums_IsToken (int_to_string z) (int_to_string-IsNum z)) e
      (token_value-nums t (int_to_string z) z (int_to_string-IsNum z) (parse_i64-int_to_string z h))
