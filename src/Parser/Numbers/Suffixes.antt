-- ===== src/Parser/Numbers/Suffixes.antt =====
-- parser/src/lib.rs: the end of an integer literal: its suffix and what stands behind it.
use zust.Prelude.{
  ℕ, ◌-◌, ◌^◌, ◌%◌, ◌≡◌, refl, sym, subst, ◌∙◌, arith, Bool, true, false, not, ◌&&◌, ◌||◌, Option,
  none, some, List, [], ◌∷◌, ◌++◌, Bool-cases, inl, inr, ◌==◌,
}
use zust.Dynamic.Value.{Bytes, Dynamic, u8, i8, u16, i16, u32, i32, u64, i64}
use zust.Dynamic.Types.{Ty}
use zust.Parser.Reading.{contains, not_ident, just, ends_here}
use zust.Parser.Numbers.{
  native_types, is_digit, suffix_loop, numeric_suffix, as_signed, fraction, exponent,
}

-- How an integer may end.
pub data Suffix : Type 0 where
  unsuffixed as_i8 as_i16 as_i32 as_i64 as_isize as_u8 as_u16 as_u32 as_u64 as_usize : Suffix

unfoldable pub suffix_name : Suffix → Bytes
suffix_name unsuffixed = []
suffix_name as_i8 = b'i' ∷ b'8' ∷ []
suffix_name as_i16 = b'i' ∷ b'1' ∷ b'6' ∷ []
suffix_name as_i32 = b'i' ∷ b'3' ∷ b'2' ∷ []
suffix_name as_i64 = b'i' ∷ b'6' ∷ b'4' ∷ []
suffix_name as_isize = b'i' ∷ b's' ∷ b'i' ∷ b'z' ∷ b'e' ∷ []
suffix_name as_u8 = b'u' ∷ b'8' ∷ []
suffix_name as_u16 = b'u' ∷ b'1' ∷ b'6' ∷ []
suffix_name as_u32 = b'u' ∷ b'3' ∷ b'2' ∷ []
suffix_name as_u64 = b'u' ∷ b'6' ∷ b'4' ∷ []
suffix_name as_usize = b'u' ∷ b's' ∷ b'i' ∷ b'z' ∷ b'e' ∷ []

abbrev pub suffix_type : Suffix → Option Ty
suffix_type unsuffixed = none
suffix_type as_i8 = some Ty.i8
suffix_type as_i16 = some Ty.i16
suffix_type as_i32 = some Ty.i32
suffix_type as_i64 = some Ty.i64
suffix_type as_isize = some Ty.i64
suffix_type as_u8 = some Ty.u8
suffix_type as_u16 = some Ty.u16
suffix_type as_u32 = some Ty.u32
suffix_type as_u64 = some Ty.u64
suffix_type as_usize = some Ty.u64

-- The largest number that is taken: for a signed type the size of its least value.
unfoldable pub limit : Suffix → ℕ
limit unsuffixed = 2 ^ 63
limit as_i8 = 2 ^ 7
limit as_i16 = 2 ^ 15
limit as_i32 = 2 ^ 31
limit as_i64 = 2 ^ 63
limit as_isize = 2 ^ 63
limit as_u8 = 2 ^ 8 - 1
limit as_u16 = 2 ^ 16 - 1
limit as_u32 = 2 ^ 32 - 1
limit as_u64 = 2 ^ 64 - 1
limit as_usize = 2 ^ 64 - 1

unfoldable pub with_suffix : Suffix → ℕ → Dynamic
with_suffix unsuffixed n = i64 (as_signed (2 ^ 63) n)
with_suffix as_i8 n = i8 (as_signed (2 ^ 7) n)
with_suffix as_i16 n = i16 (as_signed (2 ^ 15) n)
with_suffix as_i32 n = i32 (as_signed (2 ^ 31) n)
with_suffix as_i64 n = i64 (as_signed (2 ^ 63) n)
with_suffix as_isize n = i64 (as_signed (2 ^ 63) n)
with_suffix as_u8 n = u8 (n % 2 ^ 8)
with_suffix as_u16 n = u16 (n % 2 ^ 16)
with_suffix as_u32 n = u32 (n % 2 ^ 32)
with_suffix as_u64 n = u64 (n % 2 ^ 64)
with_suffix as_usize n = u64 (n % 2 ^ 64)

-- A test that holds of all bytes of a list holds of one that the list contains.
abbrev pub every : (ℕ → Bool) → List ℕ → Bool
every p [] = true
every p (x ∷ xs) = p x && every p xs

pub byte→eq : (x c : ℕ) → (x == c) ≡ true → x ≡ c
byte→eq x c h = ground arith

pub front : (a b : Bool) → (a && b) ≡ true → (a ≡ true) × (b ≡ true)
front true b h = (refl, h)
front false b h = absurd (cc)

pub every-contains :
    (p : ℕ → Bool) (l : List ℕ) (c : ℕ) → every p l ≡ true → contains l c ≡ true → p c ≡ true
unfolding contains
every-contains p [] c h k = absurd (cc)
every-contains p (x ∷ l) c h k = elim (Bool-cases (x == c)) [
  | inl e ↦ subst (λ y. p y ≡ true) (byte→eq x c e) (front (p x) (every p l) h).0
  | inr n ↦ every-contains p l c (front (p x) (every p l) h).1 (sym (rw n refl) ∙ k)
]

-- A byte that goes on neither with the number nor with its prefix.
abbrev pub quiet : ℕ → Bool
quiet c =
    not (is_digit c)
    && not (c == b'e' || c == b'E')
    && not (c == b'b' || c == b'B')
    && not (c == b'o' || c == b'O')
    && not (c == b'x' || c == b'X')

abbrev pub no_suffix : ℕ → Bool
no_suffix c = not (b'i' == c) && not (b'u' == c) && not (b'f' == c)

abbrev pub Quiet : ℕ → Type 0
Quiet c =
    (is_digit c ≡ false)
    × ((c == b'e' || c == b'E') ≡ false)
    × ((c == b'b' || c == b'B') ≡ false)
    × ((c == b'o' || c == b'O') ≡ false)
    × ((c == b'x' || c == b'X') ≡ false)

pub nots :
    (a b c d e : Bool)
    → (not a && not b && not c && not d && not e) ≡ true
    → (a ≡ false) × (b ≡ false) × (c ≡ false) × (d ≡ false) × (e ≡ false)
nots a b c d e h = (ground arith, ground arith, ground arith, ground arith, ground arith)

pub not_ident-Quiet : (c : ℕ) → contains not_ident c ≡ true → Quiet c
not_ident-Quiet c h =
    nots (is_digit c) (c == b'e' || c == b'E') (c == b'b' || c == b'B') (c == b'o' || c == b'O')
      (c == b'x' || c == b'X') (every-contains quiet not_ident c refl h)

-- What stands behind the digits.
abbrev pub Behind : Bytes → Type 0
Behind [] = ⊥
Behind (h ∷ t) = Quiet h × ((h == b'.') ≡ false)

pub suffix-Behind :
    (s : Suffix) (c : ℕ) (rest : Bytes)
    → contains not_ident c ≡ true
    → (c == b'.') ≡ false
    → Behind (suffix_name s ++ c ∷ rest)
unfolding suffix_name
suffix-Behind unsuffixed c rest h d = (not_ident-Quiet c h, d)
suffix-Behind as_i8 c rest h d = ((refl, refl, refl, refl, refl), refl)
suffix-Behind as_i16 c rest h d = ((refl, refl, refl, refl, refl), refl)
suffix-Behind as_i32 c rest h d = ((refl, refl, refl, refl, refl), refl)
suffix-Behind as_i64 c rest h d = ((refl, refl, refl, refl, refl), refl)
suffix-Behind as_isize c rest h d = ((refl, refl, refl, refl, refl), refl)
suffix-Behind as_u8 c rest h d = ((refl, refl, refl, refl, refl), refl)
suffix-Behind as_u16 c rest h d = ((refl, refl, refl, refl, refl), refl)
suffix-Behind as_u32 c rest h d = ((refl, refl, refl, refl, refl), refl)
suffix-Behind as_u64 c rest h d = ((refl, refl, refl, refl, refl), refl)
suffix-Behind as_usize c rest h d = ((refl, refl, refl, refl, refl), refl)

pub fraction-Behind : (t : Bytes) → Behind t → fraction t ≡ ([], t)
unfolding fraction
fraction-Behind [] h = refl
fraction-Behind (c ∷ []) h = refl
fraction-Behind (c ∷ d ∷ t) h = rw h.1 refl

pub exponent-Behind : (t : Bytes) → Behind t → exponent t ≡ ([], t)
unfolding exponent
exponent-Behind [] h = refl
exponent-Behind (c ∷ t) h = rw h.0.1 refl

-- No name of a list starts with the byte.
abbrev pub NoName : ℕ → List (Bytes × Ty) → Type 0
NoName c [] = Unit
NoName c (([], ty) ∷ types) = ⊥
NoName c ((p ∷ name, ty) ∷ types) = ((p == c) ≡ false) × NoName c types

pub just-first :
    (p c : ℕ) (name rest : Bytes) → (p == c) ≡ false → just (p ∷ name) (c ∷ rest) ≡ none
unfolding just
just-first p c name rest h = rw h refl

pub suffix_loop-none :
    (types : List (Bytes × Ty)) (c : ℕ) (rest : Bytes)
    → NoName c types
    → suffix_loop types (c ∷ rest) ≡ (none, c ∷ rest)
unfolding suffix_loop
suffix_loop-none [] c rest h = refl
suffix_loop-none (([], ty) ∷ types) c rest h = absurd h
suffix_loop-none ((p ∷ name, ty) ∷ types) c rest h =
    rw (suffix_loop, just-first p c name rest h.0) (suffix_loop-none types c rest h.1)

pub numeric_suffix-name :
    (s : Suffix) (c : ℕ) (rest : Bytes)
    → contains not_ident c ≡ true
    → numeric_suffix (suffix_name s ++ c ∷ rest) ≡ (suffix_type s, c ∷ rest)
unfolding suffix_name numeric_suffix suffix_loop just ends_here
numeric_suffix-name unsuffixed c rest h =
    let (i, u, f) =
      three (b'i' == c) (b'u' == c) (b'f' == c) (every-contains no_suffix not_ident c refl h) in
    suffix_loop-none native_types c rest
      (i, (i, (i, (i, (i, (u, (u, (u, (u, (u, (f, (f, (f, tt)))))))))))))
  where
    three :
        (a b c : Bool) → (not a && not b && not c) ≡ true → (a ≡ false) × (b ≡ false) × (c ≡ false)
    three a b c h = (ground arith, ground arith, ground arith)
numeric_suffix-name as_i8 c rest h = rw h refl
numeric_suffix-name as_i16 c rest h = rw h refl
numeric_suffix-name as_i32 c rest h = rw h refl
numeric_suffix-name as_i64 c rest h = rw h refl
numeric_suffix-name as_isize c rest h = rw h refl
numeric_suffix-name as_u8 c rest h = rw h refl
numeric_suffix-name as_u16 c rest h = rw h refl
numeric_suffix-name as_u32 c rest h = rw h refl
numeric_suffix-name as_u64 c rest h = rw h refl
numeric_suffix-name as_usize c rest h = rw h refl
