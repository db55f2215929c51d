-- ===== src/Compiler/Consts/Replaced.antt =====
-- compiler/src/symbol.rs: a replaced type parameter does not occur any more.
use Prim.Native.String.{String}
use text.Mathlib.Text.{◌==◌ as str_eq}
use text.Mathlib.TextEquality.{eq_iff}
use zust.Prelude.{
  ℕ, zero, suc, ◌≡◌, sym, ap, subst, ◌∙◌, false, none, some, Bool-cases, Option-cases, inl, inr,
}
use zust.Prelude.Int.{ℤ}
use zust.Prelude.Outcome.{Outcome, ok, err, panic, ◌>>=◌}
use zust.Dynamic.Types.{
  Ty, any, void, bool, u8, i8, u16, i16, u32, i32, u64, i64, f16, f32, f64, str, map, iter, list,
  ident, const_int, const_binary, tuple, struct, vec, array, array_param, fn, symbol, Tys, nil,
  cons, Members, end, member,
}
use zust.Compiler.Consts.{
  Maybe, eval_const_int_type, substitute_type, substitute_types, substitute_members, or_type,
  argument, position, at,
}
use zust.Compiler.Consts.Laws.{both_ok}

-- The name does not stand for a parameter anywhere in a type.
unfoldable mutual
  pub Absent : String → Ty → Type 0
  Absent n (ident name nil) = str_eq name n ≡ false
  Absent n (ident name (cons t ts)) = Absent n t × Absents n ts
  Absent n (struct ps members) = Absents n ps × AbsentMembers n members
  Absent n (list elem) = Absent n elem
  Absent n (vec elem len) = Absent n elem
  Absent n (array elem len) = Absent n elem
  Absent n (array_param elem len) = Absent n elem × Absent n len
  Absent n (const_binary op left right) = Absent n left × Absent n right
  Absent n (fn tys ret) = Absents n tys × Absent n ret
  Absent n (symbol id nested) = Absents n nested
  Absent n (tuple items) = Absents n items
  Absent n ty = Unit {0}

  pub Absents : String → Tys → Type 0
  Absents n nil = Unit {0}
  Absents n (cons t ts) = Absent n t × Absents n ts

  pub AbsentMembers : String → Members → Type 0
  AbsentMembers n end = Unit {0}
  AbsentMembers n (member name t rest) = Absent n t × AbsentMembers n rest

ok_injective : {A : Type 0} {a b : A} → ◌≡◌ {A = Maybe A} (ok a) (ok b) → a ≡ b
ok_injective e = cc

-- One and two steps that succeed, and the constructor behind them.
one_step :
    {A B : Type 0} (m : Maybe A) (c : A → B) (b : B)
    → (m >>= λ a. ok (c a)) ≡ ok b
    → (a : A) × (m ≡ ok a) × (c a ≡ b)
one_step m c b h = let (a, e, h') = both_ok m _ b h in (a, e, ok_injective h')

two_steps :
    {A B C : Type 0} (m : Maybe A) (l : Maybe B) (c : A → B → C) (r : C)
    → (m >>= λ a. l >>= λ b. ok (c a b)) ≡ ok r
    → (a : A) × (b : B) × (m ≡ ok a) × (l ≡ ok b) × (c a b ≡ r)
two_steps m l c r h =
    let (a, e, h') = both_ok m _ r h in
    let (b, f, h'') = both_ok l _ r h' in (a, b, e, f, ok_injective h'')

at-Absent :
    (n : String) (args : Tys) (i : ℕ) (t : Ty) → Absents n args → at args i ≡ ok t → Absent n t
unfolding at Absent
at-Absent n nil i t h e = cc
at-Absent n (cons u us) zero t (h, hs) e = subst (Absent n) (ok_injective e) h
at-Absent n (cons u us) (suc i) t (h, hs) e = at-Absent n us i t hs e

module _ (params args : Tys) (n : String) (j : ℕ) (known : position params n ≡ some j)
    (absent : Absents n args) where
  -- A name that is no parameter is not `n`.
  other_name : (name : String) → position params name ≡ none → str_eq name n ≡ false
  other_name name e = elim (Bool-cases (str_eq name n)) [
    | inl same ↦ cc (ap (position params) (((eq_iff name n).0) same), known, e)
    | inr differs ↦ differs
  ]

  or_type-Absent : (r : Maybe ℤ) (t u : Ty) → Absent n t → or_type r t ≡ ok u → Absent n u
  unfolding Absent
  or_type-Absent (ok v) t u h e = subst (Absent n) (ok_injective e) tt
  or_type-Absent (err v) t u h e = subst (Absent n) (ok_injective e) h
  or_type-Absent panic t u h e = cc
  or_type-Absent Outcome.stuck t u h e = cc

  kept_name :
      (name : String)
      → position params name ≡ none
      → substitute_type params args (ident name nil) ≡ ok (ident name nil)
  unfolding substitute_type
  kept_name name e = ap (argument args name) e

  replaced_name :
      (name : String) (i : ℕ)
      → position params name ≡ some i
      → substitute_type params args (ident name nil) ≡ at args i
  unfolding substitute_type
  replaced_name name i e = ap (argument args name) e

  mutual
    unfolding substitute_type Absent

    Absent-type : (ty ty' : Ty) → substitute_type params args ty ≡ ok ty' → Absent n ty'
    Absent-type (ident name nil) ty' e = elim (Option-cases (position params name)) [
      | inl new ↦
          subst (Absent n) (ok_injective (sym (kept_name name new) ∙ e)) (other_name name new)
      | inr (i, old) ↦ at-Absent n args i ty' absent (sym (replaced_name name i old) ∙ e)
    ]
    Absent-type (ident name (cons t ts)) ty' e =
        let (a, b, ea, eb, same) =
          two_steps (substitute_type params args t) (substitute_types params args ts)
            (λ a b. ident name (cons a b)) ty' e in
        subst (Absent n) same (Absent-type t a ea, Absents-types ts b eb)
    Absent-type (struct ps members) ty' e =
        let (a, b, ea, eb, same) =
          two_steps (substitute_types params args ps) (substitute_members params args members)
            (struct) ty' e in
        subst (Absent n) same (Absents-types ps a ea, AbsentMembers-members members b eb)
    Absent-type (list elem) ty' e =
        let (a, ea, same) = one_step (substitute_type params args elem) (list) ty' e in
        subst (Absent n) same (Absent-type elem a ea)
    Absent-type (vec elem len) ty' e =
        let (a, ea, same) = one_step (substitute_type params args elem) (λ a. vec a len) ty' e in
        subst (Absent n) same (Absent-type elem a ea)
    Absent-type (array elem len) ty' e =
        let (a, ea, same) = one_step (substitute_type params args elem) (λ a. array a len) ty' e in
        subst (Absent n) same (Absent-type elem a ea)
    Absent-type (array_param elem len) ty' e =
        let (a, b, ea, eb, same) =
          two_steps (substitute_type params args elem) (substitute_type params args len)
            (array_param) ty' e in
        subst (Absent n) same (Absent-type elem a ea, Absent-type len b eb)
    Absent-type (fn tys ret) ty' e =
        let (a, b, ea, eb, same) =
          two_steps (substitute_types params args tys) (substitute_type params args ret) (fn) ty'
            e in
        subst (Absent n) same (Absents-types tys a ea, Absent-type ret b eb)
    Absent-type (symbol id nested) ty' e =
        let (a, ea, same) =
          one_step (substitute_types params args nested) (λ a. symbol id a) ty' e in
        subst (Absent n) same (Absents-types nested a ea)
    Absent-type (tuple items) ty' e =
        let (a, ea, same) = one_step (substitute_types params args items) (tuple) ty' e in
        subst (Absent n) same (Absents-types items a ea)
    Absent-type (const_binary op left right) ty' e =
        let (a, ea, e') = both_ok (substitute_type params args left) _ ty' e in
        let (b, eb, same) = both_ok (substitute_type params args right) _ ty' e' in
        or_type-Absent (eval_const_int_type (const_binary op a b)) (const_binary op a b) ty'
          (Absent-type left a ea, Absent-type right b eb) same
    Absent-type any ty' e = subst (Absent n) (ok_injective e) tt
    Absent-type void ty' e = subst (Absent n) (ok_injective e) tt
    Absent-type bool ty' e = subst (Absent n) (ok_injective e) tt
    Absent-type u8 ty' e = subst (Absent n) (ok_injective e) tt
    Absent-type i8 ty' e = subst (Absent n) (ok_injective e) tt
    Absent-type u16 ty' e = subst (Absent n) (ok_injective e) tt
    Absent-type i16 ty' e = subst (Absent n) (ok_injective e) tt
    Absent-type u32 ty' e = subst (Absent n) (ok_injective e) tt
    Absent-type i32 ty' e = subst (Absent n) (ok_injective e) tt
    Absent-type u64 ty' e = subst (Absent n) (ok_injective e) tt
    Absent-type i64 ty' e = subst (Absent n) (ok_injective e) tt
    Absent-type f16 ty' e = subst (Absent n) (ok_injective e) tt
    Absent-type f32 ty' e = subst (Absent n) (ok_injective e) tt
    Absent-type f64 ty' e = subst (Absent n) (ok_injective e) tt
    Absent-type str ty' e = subst (Absent n) (ok_injective e) tt
    Absent-type map ty' e = subst (Absent n) (ok_injective e) tt
    Absent-type iter ty' e = subst (Absent n) (ok_injective e) tt
    Absent-type (const_int v) ty' e = subst (Absent n) (ok_injective e) tt

    Absents-types : (ts ts' : Tys) → substitute_types params args ts ≡ ok ts' → Absents n ts'
    Absents-types nil ts' e = subst (Absents n) (ok_injective e) tt
    Absents-types (cons t ts) ts' e =
        let (a, b, ea, eb, same) =
          two_steps (substitute_type params args t) (substitute_types params args ts) cons ts' e in
        subst (Absents n) same (Absent-type t a ea, Absents-types ts b eb)

    AbsentMembers-members :
        (ms ms' : Members) → substitute_members params args ms ≡ ok ms' → AbsentMembers n ms'
    AbsentMembers-members end ms' e = subst (AbsentMembers n) (ok_injective e) tt
    AbsentMembers-members (member name t rest) ms' e =
        let (a, b, ea, eb, same) =
          two_steps (substitute_type params args t) (substitute_members params args rest)
            (member name) ms' e in
        subst (AbsentMembers n) same (Absent-type t a ea, AbsentMembers-members rest b eb)

  -- Behind a replacement that succeeds, a parameter does not occur, where it does not occur in the
  -- types that stand for the parameters.
  pub substitute_type-Absent :
      (ty ty' : Ty) → substitute_type params args ty ≡ ok ty' → Absent n ty'
  substitute_type-Absent = Absent-type
