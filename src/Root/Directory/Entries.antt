-- ===== src/Root/Directory/Entries.antt =====
-- root/src/directory.rs: the names on a path, and the directories that they are in.
use zust.Prelude.{
  suc, ◌+◌, ◌≤◌, ◌≡◌, refl, sym, ap, ◌∙◌, arith, Bool, true, false, ◌&&◌, List, [], ◌∷◌, ◌++◌,
  length, append_assoc, length-append, All, Bool-cases, ◌⊎◌, inl, inr,
}
use zust.Dynamic.Value.{Bytes, same_text}
use zust.Dynamic.Texts.{same_text→eq, same_text_refl}
use zust.Root.Paths.{slash, is_empty, is_internal_key, push_name}
use zust.Root.Paths.Names.{IsName, join, join_from, join-injective}
use zust.Root.Directory.Adding.{enters, same_names}
use zust.Root.Bits.{rest_bit}

-- A name on the path of some names has the rest of them behind it.
pub enters→eq :
    (cs q : List Bytes) (d : Bytes) → enters cs q d ≡ true → (r : List Bytes) × (q ++ d ∷ r ≡ cs)
unfolding enters
enters→eq [] q d h = absurd (cc)
enters→eq (x ∷ cs) [] d h = (cs, rw (same_text→eq x d h) refl)
enters→eq (x ∷ cs) (y ∷ q) d h = elim (Bool-cases (same_text x y)) [
  | inl e ↦
      let (r, k) = enters→eq cs q d (rest_bit (same_text x y) (enters cs q d) h) in
      let e' = same_text→eq x y e in (r, cc)
  | inr n ↦ absurd (cc)
]

pub enters-append : (q : List Bytes) (d : Bytes) (r : List Bytes) → enters (q ++ d ∷ r) q d ≡ true
unfolding enters
enters-append [] d r = same_text_refl d
enters-append (y ∷ q) d r = rw (same_text_refl y) (enters-append q d r)

-- A key that has a path before it has every name of the path.
pub enters-below :
    (cs q : List Bytes) (d : Bytes) (ps : List Bytes) (c : Bytes)
    → enters cs ps c ≡ true
    → enters ps q d ≡ true
    → enters cs q d ≡ true
enters-below cs q d ps c h k =
    let (r, e) = enters→eq cs ps c h in
    let (t, f) = enters→eq ps q d k in
    rw (← e, ← f, append_assoc q (d ∷ t) (c ∷ r)) (enters-append q d (t ++ c ∷ r))

-- The last name of a path, or one before it.
pub enters-snoc :
    (ps q : List Bytes) (c d : Bytes)
    → enters (ps ++ c ∷ []) q d ≡ true
    → ((same_names ps q && same_text c d) ≡ true) ⊎ (enters ps q d ≡ true)
unfolding enters same_names
enters-snoc [] [] c d h = inl (ground arith)
enters-snoc [] (y ∷ q) c d h = absurd (nothing (same_text c y) h)
  where
    nothing : (a : Bool) → (a && false) ≡ true → ⊥
    nothing a h = ground arith
enters-snoc (x ∷ ps) [] c d h = inr h
enters-snoc (x ∷ ps) (y ∷ q) c d h = elim (Bool-cases (same_text x y)) [
  | inl e ↦ rw e (enters-snoc ps q c d (h' e))
  | inr n ↦ absurd (cc)
]
  where
    h' : same_text x y ≡ true → enters (ps ++ c ∷ []) q d ≡ true
    h' e = cc

pub nothing_behind : (ps : List Bytes) (d : Bytes) → enters ps ps d ≡ true → ⊥
unfolding enters
nothing_behind [] d h = cc
nothing_behind (x ∷ ps) d h = nothing_behind ps d (rest_bit (same_text x x) (enters ps ps d) h)

pub empty-join : (ps : List Bytes) → All IsName ps → is_empty (join ps) ≡ true → ps ≡ []
empty-join ps h e = join-injective ps [] h tt (empty (join ps) e)
  where
    empty : (p : Bytes) → is_empty p ≡ true → p ≡ []
    empty [] e = refl
    empty (x ∷ p) e = absurd (cc)

pub length-push_name : (p c : Bytes) → is_empty c ≡ false → suc (length p) ≤ length (push_name p c)
unfolding push_name
length-push_name p [] h = absurd (cc)
length-push_name [] (x ∷ c) h = omega arith
length-push_name (y ∷ p) (x ∷ c) h = omega (arith, length-append (y ∷ p) (slash ∷ x ∷ c))

pub length-join_from :
    (p : Bytes) (cs : List Bytes) → All IsName cs → length p + length cs ≤ length (join_from p cs)
length-join_from p [] h = omega arith
length-join_from p (c ∷ cs) h =
    omega (arith, length-push_name p c h.0.0, length-join_from (push_name p c) cs h.1)

-- No directory on the path is spelled like a key of the index.
abbrev pub Outside : List Bytes → Type 0
Outside cs = (q r : List Bytes) → q ++ r ≡ cs → is_internal_key (join q) ≡ false

pub Outside-snoc : (ps : List Bytes) (c : Bytes) → Outside (ps ++ c ∷ []) → Outside ps
Outside-snoc ps c o q r e =
    o q (r ++ c ∷ []) (sym (append_assoc q r (c ∷ [])) ∙ ap (λ xs. xs ++ c ∷ []) e)

pub length-snoc : (ps : List Bytes) (c : Bytes) → length (ps ++ c ∷ []) ≡ suc (length ps)
length-snoc ps c = omega (arith, length-append ps (c ∷ []))

abbrev pub Last : List Bytes → Type 0
Last cs = (cs ≡ []) ⊎ ((ps : List Bytes) × (c : Bytes) × (ps ++ c ∷ [] ≡ cs))

pub list-Last : (cs : List Bytes) → Last cs
list-Last [] = inl refl
list-Last (x ∷ cs) = elim (list-Last cs) [
  | inl e ↦ inr ([], x, rw e refl)
  | inr (ps, c, e) ↦ inr (x ∷ ps, c, rw e refl)
]

pub names-front :
    (ps : List Bytes) (c : Bytes) → All IsName (ps ++ c ∷ []) → All IsName ps × IsName c
names-front [] c h = (tt, h.0)
names-front (x ∷ ps) c h = let (a, b) = names-front ps c h.1 in ((h.0, a), b)
