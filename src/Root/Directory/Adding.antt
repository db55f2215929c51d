-- ===== src/Root/Directory/Adding.antt =====
-- root/src/directory.rs: `add_path` enters every name of a path under the path before it, and nothing
-- else.
use zust.Prelude.{
  ◌≡◌, refl, sym, subst, ap, ◌∙◌, arith, Bool, true, false, ◌&&◌, ◌||◌, List, [], ◌∷◌, ◌++◌, All,
  Bool-cases, inl, inr,
}
use zust.Dynamic.Value.{Bytes, same_text}
use zust.Dynamic.Texts.{same_text→eq, same_text_refl}
use zust.Root.Redis.{Redis, View, IsRedis, Replies, bind-Replies, Replies-mono}
use zust.Root.Paths.{
  is_internal_key, normalize_path, dir_key, dir_key_prefix, starts_with, split, non_empty,
}
use zust.Root.Paths.Names.{
  IsName, join, join-injective, join-snoc, names, names-IsName, names-snoc, dir_key-join,
}
use zust.Root.Directory.{add_names, add_normalized, add_path}

-- The names of a path.
abbrev pub path_names : Bytes → List Bytes
path_names path = names (normalize_path path)

-- The specification: the name `c` comes behind the names `q` in a path of names.
unfoldable pub enters : List Bytes → List Bytes → Bytes → Bool
enters [] q c = false
enters (x ∷ xs) [] c = same_text x c
enters (x ∷ xs) (y ∷ q) c = same_text x y && enters xs q c

-- The same from a path on that was passed before.
abbrev pub enters_from : List Bytes → List Bytes → List Bytes → Bytes → Bool
enters_from [] xs q c = enters xs q c
enters_from (p ∷ ps) xs [] c = false
enters_from (p ∷ ps) xs (y ∷ q) c = same_text p y && enters_from ps xs q c

unfoldable pub same_names : List Bytes → List Bytes → Bool
same_names [] [] = true
same_names (x ∷ xs) (y ∷ ys) = same_text x y && same_names xs ys
same_names _ _ = false

enters_from-none : (ps q : List Bytes) (c : Bytes) → enters_from ps [] q c ≡ false
unfolding enters
enters_from-none [] q c = refl
enters_from-none (p ∷ ps) [] c = refl
enters_from-none (p ∷ ps) (y ∷ q) c = ground (arith, enters_from-none ps q c)

enters_from-next :
    (ps : List Bytes) (x : Bytes) (xs q : List Bytes) (c : Bytes)
    → enters_from ps (x ∷ xs) q c
      ≡ ((same_names ps q && same_text x c) || enters_from (ps ++ x ∷ []) xs q c)
unfolding enters same_names
enters_from-next [] x xs [] c = ground arith
enters_from-next [] x xs (y ∷ q) c = ground arith
enters_from-next (p ∷ ps) x xs [] c = ground arith
enters_from-next (p ∷ ps) x xs (y ∷ q) c = ground (arith, enters_from-next ps x xs q c)

pub same_names→eq : (a b : List Bytes) → same_names a b ≡ true → a ≡ b
unfolding same_names
same_names→eq [] [] h = refl
same_names→eq [] (y ∷ b) h = absurd (cc)
same_names→eq (x ∷ a) [] h = absurd (cc)
same_names→eq (x ∷ a) (y ∷ b) h = ground (arith, same_text→eq x y, same_names→eq a b)

pub same_names_refl : (a : List Bytes) → same_names a a ≡ true
unfolding same_names
same_names_refl [] = refl
same_names_refl (x ∷ a) = ground (arith, same_text_refl x, same_names_refl a)

-- Directories of different names have different keys.
prefix_injective : (p a b : Bytes) → p ++ a ≡ p ++ b → a ≡ b
prefix_injective [] a b h = h
prefix_injective (x ∷ p) a b h = prefix_injective p a b (cc)

dir_key-injective :
    (a b : List Bytes) → All IsName a → All IsName b → dir_key (join a) ≡ dir_key (join b) → a ≡ b
dir_key-injective a b h k e = join-injective a b h k (
    prefix_injective dir_key_prefix (join a) (join b)
      (sym (dir_key-join a h) ∙ e ∙ dir_key-join b k))

same_dirs :
    (a b : List Bytes)
    → All IsName a
    → All IsName b
    → same_text (dir_key (join a)) (dir_key (join b)) ≡ true
    → same_names a b ≡ true
same_dirs a b h k y =
    subst (λ z. same_names a z ≡ true)
      (dir_key-injective a b h k (same_text→eq (dir_key (join a)) (dir_key (join b)) y))
      (same_names_refl a)

pub same_dir_key :
    (a b : List Bytes)
    → All IsName a
    → All IsName b
    → same_text (dir_key (join a)) (dir_key (join b)) ≡ same_names a b
same_dir_key a b h k = elim (Bool-cases (same_names a b)) [
  | inl y ↦ rw (same_names→eq a b y, same_names_refl b) (same_text_refl (dir_key (join b)))
  | inr n ↦ elim (Bool-cases (same_text (dir_key (join a)) (dir_key (join b)))) [
    | inl y ↦ y ∙ sym (same_dirs a b h k y)
    | inr m ↦ m ∙ sym n
  ]
]

starts_with_itself : (p s : Bytes) → starts_with (p ++ s) p ≡ true
unfolding starts_with
starts_with_itself [] s = refl
starts_with_itself (x ∷ p) s = ground (arith, starts_with_itself p s)

pub dir_key_internal : (p : Bytes) → is_internal_key (dir_key p) ≡ true
unfolding is_internal_key dir_key
dir_key_internal p = rw (starts_with_itself dir_key_prefix (normalize_path p)) refl

clash : (a b : Bool) → a ≡ b → a ≡ true → b ≡ false → ⊥
clash a b e h k = cc

-- A key of the index is none of the other keys.
pub other_key : (p j : Bytes) → is_internal_key j ≡ false → same_text (dir_key p) j ≡ false
other_key p j h = elim (Bool-cases (same_text (dir_key p) j)) [
  | inl y ↦ absurd (
      clash (is_internal_key (dir_key p)) (is_internal_key j)
        (ap is_internal_key (same_text→eq (dir_key p) j y)) (dir_key_internal p) h)
  | inr n ↦ n
]

or_swap : (a b c : Bool) → (a || (b || c)) ≡ ((b || a) || c)
or_swap a b c = ground arith

module _ (R : Redis) (V : View R) where
  abbrev pub Usable : R.State → Type 0
  Usable s = (p : Bytes) → V.is_set s (dir_key p) ≡ true

  -- What the index has after names were entered behind `ps`, and that no value was touched.
  abbrev pub Entered : List Bytes → List Bytes → R.State → R.State → Type 0
  Entered ps xs s s' =
      ((q : List Bytes) (c : Bytes)
        → All IsName q
        → V.holds s' (dir_key (join q)) c
          ≡ (enters_from ps xs q c || V.holds s (dir_key (join q)) c))
      × ((j : Bytes) → is_internal_key j ≡ false → V.present s' j ≡ V.present s j)
      × Usable s'

  Entered-none : (ps : List Bytes) (s : R.State) → Usable s → Entered ps [] s s
  Entered-none ps s u = (λ q c h. rw (enters_from-none ps q c) refl, λ j h. refl, u)

  module _ (L : IsRedis R V) where
    Entered-step :
        (ps : List Bytes) (x : Bytes) (xs : List Bytes) (s s' s'' : R.State)
        → All IsName ps
        → Usable s
        → ((j d : Bytes)
            → V.holds s' j d
              ≡ ((same_text (dir_key (join ps)) j && same_text x d) || V.holds s j d))
        → ((j : Bytes) → V.present s' j ≡ (same_text (dir_key (join ps)) j || V.present s j))
        → Entered (ps ++ x ∷ []) xs s' s''
        → Entered ps (x ∷ xs) s s''
    Entered-step ps x xs s s' s'' h u a p e = (
      λ q c k.
          rw
            (enters_from-next ps x xs q c, e.0 q c k, a (dir_key (join q)) c, same_dir_key ps q h k)
            (or_swap (enters_from (ps ++ x ∷ []) xs q c) (same_names ps q && same_text x c)
              (V.holds s (dir_key (join q)) c)),
      λ j i. e.1 j i ∙ rw (p j, other_key (join ps) j i) refl,
      e.2,
    )

    add_names_lem :
        (ps xs : List Bytes) (s : R.State)
        → All IsName ps
        → All IsName xs
        → Usable s
        → Replies (Entered ps xs s) (add_names R (join ps) xs s)
    unfolding add_names
    add_names_lem ps [] s h k u = Entered-none ps s u
    add_names_lem ps (x ∷ xs) s h k u =
        bind-Replies _ (Entered ps (x ∷ xs) s) (R.sadd (dir_key (join ps)) x s) _
          (L.sadd_lem s (dir_key (join ps)) x (u (join ps)))
          λ (s', n) a. rw (← join-snoc [] ps x) (
            Replies-mono (Entered (ps ++ x ∷ []) xs s') (Entered ps (x ∷ xs) s)
              (add_names R (join (ps ++ x ∷ [])) xs s')
              (add_names_lem (ps ++ x ∷ []) xs s' (names-snoc ps x h k.0) k.1
                λ p. a.2 (dir_key p) ∙ u p)
              λ s'' e. Entered-step ps x xs s s' s'' h u a.0 a.1 e)

    normalized_lem :
        (path : Bytes) (s : R.State)
        → Usable s
        → is_internal_key path ≡ false
        → Replies (Entered [] (names path) s) (add_normalized R path s)
    unfolding add_normalized split non_empty
    normalized_lem [] s u i = Entered-none [] s u
    normalized_lem (x ∷ path) s u i =
        rw i (add_names_lem [] (names (x ∷ path)) s tt (names-IsName (x ∷ path)) u)

    -- `add_path` enters each name of the path in the directory that the names before it make, and
    -- nothing else: a directory has a name after it exactly if it had it before, or the name comes
    -- behind the directory in the path. The keys that are not the index's stay as they are, and the
    -- index can be used on. The path is any text whose trimmed form is no key of the index; a server
    -- that answers, and an index whose keys hold sets, are assumed.
    pub add_path_lem :
        (path : Bytes) (s : R.State)
        → Usable s
        → is_internal_key (normalize_path path) ≡ false
        → Replies (Entered [] (path_names path) s) (add_path R path s)
    unfolding add_path
    add_path_lem path s u i = normalized_lem (normalize_path path) s u i
