-- ===== src/Root/Paths/Names.antt =====
-- root/src/directory.rs: a path that is made of names falls apart into them.
use zust.Prelude.{
  ℕ, ◌≡◌, refl, sym, ap, ◌∙◌, false, none, some, List, [], ◌∷◌, ◌++◌, append_assoc, append-nil, All,
  Bool-cases, inl, inr, ◌==◌,
}
use zust.Dynamic.Value.{Bytes}
use zust.Root.Paths.{
  slash, is_empty, trim_start, trim_end, on_first, split, non_empty, rsplit_once, normalize_path,
  dir_key, dir_key_prefix, parent_child_of, parent_child, push_name,
}

-- A name is not empty and has no slash.
abbrev pub IsPlain : Bytes → Type 0
IsPlain = All (λ c. (c == slash) ≡ false)

abbrev pub IsName : Bytes → Type 0
IsName s = (is_empty s ≡ false) × IsPlain s

-- The path of a list of names, from a path on.
abbrev pub join_from : Bytes → List Bytes → Bytes
join_from path [] = path
join_from path (c ∷ names) = join_from (push_name path c) names

abbrev pub join : List Bytes → Bytes
join names = join_from [] names

split_plain : (s : Bytes) → IsPlain s → split s ≡ s ∷ []
unfolding split
split_plain [] h = refl
split_plain (c ∷ s) h = rw (h.0, split_plain s h.1) refl

split-cons : (p : Bytes) → (first : Bytes) × (parts : List Bytes) × (split p ≡ first ∷ parts)
unfolding split
split-cons [] = ([], [], refl)
split-cons (x ∷ p) =
    let (first, parts, e) = split-cons p in
    elim (Bool-cases (x == slash)) [
      | inl y ↦ ([], first ∷ parts, rw (y, e) refl)
      | inr n ↦ (x ∷ first, parts, rw (n, e) refl)
    ]

on_first-append :
    (x : ℕ) (parts more : List Bytes) (first : Bytes) (rest : List Bytes)
    → parts ≡ first ∷ rest
    → on_first x (parts ++ more) ≡ on_first x parts ++ more
on_first-append x parts more first rest e = rw e refl

split-slash : (p c : Bytes) → IsPlain c → split (p ++ slash ∷ c) ≡ split p ++ c ∷ []
unfolding split
split-slash [] c h = rw (split_plain c h) refl
split-slash (x ∷ p) c h =
    let (first, rest, e) = split-cons p in
    rw (split-slash p c h) (elim (Bool-cases (x == slash)) [
      | inl y ↦ rw y refl
      | inr n ↦ rw n (on_first-append x (split p) (c ∷ []) first rest e)
    ])

non_empty-append : (a b : List Bytes) → non_empty (a ++ b) ≡ non_empty a ++ non_empty b
unfolding non_empty
non_empty-append [] b = refl
non_empty-append (x ∷ a) b =
    rw (non_empty-append a b)
      (elim (Bool-cases (is_empty x)) [ inl y ↦ rw y refl | inr n ↦ rw n refl ])

-- The names in a path.
abbrev pub names : Bytes → List Bytes
names path = non_empty (split path)

non_empty-one : (c : Bytes) → is_empty c ≡ false → non_empty (c ∷ []) ≡ c ∷ []
unfolding non_empty
non_empty-one c h = rw h refl

names-push_name : (p c : Bytes) → IsName c → names (push_name p c) ≡ names p ++ c ∷ []
unfolding push_name
names-push_name [] c h =
    rw (split_plain c h.1, non_empty-one c h.0) (unfold split non_empty in refl)
names-push_name (x ∷ p) c h =
    rw (split-slash (x ∷ p) c h.1, non_empty-append (split (x ∷ p)) (c ∷ []), non_empty-one c h.0)
      refl

names-join_from :
    (p : Bytes) (cs : List Bytes) → All IsName cs → names (join_from p cs) ≡ names p ++ cs
names-join_from p [] h = sym (append-nil (names p))
names-join_from p (c ∷ cs) h =
    names-join_from (push_name p c) cs h.1
    ∙ ap (λ ns. ns ++ cs) (names-push_name p c h.0)
    ∙ append_assoc (names p) (c ∷ []) cs

pub names-join : (cs : List Bytes) → All IsName cs → names (join cs) ≡ cs
names-join cs h = names-join_from [] cs h ∙ (unfold split non_empty in refl)

pub join-injective : (a b : List Bytes) → All IsName a → All IsName b → join a ≡ join b → a ≡ b
join-injective a b h k e = sym (names-join a h) ∙ ap names e ∙ names-join b k

-- No slash is trimmed from such a path.
abbrev StartsPlain : Bytes → Type 0
StartsPlain [] = Unit
StartsPlain (x ∷ rest) = (x == slash) ≡ false

abbrev Trimmed : Bytes → Type 0
Trimmed p = StartsPlain p × (trim_end p ≡ p)

trim_start_plain : (p : Bytes) → StartsPlain p → trim_start p ≡ p
unfolding trim_start
trim_start_plain [] h = refl
trim_start_plain (x ∷ p) h = rw h refl

trim_end_name : (c : Bytes) → IsPlain c → trim_end c ≡ c
unfolding trim_end
trim_end_name [] h = refl
trim_end_name (x ∷ c) h = rw (h.0, trim_end_name c h.1) refl

trim_end_keep : (y : ℕ) (r : Bytes) → trim_end r ≡ r → is_empty r ≡ false → trim_end (y ∷ r) ≡ y ∷ r
unfolding trim_end
trim_end_keep y r h e = elim (Bool-cases (y == slash)) [
  | inl t ↦ rw (t, h, e) refl
  | inr n ↦ rw (n, h) refl
]

is_empty-append : (p : Bytes) (q : Bytes) → is_empty q ≡ false → is_empty (p ++ q) ≡ false
is_empty-append [] q h = h
is_empty-append (x ∷ p) q h = refl

trim_end_behind : (p q : Bytes) → is_empty q ≡ false → trim_end q ≡ q → trim_end (p ++ q) ≡ p ++ q
trim_end_behind [] q e h = h
trim_end_behind (y ∷ p) q e h =
    trim_end_keep y (p ++ q) (trim_end_behind p q e h) (is_empty-append p q e)

trim_end-slash : (c : Bytes) → IsName c → trim_end (slash ∷ c) ≡ slash ∷ c
trim_end-slash c h = trim_end_keep slash c (trim_end_name c h.1) h.0

name-StartsPlain : (c : Bytes) → IsName c → StartsPlain c
name-StartsPlain [] h = tt
name-StartsPlain (x ∷ c) h = h.1.0

push_name-Trimmed : (p c : Bytes) → Trimmed p → IsName c → Trimmed (push_name p c)
unfolding push_name
push_name-Trimmed [] c t h = (name-StartsPlain c h, trim_end_name c h.1)
push_name-Trimmed (x ∷ p) c t h =
    (t.0, trim_end_behind (x ∷ p) (slash ∷ c) refl (trim_end-slash c h))

join_from-Trimmed :
    (p : Bytes) (cs : List Bytes) → Trimmed p → All IsName cs → Trimmed (join_from p cs)
join_from-Trimmed p [] t h = t
join_from-Trimmed p (c ∷ cs) t h =
    join_from-Trimmed (push_name p c) cs (push_name-Trimmed p c t h.0) h.1

normalize_Trimmed : (p : Bytes) → Trimmed p → normalize_path p ≡ p
unfolding normalize_path
normalize_Trimmed p t = rw (trim_start_plain p t.0) t.1

pub normalize_path-join : (cs : List Bytes) → All IsName cs → normalize_path (join cs) ≡ join cs
unfolding trim_end
normalize_path-join cs h = normalize_Trimmed (join cs) (join_from-Trimmed [] cs (tt, refl) h)

pub dir_key-join : (cs : List Bytes) → All IsName cs → dir_key (join cs) ≡ dir_key_prefix ++ join cs
unfolding dir_key
dir_key-join cs h = rw (normalize_path-join cs h) refl

-- The last name and the path before it.
rsplit_plain : (c : Bytes) → IsPlain c → rsplit_once c ≡ none
unfolding rsplit_once
rsplit_plain [] h = refl
rsplit_plain (x ∷ c) h = rw (rsplit_once, rsplit_plain c h.1, h.0) refl

rsplit_slash : (p c : Bytes) → IsPlain c → rsplit_once (p ++ slash ∷ c) ≡ some (p, c)
unfolding rsplit_once
rsplit_slash [] c h = rw (rsplit_once, rsplit_plain c h) refl
rsplit_slash (x ∷ p) c h = rw (rsplit_once, rsplit_slash p c h) refl

parent_child-push_name : (p c : Bytes) → IsName c → parent_child_of (push_name p c) ≡ some (p, c)
unfolding parent_child_of push_name
parent_child-push_name [] [] h = absurd (cc)
parent_child-push_name [] (x ∷ c) h = rw (parent_child_of, rsplit_plain (x ∷ c) h.1) refl
parent_child-push_name (y ∷ p) c h = rw (parent_child_of, rsplit_slash (y ∷ p) c h.1) refl

pub join-snoc :
    (p : Bytes) (cs : List Bytes) (c : Bytes)
    → join_from p (cs ++ c ∷ []) ≡ push_name (join_from p cs) c
join-snoc p [] c = refl
join-snoc p (d ∷ cs) c = join-snoc (push_name p d) cs c

All-append : (P : Bytes → Type 0) (a b : List Bytes) → All P a → All P b → All P (a ++ b)
All-append P [] b h k = k
All-append P (x ∷ a) b h k = (h.0, All-append P a b h.1 k)

pub names-snoc :
    (cs : List Bytes) (c : Bytes) → All IsName cs → IsName c → All IsName (cs ++ c ∷ [])
names-snoc cs c h k = All-append IsName cs (c ∷ []) h (k, tt)

pub parent_child-join :
    (cs : List Bytes) (c : Bytes)
    → All IsName cs
    → IsName c
    → parent_child (join (cs ++ c ∷ [])) ≡ some (join cs, c)
unfolding parent_child
parent_child-join cs c h k =
    rw (normalize_path-join (cs ++ c ∷ []) (names-snoc cs c h k), join-snoc [] cs c)
      (parent_child-push_name (join cs) c k)

-- What a path falls apart into are names.
on_first-IsPlain :
    (x : ℕ) (parts : List Bytes)
    → (x == slash) ≡ false
    → All IsPlain parts
    → All IsPlain (on_first x parts)
on_first-IsPlain x [] h k = ((h, tt), tt)
on_first-IsPlain x (part ∷ parts) h k = ((h, k.0), k.1)

split-IsPlain : (p : Bytes) → All IsPlain (split p)
unfolding split
split-IsPlain [] = (tt, tt)
split-IsPlain (x ∷ p) = elim (Bool-cases (x == slash)) [
  | inl y ↦ rw y (tt, split-IsPlain p)
  | inr n ↦ rw n (on_first-IsPlain x (split p) n (split-IsPlain p))
]

non_empty-IsName : (parts : List Bytes) → All IsPlain parts → All IsName (non_empty parts)
unfolding non_empty
non_empty-IsName [] h = tt
non_empty-IsName (part ∷ parts) h = elim (Bool-cases (is_empty part)) [
  | inl y ↦ rw y (non_empty-IsName parts h.1)
  | inr n ↦ rw n ((n, h.0), non_empty-IsName parts h.1)
]

pub names-IsName : (p : Bytes) → All IsName (names p)
names-IsName p = non_empty-IsName (split p) (split-IsPlain p)
