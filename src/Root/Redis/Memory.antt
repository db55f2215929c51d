-- ===== src/Root/Redis/Memory.antt =====
-- A server in memory that answers as the code relies on: pairs of a key and a member of its set, and
-- the keys of values. A pair may be there twice.
use zust.Prelude.{
  ℕ, suc, ◌≡◌, refl, sym, ap, ◌∙◌, arith, Bool, true, false, not, ◌&&◌, ◌||◌, List, [], ◌∷◌, ◌++◌,
  Bool-cases, inl, inr, if◌then◌else◌, ◌==◌,
}
use zust.Prelude.Outcome.{ok, err}
use zust.Dynamic.Value.{Bytes, same_text}
use zust.Dynamic.Texts.{same_text→eq, same_text_refl}
use zust.Root.Bits.{later_bit, first_member}
use zust.Root.Redis.{Redis, Reply, Replies, wrong_type, member, View, IsRedis}

abbrev pub Pairs : Type 0
Pairs = List (Bytes × Bytes)

unfoldable pub has : Bytes → Bytes → Pairs → Bool
has j d [] = false
has j d ((k, c) ∷ pairs) = (same_text k j && same_text c d) || has j d pairs

unfoldable pub keyed : Bytes → Pairs → Bool
keyed j [] = false
keyed j ((k, c) ∷ pairs) = same_text k j || keyed j pairs

unfoldable pub without : Bytes → Bytes → Pairs → Pairs
without k c [] = []
without k c ((j, d) ∷ pairs) =
    let more = without k c pairs in if same_text k j && same_text c d then more else (j, d) ∷ more

unfoldable pub drop_keys : List Bytes → Pairs → Pairs
drop_keys keys [] = []
drop_keys keys ((j, d) ∷ pairs) =
    let more = drop_keys keys pairs in if member j keys then more else (j, d) ∷ more

unfoldable pub drop_texts : List Bytes → List Bytes → List Bytes
drop_texts keys [] = []
drop_texts keys (j ∷ texts) =
    let more = drop_texts keys texts in if member j keys then more else j ∷ more

unfoldable pub members : Bytes → Pairs → List Bytes
members k [] = []
members k ((j, d) ∷ pairs) = let more = members k pairs in if same_text j k then d ∷ more else more

unfoldable pub count : {A : Type 0} → List A → ℕ
count [] = 0
count (x ∷ xs) = suc (count xs)

unfoldable pub keys_of : Pairs → List Bytes
keys_of [] = []
keys_of ((j, d) ∷ pairs) = j ∷ keys_of pairs

abbrev pub Store : Type 0
Store = Pairs × List Bytes

abbrev pub set_of : {A : Type 0} → Bytes → Store → A → Reply A
set_of k s a = if member k s.1 then err wrong_type else ok a

abbrev pub present_in : Store → Bytes → Bool
present_in s j = keyed j s.0 || member j s.1

abbrev pub memory : Redis
memory = record {
  State = Store;
  sadd = λ k c s. set_of k s (((k, c) ∷ s.0, s.1), 1);
  srem = λ k c s. set_of k s ((without k c s.0, s.1), 1);
  scard = λ k s. set_of k s (count (members k s.0));
  smembers = λ k s. set_of k s (members k s.0);
  del = λ keys s. ok ((drop_keys keys s.0, drop_texts keys s.1), count keys);
  exists_key = λ k s. ok (present_in s k);
  scan = λ s. ok (keys_of s.0 ++ s.1);
  set_text = λ k v s. ok (drop_keys (k ∷ []) s.0, k ∷ s.1);
}

abbrev pub memory_view : View memory
memory_view = record {
  holds = λ s k c. has k c s.0;
  present = present_in;
  is_set = λ s k. not (member k s.1);
}

has-without :
    (k c j d : Bytes) (pairs : Pairs)
    → has j d (without k c pairs) ≡ (not (same_text k j && same_text c d) && has j d pairs)
unfolding has without
has-without k c j d [] = ground arith
has-without k c j d ((x, y) ∷ pairs) = elim (Bool-cases (same_text k x && same_text c y)) [
  | inl e ↦
      let (f, g) = both e in
      rw (e, ← same_text→eq k x f, ← same_text→eq c y g, has-without k c j d pairs)
        (dropped (same_text k j && same_text c d) (has j d pairs))
  | inr e ↦
      rw (e, has-without k c j d pairs)
        (elim (Bool-cases (same_text x j && same_text y d)) [
          | inl t ↦
              let (f, g) = both t in
              rw (← same_text→eq x j f, ← same_text→eq y d g, e, same_text_refl x, same_text_refl y)
                refl
          | inr t ↦ rw t refl
        ])
]
  where
    both : {a b : Bool} → (a && b) ≡ true → (a ≡ true) × (b ≡ true)
    both {a} {b} h = (ground arith, ground arith)

    dropped : (a b : Bool) → (not a && b) ≡ (not a && (a || b))
    dropped a b = ground arith

keyed-without :
    (k c j : Bytes) (pairs : Pairs)
    → same_text k j ≡ false
    → keyed j (without k c pairs) ≡ keyed j pairs
unfolding keyed without
keyed-without k c j [] h = refl
keyed-without k c j ((x, y) ∷ pairs) h = elim (Bool-cases (same_text k x && same_text c y)) [
  | inl e ↦
      rw (e, keyed-without k c j pairs h, ← same_text→eq k x (front (same_text k x) _ e), h) refl
  | inr e ↦ rw (e, keyed-without k c j pairs h) refl
]
  where
    front : (a b : Bool) → (a && b) ≡ true → a ≡ true
    front a b h = ground arith

has-drop_keys :
    (keys : List Bytes) (j d : Bytes) (pairs : Pairs)
    → has j d (drop_keys keys pairs) ≡ (not (member j keys) && has j d pairs)
unfolding has drop_keys
has-drop_keys keys j d [] = ground arith
has-drop_keys keys j d ((x, y) ∷ pairs) = elim (Bool-cases (same_text x j)) [
  | inl e ↦
      rw (same_text→eq x j e, same_text_refl j)
        (elim (Bool-cases (member j keys)) [
          | inl m ↦ rw m (has-drop_keys keys j d pairs ∙ rw m refl)
          | inr m ↦ rw m (rw (has-drop_keys keys j d pairs, m, same_text_refl j) refl)
        ])
  | inr e ↦ elim (Bool-cases (member x keys)) [
    | inl m ↦ rw (m, e) (has-drop_keys keys j d pairs)
    | inr m ↦ rw (m, e) (has-drop_keys keys j d pairs)
  ]
]

keyed-drop_keys :
    (keys : List Bytes) (j : Bytes) (pairs : Pairs)
    → keyed j (drop_keys keys pairs) ≡ (not (member j keys) && keyed j pairs)
unfolding keyed drop_keys
keyed-drop_keys keys j [] = ground arith
keyed-drop_keys keys j ((x, y) ∷ pairs) = elim (Bool-cases (same_text x j)) [
  | inl e ↦
      rw (same_text→eq x j e, same_text_refl j)
        (elim (Bool-cases (member j keys)) [
          | inl m ↦ rw m (keyed-drop_keys keys j pairs ∙ rw m refl)
          | inr m ↦ rw m (rw (same_text_refl j) refl)
        ])
  | inr e ↦ elim (Bool-cases (member x keys)) [
    | inl m ↦ rw (m, e) (keyed-drop_keys keys j pairs)
    | inr m ↦ rw (m, e) (keyed-drop_keys keys j pairs)
  ]
]

member-drop_texts :
    (keys : List Bytes) (j : Bytes) (texts : List Bytes)
    → member j (drop_texts keys texts) ≡ (not (member j keys) && member j texts)
unfolding member drop_texts
member-drop_texts keys j [] = ground arith
member-drop_texts keys j (x ∷ texts) = elim (Bool-cases (same_text x j)) [
  | inl e ↦
      rw (same_text→eq x j e, same_text_refl j)
        (elim (Bool-cases (member j keys)) [
          | inl m ↦ rw m (member-drop_texts keys j texts ∙ rw m refl)
          | inr m ↦ rw m (rw (same_text_refl j) refl)
        ])
  | inr e ↦ elim (Bool-cases (member x keys)) [
    | inl m ↦ rw (m, e) (member-drop_texts keys j texts)
    | inr m ↦ rw (m, e) (member-drop_texts keys j texts)
  ]
]

or_assoc : (a b c : Bool) → ((a || b) || c) ≡ (a || (b || c))
or_assoc a b c = ground arith

and_or : (m a b : Bool) → ((not m && a) || (not m && b)) ≡ (not m && (a || b))
and_or m a b = ground arith

not_and : (m b : Bool) → not (not m && b) ≡ (m || not b)
not_and m b = ground arith

no_text : (a b : Bool) → (a || b) ≡ false → not b ≡ true
no_text a b h = ground arith

no_members-has : (k c : Bytes) (pairs : Pairs) → count (members k pairs) ≡ 0 → has k c pairs ≡ false
unfolding has members count
no_members-has k c [] h = refl
no_members-has k c ((x, y) ∷ pairs) h = elim (Bool-cases (same_text x k)) [
  | inl e ↦ absurd (positive (count (members k pairs)) (sym (rw e refl) ∙ h))
  | inr e ↦ rw e (no_members-has k c pairs (sym (rw e refl) ∙ h))
]
  where
    positive : (n : ℕ) → suc n ≡ 0 → ⊥
    positive n h = omega (arith, h)

members-has :
    (k : Bytes) (pairs : Pairs)
    → (count (members k pairs) == 0) ≡ false
    → (c : Bytes) × (has k c pairs ≡ true)
unfolding has members count
members-has k [] h = absurd (cc)
members-has k ((x, y) ∷ pairs) h = elim (Bool-cases (same_text x k)) [
  | inl e ↦ (y, rw (e, same_text_refl y) refl)
  | inr e ↦
      let (c, t) = members-has k pairs (sym (rw e refl) ∙ h) in
      (c, later_bit (same_text x k && same_text y c) (has k c pairs) t)
]

member-members : (k c : Bytes) (pairs : Pairs) → member c (members k pairs) ≡ has k c pairs
unfolding has members member
member-members k c [] = refl
member-members k c ((x, y) ∷ pairs) = elim (Bool-cases (same_text x k)) [
  | inl e ↦ rw (e, member-members k c pairs) refl
  | inr e ↦ rw (e, member-members k c pairs) refl
]

member-keys_of :
    (j : Bytes) (pairs : Pairs) (texts : List Bytes)
    → member j (keys_of pairs ++ texts) ≡ (keyed j pairs || member j texts)
unfolding keyed member keys_of
member-keys_of j [] texts = refl
member-keys_of j ((x, y) ∷ pairs) texts =
    rw (member-keys_of j pairs texts)
      (sym (or_assoc (same_text x j) (keyed j pairs) (member j texts)))

has-keyed : (k c : Bytes) (pairs : Pairs) → has k c pairs ≡ true → keyed k pairs ≡ true
unfolding has keyed
has-keyed k c [] h = h
has-keyed k c ((x, y) ∷ pairs) h = elim (Bool-cases (same_text x k)) [
  | inl e ↦ rw e refl
  | inr e ↦ rw e (has-keyed k c pairs (sym (rw e refl) ∙ h))
]

negated_bit→false : (a : Bool) → not a ≡ true → a ≡ false
negated_bit→false a h = ground arith

set_of-Replies :
    {A : Type 0} (P : A → Type 0) (k : Bytes) (s : Store) (a : A)
    → not (member k s.1) ≡ true
    → P a
    → Replies P (set_of k s a)
set_of-Replies P k s a h p = rw (negated_bit→false (member k s.1) h) p

pub memory-IsRedis : IsRedis memory memory_view
unfolding has keyed
memory-IsRedis = record {
  sadd_lem = λ s k c h.
      set_of-Replies _ k s _ h
        (λ j d. refl, λ j. or_assoc (same_text k j) (keyed j s.0) (member j s.1), λ j. refl);
  srem_lem = λ s k c h. set_of-Replies _ k s _ h (
    λ j d. has-without k c j d s.0,
    λ j n. ap (λ b. b || member j s.1) (keyed-without k c j s.0 n),
    λ j. refl,
  );
  scard_lem =
      λ s k h. set_of-Replies _ k s _ h (λ z c. no_members-has k c s.0 z, members-has k s.0);
  smembers_lem = λ s k h. set_of-Replies _ k s _ h λ c. member-members k c s.0;
  del_lem = λ s keys. (
    λ j d. has-drop_keys keys j d s.0,
    λ j.
        rw (keyed-drop_keys keys j s.0, member-drop_texts keys j s.1)
          (and_or (member j keys) (keyed j s.0) (member j s.1)),
    λ j. rw (member-drop_texts keys j s.1) (not_and (member j keys) (member j s.1)),
  );
  exists_lem = λ s k. refl;
  scan_lem = λ s j. member-keys_of j s.0 s.1;
  holds→present = λ s k c h. first_member (keyed k s.0) _ (has-keyed k c s.0 h);
  absent→is_set = λ s k h. no_text (keyed k s.0) (member k s.1) h;
}
