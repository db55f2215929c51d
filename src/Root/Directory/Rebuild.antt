-- ===== src/Root/Directory/Rebuild.antt =====
-- root/src/directory.rs: `rebuild` makes the index from the keys that there are.
use zust.Prelude.{
  ◌≡◌, ◌↔◌, refl, sym, subst, ◌∙◌, arith, Bool, true, false, not, ◌&&◌, ◌||◌, List, [], ◌∷◌, All,
  Bool-cases, inl, inr,
}
use zust.Prelude.Outcome.{ok, ◌>>=◌}
use zust.Dynamic.Value.{Bytes, same_text}
use zust.Dynamic.Texts.{same_text→eq, same_text_refl}
use zust.Root.Bits.{
  clash, later_bit, absent_bit, deleted_bit, usable_bit, one_bit, later_entry, first_member,
  behind_first, first_bits, other_bits, alone_bit,
}
use zust.Root.Redis.{Redis, View, IsRedis, Replies, bind-Replies, Replies-mono, member}
use zust.Root.Paths.{is_empty, is_internal_key, normalize_path, dir_key}
use zust.Root.Paths.Names.{IsName, join}
use zust.Root.Directory.{
  add_normalized, add_path, index_keys, other_keys, delete_keys, add_paths, rebuild, children,
}
use zust.Root.Directory.Adding.{enters, path_names, dir_key_internal, Usable, add_path_lem}

member-index_keys :
    (keys : List Bytes) (j : Bytes)
    → member j (index_keys keys) ≡ (is_internal_key j && member j keys)
unfolding member index_keys
member-index_keys [] j = ground arith
member-index_keys (y ∷ keys) j = elim (Bool-cases (same_text y j)) [
  | inl e ↦ rw (same_text→eq y j e) (elim (Bool-cases (is_internal_key j)) [
    | inl i ↦ rw (i, same_text_refl j) refl
    | inr i ↦ rw i (member-index_keys keys j ∙ rw i refl)
  ])
  | inr n ↦ elim (Bool-cases (is_internal_key y)) [
    | inl i ↦ rw (i, n) (member-index_keys keys j)
    | inr i ↦ rw (i, n) (member-index_keys keys j)
  ]
]

member-other_keys :
    (keys : List Bytes) (j : Bytes)
    → member j (other_keys keys) ≡ (not (is_internal_key j) && member j keys)
unfolding member other_keys
member-other_keys [] j = ground arith
member-other_keys (y ∷ keys) j = elim (Bool-cases (same_text y j)) [
  | inl e ↦ rw (same_text→eq y j e) (elim (Bool-cases (is_internal_key j)) [
    | inl i ↦ rw i (member-other_keys keys j ∙ rw i refl)
    | inr i ↦ rw (i, same_text_refl j) refl
  ])
  | inr n ↦ elim (Bool-cases (is_internal_key y)) [
    | inl i ↦ rw (i, n) (member-other_keys keys j)
    | inr i ↦ rw (i, n) (member-other_keys keys j)
  ]
]

-- What a key enters, if it is no key of the index.
abbrev entered_by : List Bytes → List Bytes → Bytes → Bool
entered_by [] q c = false
entered_by (k ∷ keys) q c =
    (not (is_internal_key (normalize_path k)) && enters (path_names k) q c) || entered_by keys q c

add_path-internal :
    (R : Redis) (k : Bytes) (s : R.State)
    → is_internal_key (normalize_path k) ≡ true
    → add_path R k s ≡ ok s
unfolding add_path add_normalized
add_path-internal R k s i = elim (Bool-cases (is_empty (normalize_path k))) [
  | inl y ↦ rw y refl
  | inr n ↦ rw (n, i) refl
]

module _ (R : Redis) (V : View R) where
  -- A key that is no key of the index, whose path has the name `c` behind the names `q`.
  abbrev pub Listed : R.State → List Bytes → Bytes → Type 0
  Listed s q c =
      (k : Bytes) × (V.present s k ≡ true)
      × (is_internal_key k ≡ false)
      × (is_internal_key (normalize_path k) ≡ false)
      × (enters (path_names k) q c ≡ true)

  abbrev Indexed : List Bytes → R.State → R.State → Type 0
  Indexed keys s s' =
      ((q : List Bytes) (c : Bytes)
        → All IsName q
        → V.holds s' (dir_key (join q)) c ≡ (entered_by keys q c || V.holds s (dir_key (join q)) c))
      × ((j : Bytes) → is_internal_key j ≡ false → V.present s' j ≡ V.present s j)
      × Usable R V s'

  -- The index is empty, and can be used.
  abbrev Cleared : R.State → R.State → Type 0
  Cleared s s' =
      ((p c : Bytes) → V.holds s' (dir_key p) c ≡ false)
      × ((j : Bytes) → is_internal_key j ≡ false → V.present s' j ≡ V.present s j)
      × Usable R V s'

  module _ (L : IsRedis R V) where
    not_held : (s : R.State) (k c : Bytes) → V.present s k ≡ false → V.holds s k c ≡ false
    not_held s k c a = elim (Bool-cases (V.holds s k c)) [
      | inl y ↦ absurd (clash (V.present s k) (L.holds→present s k c y) a)
      | inr n ↦ n
    ]

    Absent-Cleared : (s : R.State) → ((p : Bytes) → V.present s (dir_key p) ≡ false) → Cleared s s
    Absent-Cleared s a = (
      λ p c. not_held s (dir_key p) c (a p),
      λ j i. refl,
      λ p. L.absent→is_set s (dir_key p) (a p),
    )

    delete_keys_lem :
        (s : R.State) (keys : List Bytes)
        → ((j : Bytes) → member j keys ≡ (is_internal_key j && V.present s j))
        → Replies (Cleared s) (delete_keys R keys s)
    unfolding delete_keys member
    delete_keys_lem s [] m = Absent-Cleared s λ p.
        absent_bit (is_internal_key (dir_key p)) (V.present s (dir_key p)) (dir_key_internal p)
          (m (dir_key p))
    delete_keys_lem s (k ∷ keys) m =
        bind-Replies _ (Cleared s) (R.del (k ∷ keys) s) _ (L.del_lem s (k ∷ keys)) λ (s', n) d. (
          λ p c.
              d.0 (dir_key p) c
              ∙ deleted_bit (member (dir_key p) (k ∷ keys)) (is_internal_key (dir_key p))
                  (V.present s (dir_key p)) (V.holds s (dir_key p) c) (dir_key_internal p)
                  (m (dir_key p)) (L.holds→present s (dir_key p) c),
          λ j i. d.1 j ∙ rw (m j, i) refl,
          λ p.
              d.2 (dir_key p)
              ∙ usable_bit (member (dir_key p) (k ∷ keys)) (is_internal_key (dir_key p))
                  (V.present s (dir_key p)) (V.is_set s (dir_key p)) (dir_key_internal p)
                  (m (dir_key p)) (L.absent→is_set s (dir_key p)),
        )

    add_path-Indexed :
        (k : Bytes) (s : R.State) → Usable R V s → Replies (Indexed (k ∷ []) s) (add_path R k s)
    add_path-Indexed k s u = elim (Bool-cases (is_internal_key (normalize_path k))) [
      | inl i ↦
          subst (Replies (Indexed (k ∷ []) s)) (sym (add_path-internal R k s i))
            (λ q c h. rw i refl, λ j h. refl, u)
      | inr i ↦
          Replies-mono _ (Indexed (k ∷ []) s) (add_path R k s) (add_path_lem R V L k s u i) λ s' e.
            (
              λ q c h.
                  e.0 q c h
                  ∙ rw i (one_bit (enters (path_names k) q c) (V.holds s (dir_key (join q)) c)),
              e.1,
              e.2,
            )
    ]

    add_paths_lem :
        (keys : List Bytes) (s : R.State)
        → Usable R V s
        → Replies (Indexed keys s) (add_paths R keys s)
    unfolding add_paths
    add_paths_lem [] s u = (λ q c h. refl, λ j h. refl, u)
    add_paths_lem (k ∷ keys) s u =
        bind-Replies (Indexed (k ∷ []) s) (Indexed (k ∷ keys) s) (add_path R k s) (add_paths R keys)
          (add_path-Indexed k s u)
          λ s' e.
            Replies-mono (Indexed keys s') (Indexed (k ∷ keys) s) (add_paths R keys s')
              (add_paths_lem keys s' e.2)
              λ s'' f. (
                λ q c h.
                    f.0 q c h
                    ∙ rw (e.0 q c h) (
                        later_entry (entered_by keys q c)
                          (not (is_internal_key (normalize_path k)) && enters (path_names k) q c)
                          (V.holds s (dir_key (join q)) c)),
                λ j i. f.1 j i ∙ e.1 j i,
                f.2,
              )

    -- The keys that enter a name are those that list it.
    entered→Listed :
        (s : R.State) (keys q : List Bytes) (c : Bytes)
        → ((k : Bytes)
            → member k keys ≡ true
            → (V.present s k ≡ true) × (is_internal_key k ≡ false))
        → entered_by keys q c ≡ true
        → Listed s q c
    unfolding member
    entered→Listed s [] q c m h = absurd (cc)
    entered→Listed s (k ∷ keys) q c m h = elim (Bool-cases (entered_by keys q c)) [
      | inl y ↦
          entered→Listed s keys q c (λ j i. m j (later_bit (same_text k j) (member j keys) i)) y
      | inr n ↦
          let (there, other) =
            m k (first_member (same_text k k) (member k keys) (same_text_refl k)) in
          let (i, e) =
            first_bits (is_internal_key (normalize_path k)) (enters (path_names k) q c)
              (entered_by keys q c) h n in
          (k, there, other, i, e)
    ]

    Listed→entered :
        (s : R.State) (keys q : List Bytes) (c k : Bytes)
        → member k keys ≡ true
        → is_internal_key (normalize_path k) ≡ false
        → enters (path_names k) q c ≡ true
        → entered_by keys q c ≡ true
    unfolding member
    Listed→entered s [] q c k m i e = absurd (cc)
    Listed→entered s (y ∷ keys) q c k m i e = elim (Bool-cases (same_text y k)) [
      | inl t ↦ rw (same_text→eq y k t, i, e) refl
      | inr n ↦
          later_bit (not (is_internal_key (normalize_path y)) && enters (path_names y) q c) _
            (Listed→entered s keys q c k (behind_first (same_text y k) (member k keys) m n) i e)
    ]

    other_facts :
        (s : R.State) (keys : List Bytes)
        → ((j : Bytes) → member j keys ≡ V.present s j)
        → (k : Bytes) → member k (other_keys keys) ≡ true
        → (V.present s k ≡ true) × (is_internal_key k ≡ false)
    other_facts s keys a k h =
        other_bits (is_internal_key k) (member k keys) (V.present s k)
          (sym h ∙ member-other_keys keys k) (a k)

    -- What the index has after a rebuild.
    abbrev pub Rebuilt : R.State → R.State → Type 0
    Rebuilt s s' =
        ((q : List Bytes) (c : Bytes)
          → All IsName q
          → (V.holds s' (dir_key (join q)) c ≡ true) ↔ Listed s q c)
        × ((j : Bytes) → is_internal_key j ≡ false → V.present s' j ≡ V.present s j)
        × Usable R V s'

    Rebuilt-keys :
        (s s' s'' : R.State) (keys : List Bytes)
        → ((j : Bytes) → member j keys ≡ V.present s j)
        → Cleared s s'
        → Indexed (other_keys keys) s' s''
        → Rebuilt s s''
    Rebuilt-keys s s' s'' keys a d e = (
      λ q c h. (
        λ y. entered→Listed s (other_keys keys) q c (other_facts s keys a) (
            sym (alone_bit (entered_by (other_keys keys) q c) _ (d.0 (join q) c))
            ∙ sym (e.0 q c h)
            ∙ y),
        λ (k, there, other, i, y).
            e.0 q c h
            ∙ first_member (entered_by (other_keys keys) q c) _ (
                Listed→entered s (other_keys keys) q c k
                  (member-other_keys keys k ∙ rw (other, a k) there) i y),
      ),
      λ j i. e.1 j i ∙ d.1 j i,
      e.2,
    )

    pub rebuild_lem : (s : R.State) → Replies (Rebuilt s) (rebuild R s)
    unfolding rebuild
    rebuild_lem s = bind-Replies _ (Rebuilt s) (R.scan s) _ (L.scan_lem s) λ keys a.
        bind-Replies (Cleared s) (Rebuilt s) (delete_keys R (index_keys keys) s) _
          (delete_keys_lem s (index_keys keys) λ j. member-index_keys keys j ∙ rw (a j) refl)
          λ s' d.
            Replies-mono (Indexed (other_keys keys) s') (Rebuilt s)
              (add_paths R (other_keys keys) s') (add_paths_lem (other_keys keys) s' d.2)
              λ s'' e. Rebuilt-keys s s' s'' keys a d e

    -- After a rebuild, the children of a directory are exactly the names that come behind it in the
    -- keys that there are, whatever the index held before. A key counts if it is no key of the index,
    -- trimmed or not, and need not be canonical: slashes that double or stand at its ends do not
    -- matter. The directory is any list of names, the root included. A server that answers is assumed.
    pub children-rebuild :
        (q : List Bytes) (s : R.State)
        → All IsName q
        → Replies
            (λ cs. (c : Bytes) → (member c cs ≡ true) ↔ Listed s q c)
            (rebuild R s >>= children R (join q))
    unfolding children
    children-rebuild q s h =
        bind-Replies (Rebuilt s) _ (rebuild R s) (children R (join q)) (rebuild_lem s) λ s' e.
          Replies-mono _ _ (R.smembers (dir_key (join q)) s')
            (L.smembers_lem s' (dir_key (join q)) (e.2 (join q)))
            λ cs m c. (λ y. (e.0 q c h).0 (sym (m c) ∙ y), λ l. m c ∙ (e.0 q c h).1 l)
