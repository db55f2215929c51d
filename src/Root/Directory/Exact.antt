-- ===== src/Root/Directory/Exact.antt =====
-- root/src/directory.rs: when the index agrees with the keys, and what taking a name out of it leaves.
use zust.Prelude.{
  ◌≡◌, refl, sym, subst, ◌∙◌, true, false, not, ◌&&◌, ◌||◌, List, [], ◌∷◌, ◌++◌, append_assoc, All,
  Bool-cases, ◌⊎◌, inl, inr,
}
use zust.Dynamic.Value.{Bytes, same_text}
use zust.Dynamic.Texts.{same_text→eq}
use zust.Root.Redis.{Redis, View, member}
use zust.Root.Paths.{is_internal_key, dir_key}
use zust.Root.Paths.Names.{IsName, join, names-snoc}
use zust.Root.Directory.Adding.{enters, other_key, same_dir_key, same_names, same_names→eq, Usable}
use zust.Root.Bits.{clash, both_bits, kept_bit, left_bits, later_bit}
use zust.Root.Directory.Entries.{
  enters→eq, enters-append, enters-below, enters-snoc, nothing_behind,
}

module _ (R : Redis) (V : View R) where
  -- The key of a path of names, which is there and no key of the index.
  abbrev pub Key : R.State → List Bytes → Type 0
  Key s cs = All IsName cs × (V.present s (join cs) ≡ true) × (is_internal_key (join cs) ≡ false)

  abbrev pub Named : R.State → List Bytes → Bytes → Type 0
  Named s q d = (cs : List Bytes) × Key s cs × (enters cs q d ≡ true)

  -- Every name on the path of a key is in the index.
  abbrev pub Complete : R.State → Type 0
  Complete s =
      (cs q : List Bytes) (d : Bytes)
      → Key s cs
      → All IsName q
      → enters cs q d ≡ true
      → V.holds s (dir_key (join q)) d ≡ true

  -- Every name in the index is on the path of a key, or on one more path.
  abbrev pub SoundBut : List Bytes → R.State → Type 0
  SoundBut ps s =
      (q : List Bytes) (d : Bytes)
      → All IsName q
      → V.holds s (dir_key (join q)) d ≡ true
      → Named s q d ⊎ (enters ps q d ≡ true)

  abbrev pub SameKeys : R.State → R.State → Type 0
  SameKeys s s' = (j : Bytes) → is_internal_key j ≡ false → V.present s' j ≡ V.present s j

  pub Named-same :
      (s s' : R.State) (q : List Bytes) (d : Bytes) → SameKeys s s' → Named s q d → Named s' q d
  Named-same s s' q d k (cs, (h, there, i), e) = (cs, (h, k (join cs) i ∙ there, i), e)

  -- A directory on the path that still has a name is on the path of a key.
  pub SoundBut-name :
      (s : R.State) (ps : List Bytes) (d : Bytes)
      → All IsName ps
      → SoundBut ps s
      → V.holds s (dir_key (join ps)) d ≡ true
      → SoundBut [] s
  SoundBut-name s ps d h a t q e k v = elim (a q e k v) [
    | inl n ↦ inl n
    | inr y ↦ elim (a ps d h t) [
      | inl (cs, key, z) ↦ inl (cs, key, enters-below cs q e ps d z y)
      | inr z ↦ absurd (nothing_behind ps d z)
    ]
  ]

  pub SoundBut-Key : (s : R.State) (ps : List Bytes) → Key s ps → SoundBut ps s → SoundBut [] s
  SoundBut-Key s ps k a q e l v = elim (a q e l v) [ inl n ↦ inl n | inr y ↦ inl (ps, k, y) ]

  -- What holds when the last name of the path `ps ++ c ∷ []` is about to be taken out: the path is
  -- no key, and has nothing behind it.
  abbrev pub Leaf : List Bytes → R.State → Type 0
  Leaf cs s =
      Usable R V s
      × Complete s
      × SoundBut cs s
      × (V.present s (join cs) ≡ false)
      × ((d : Bytes) → V.holds s (dir_key (join cs)) d ≡ false)

  abbrev pub Index : List Bytes → R.State → R.State → Type 0
  Index ps s s' = Complete s' × SoundBut ps s' × SameKeys s s' × Usable R V s'

  -- No other key needs the name.
  pub unneeded_behind :
      (ps : List Bytes) (c : Bytes) (s : R.State) (cs r : List Bytes)
      → All IsName ps
      → IsName c
      → Leaf (ps ++ c ∷ []) s
      → Key s cs
      → ps ++ c ∷ r ≡ cs
      → ⊥
  unneeded_behind ps c s cs [] h n l k f =
      clash (V.present s (join cs)) k.1 (subst (λ z. V.present s (join z) ≡ false) f l.3)
  unneeded_behind ps c s cs (x ∷ r) h n l k f =
      clash (V.holds s (dir_key (join (ps ++ c ∷ []))) x)
        (l.1 cs (ps ++ c ∷ []) x k (names-snoc ps c h n) (
          subst (λ z. enters z (ps ++ c ∷ []) x ≡ true) (append_assoc ps (c ∷ []) (x ∷ r) ∙ f)
            (enters-append (ps ++ c ∷ []) x r)))
        (l.4 x)

  pub unneeded :
      (ps : List Bytes) (c : Bytes) (s : R.State) (cs : List Bytes)
      → All IsName ps
      → IsName c
      → Leaf (ps ++ c ∷ []) s
      → Key s cs
      → enters cs ps c ≡ true
      → ⊥
  unneeded ps c s cs h n l k e =
      let (r, f) = enters→eq cs ps c e in unneeded_behind ps c s cs r h n l k f

  pub Index-removed :
      (ps : List Bytes) (c : Bytes) (s s' : R.State)
      → All IsName ps
      → IsName c
      → Leaf (ps ++ c ∷ []) s
      → ((j d : Bytes)
          → V.holds s' j d
            ≡ (not (same_text (dir_key (join ps)) j && same_text c d) && V.holds s j d))
      → ((j : Bytes) → same_text (dir_key (join ps)) j ≡ false → V.present s' j ≡ V.present s j)
      → ((j : Bytes) → V.is_set s' j ≡ V.is_set s j)
      → Index ps s s'
  Index-removed ps c s s' h n l a b u = (
    λ cs q d (k, there, i) z e.
        entry q d z
        ∙ kept_bit (same_names ps q && same_text c d) (V.holds s (dir_key (join q)) d)
            (λ y.
              unneeded ps c s cs h n l (k, sym (same (join cs) i) ∙ there, i) (needed cs q d e y))
            (l.1 cs q d (k, sym (same (join cs) i) ∙ there, i) z e),
    λ q d z v.
        let (gone, held) = left_bits (same_names ps q && same_text c d) _ (sym (entry q d z) ∙ v) in
        elim (l.2 q d z held) [
          | inl y ↦ inl (Named-same s s' q d same y)
          | inr y ↦ elim (enters-snoc ps q c d y) [
            | inl t ↦ absurd (clash (same_names ps q && same_text c d) t gone)
            | inr t ↦ inr t
          ]
        ],
    same,
    λ p. u (dir_key p) ∙ l.0 p,
  )
    where
      same : SameKeys s s'
      same j i = b j (other_key (join ps) j i)

      entry :
          (q : List Bytes) (d : Bytes)
          → All IsName q
          → V.holds s' (dir_key (join q)) d
            ≡ (not (same_names ps q && same_text c d) && V.holds s (dir_key (join q)) d)
      entry q d z = a (dir_key (join q)) d ∙ rw (same_dir_key ps q h z) refl

      needed :
          (cs q : List Bytes) (d : Bytes)
          → enters cs q d ≡ true
          → (same_names ps q && same_text c d) ≡ true
          → enters cs ps c ≡ true
      needed cs q d e y =
          let (f, g) = both_bits (same_names ps q) (same_text c d) y in
          rw (same_names→eq ps q f, same_text→eq c d g) e

  -- A server that deletes a set without members changes nothing in the index.
  pub Index-deleted :
      (ps : List Bytes) (s s' s'' : R.State)
      → Index ps s s'
      → ((d : Bytes) → V.holds s' (dir_key (join ps)) d ≡ false)
      → ((j d : Bytes)
          → V.holds s'' j d ≡ (not (member j (dir_key (join ps) ∷ [])) && V.holds s' j d))
      → ((j : Bytes)
          → V.present s'' j ≡ (not (member j (dir_key (join ps) ∷ [])) && V.present s' j))
      → ((j : Bytes) → V.is_set s'' j ≡ (member j (dir_key (join ps) ∷ []) || V.is_set s' j))
      → Index ps s s''
  unfolding member
  Index-deleted ps s s' s'' x z a b u = (
    λ cs q d (k, there, i) y e.
        holds (dir_key (join q)) d ∙ x.0 cs q d (k, sym (same (join cs) i) ∙ there, i) y e,
    λ q d y v. elim (x.1 q d y (sym (holds (dir_key (join q)) d) ∙ v)) [
      | inl w ↦ inl (Named-same s' s'' q d same w)
      | inr w ↦ inr w
    ],
    λ j i. same j i ∙ x.2 j i,
    λ p. u (dir_key p) ∙ later_bit _ (V.is_set s' (dir_key p)) (x.3 p),
  )
    where
      same : SameKeys s' s''
      same j i = b j ∙ rw (other_key (join ps) j i) refl

      holds : (j d : Bytes) → V.holds s'' j d ≡ V.holds s' j d
      holds j d = elim (Bool-cases (same_text (dir_key (join ps)) j)) [
        | inl y ↦
            a j d
            ∙ rw y (
                sym (
                  subst (λ k. V.holds s' k d ≡ false) (same_text→eq (dir_key (join ps)) j y) (z d)))
        | inr n ↦ a j d ∙ rw n refl
      ]

  -- The names of the index are exactly those on the paths of the keys, which are as they were.
  abbrev pub Exact : R.State → R.State → Type 0
  Exact s s' = Complete s' × SoundBut [] s' × SameKeys s s' × Usable R V s'
