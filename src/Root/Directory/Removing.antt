-- ===== src/Root/Directory/Removing.antt =====
-- root/src/directory.rs: `remove_path` takes the names of a path that is gone out of the index, and
-- stops where another key needs them.
use zust.Prelude.{
  ℕ, zero, suc, ◌+◌, ◌<◌, ◌≡◌, refl, sym, subst, ap, ◌∙◌, arith, Bool, true, false, List, [], ◌∷◌,
  ◌++◌, length, append-nil, All, Bool-cases, inl, inr, ◌==◌, if◌then◌else◌,
}
use zust.Prelude.Outcome.{ok, ◌>>=◌}
use zust.Dynamic.Value.{Bytes}
use zust.Root.Redis.{Redis, View, IsRedis, Replies, bind-Replies, Replies-mono}
use zust.Root.Paths.{
  is_empty, dir_key, normalize_path, parent_child, parent_child_of, trim_start, trim_end,
}
use zust.Root.Paths.Names.{IsName, join, parent_child-join}
use zust.Root.Directory.{has_index_children, remove_empty_entry, remove_normalized, remove_path}
use zust.Root.Directory.Adding.{Usable}
use zust.Root.Bits.{stays_false, zero_lem, negated_bit, unnegated_bit}
use zust.Root.Directory.Entries.{
  empty-join, length-join_from, Outside, Outside-snoc, length-snoc, list-Last, names-front,
}
use zust.Root.Directory.Exact.{
  Complete, SoundBut, SoundBut-name, SoundBut-Key, Leaf, Index, Index-removed, Index-deleted, Exact,
}

module _ (R : Redis) (V : View R) (L : IsRedis R V) where
  above_lem :
      (fuel : ℕ) (ps : List Bytes) (s s'' : R.State)
      → All IsName ps
      → Outside ps
      → ((d : Bytes) → V.holds s'' (dir_key (join ps)) d ≡ false)
      → Index R V ps s s''
      → ((s' : R.State)
          → Leaf R V ps s'
          → Replies (Exact R V s') (remove_empty_entry R fuel (join ps) s'))
      → (there : Bool) → there ≡ V.present s'' (join ps)
      → Replies (Exact R V s) (if there then ok s'' else remove_empty_entry R fuel (join ps) s'')
  above_lem fuel ps s s'' h o z x ih true e =
      (x.0, SoundBut-Key R V s'' ps (h, sym e, o ps [] (append-nil ps)) x.1, x.2, x.3)
  above_lem fuel ps s s'' h o z x ih false e =
      Replies-mono (Exact R V s'') (Exact R V s) (remove_empty_entry R fuel (join ps) s'')
        (ih s'' (x.3, x.0, x.1, sym e, z)) λ t y. (y.0, y.1, λ j i. y.2 j i ∙ x.2 j i, y.3)

  root_lem :
      (ps : List Bytes) (s s'' : R.State)
      → All IsName ps
      → Index R V ps s s''
      → is_empty (join ps) ≡ true
      → Exact R V s s''
  root_lem ps s s'' h x e = (x.0, subst (λ z. SoundBut R V z s'') (empty-join ps h e) x.1, x.2, x.3)

  kept_lem :
      (ps : List Bytes) (s s' : R.State)
      → All IsName ps
      → Index R V ps s s'
      → (d : Bytes) × (V.holds s' (dir_key (join ps)) d ≡ true)
      → Exact R V s s'
  kept_lem ps s s' h x (d, v) = (x.0, SoundBut-name R V s' ps d h x.1 v, x.2, x.3)

  emptied_lem :
      (fuel : ℕ) (ps : List Bytes) (s s' : R.State)
      → All IsName ps
      → Outside ps
      → ((d : Bytes) → V.holds s' (dir_key (join ps)) d ≡ false)
      → Index R V ps s s'
      → ((t : R.State)
          → Leaf R V ps t
          → Replies (Exact R V t) (remove_empty_entry R fuel (join ps) t))
      → Replies (Exact R V s) (
          R.del (dir_key (join ps) ∷ []) s' >>= λ (s'', deleted).
          if is_empty (join ps)
          then ok s''
          else (R.exists_key (join ps) s'' >>= λ there.
              if there then ok s'' else remove_empty_entry R fuel (join ps) s''))
  emptied_lem fuel ps s s' h o z x ih =
      bind-Replies _ (Exact R V s) (R.del (dir_key (join ps) ∷ []) s') _
        (L.del_lem s' (dir_key (join ps) ∷ []))
        λ (s'', n) d.
          let y : Index R V ps s s'' = Index-deleted R V ps s s' s'' x z d.0 d.1 d.2 in
          elim (Bool-cases (is_empty (join ps))) [
            | inl e ↦ rw e (root_lem ps s s'' h y e)
            | inr e ↦ rw e (
                bind-Replies _ (Exact R V s) (R.exists_key (join ps) s'') _
                  (L.exists_lem s'' (join ps))
                  λ there t.
                    above_lem fuel ps s s'' h o
                      (λ c. d.0 (dir_key (join ps)) c ∙ stays_false _ _ (z c)) y ih there t)
          ]

  step_lem :
      (fuel : ℕ) (ps : List Bytes) (c : Bytes) (s : R.State)
      → All IsName ps
      → IsName c
      → Outside ps
      → Leaf R V (ps ++ c ∷ []) s
      → ((t : R.State)
          → Leaf R V ps t
          → Replies (Exact R V t) (remove_empty_entry R fuel (join ps) t))
      → Replies (Exact R V s) (remove_empty_entry R (suc fuel) (join (ps ++ c ∷ [])) s)
  unfolding remove_empty_entry
  step_lem fuel ps c s h n o l ih =
      rw (remove_empty_entry, parent_child-join ps c h n)
        (bind-Replies _ (Exact R V s) (R.srem (dir_key (join ps)) c s) _
          (L.srem_lem s (dir_key (join ps)) c (l.0 (join ps)))
          λ (s', k) a.
            let x : Index R V ps s s' = Index-removed R V ps c s s' h n l a.0 a.1 a.2 in
            bind-Replies _ (Exact R V s) (R.scard (dir_key (join ps)) s') _
              (L.scard_lem s' (dir_key (join ps)) (x.3 (join ps)))
              λ m t. elim (Bool-cases (m == 0)) [
                | inl y ↦ rw y (emptied_lem fuel ps s s' h o (t.0 (zero_lem m y)) x ih)
                | inr y ↦ rw y (kept_lem ps s s' h x (t.1 y))
              ])

  remove_empty_entry_lem :
      (fuel : ℕ) (cs : List Bytes) (s : R.State)
      → All IsName cs
      → Outside cs
      → length cs < fuel
      → Leaf R V cs s
      → Replies (Exact R V s) (remove_empty_entry R fuel (join cs) s)
  remove_empty_entry_lem zero cs s h o n l = absurd (omega (arith, n))
  remove_empty_entry_lem (suc fuel) cs s h o n l = elim (list-Last cs) [
    | inl e ↦
        subst (λ z. Replies (Exact R V s) (remove_empty_entry R (suc fuel) (join z) s)) (sym e)
          (unfold remove_empty_entry parent_child parent_child_of normalize_path trim_start
              trim_end in
            (l.1, subst (λ z. SoundBut R V z s) e l.2, λ j i. refl, l.0))
    | inr (ps, c, e) ↦
        subst (λ z. Replies (Exact R V s) (remove_empty_entry R (suc fuel) (join z) s)) e
          (let l' : Leaf R V (ps ++ c ∷ []) s = subst (λ z. Leaf R V z s) (sym e) l in
            let (hs, hc) = names-front ps c (subst (All IsName) (sym e) h) in
            let os = Outside-snoc ps c (subst Outside (sym e) o) in
            step_lem fuel ps c s hs hc os l' λ t y.
              remove_empty_entry_lem fuel ps t hs os
                (omega (arith, n, length-snoc ps c, ap length e)) y)
  ]

  -- Whether a directory has names in the index.
  abbrev Inhabited : Bytes → R.State → Bool → Type 0
  Inhabited p s children =
      (children ≡ true → (d : Bytes) × (V.holds s (dir_key p) d ≡ true))
      × (children ≡ false → (d : Bytes) → V.holds s (dir_key p) d ≡ false)

  has_index_children_lem :
      (p : Bytes) (s : R.State) → Usable R V s → Replies (Inhabited p s) (has_index_children R p s)
  unfolding has_index_children
  has_index_children_lem p s u =
      bind-Replies _ (Inhabited p s) (R.scard (dir_key p) s) _ (L.scard_lem s (dir_key p) (u p))
        λ n t. (λ y. t.1 (negated_bit (n == 0) y), λ y. t.0 (zero_lem n (unnegated_bit (n == 0) y)))

  has_children_lem :
      (cs : List Bytes) (s : R.State)
      → All IsName cs
      → Outside cs
      → Usable R V s
      → Complete R V s
      → SoundBut R V cs s
      → V.present s (join cs) ≡ false
      → Replies (Exact R V s) (
          has_index_children R (join cs) s >>= λ children.
          if children then ok s else remove_empty_entry R (length (join cs) + 1) (join cs) s)
  has_children_lem cs s h o u a b z =
      bind-Replies (Inhabited (join cs) s) (Exact R V s) (has_index_children R (join cs) s) _
        (has_index_children_lem (join cs) s u)
        λ children y. elim (Bool-cases children) [
          | inl e ↦ rw e (let (d, v) = y.0 e in (a, SoundBut-name R V s cs d h b v, λ j i. refl, u))
          | inr e ↦ rw e (
              remove_empty_entry_lem (length (join cs) + 1) cs s h o
                (omega (arith, length-join_from [] cs h)) (u, a, b, z, y.1 e))
        ]

  -- Once a key is gone, `remove_path` makes the index exact again: when it returns, and it does, the
  -- names in the index are exactly those on the paths of the keys that there are, and it changed no
  -- key outside the index. Before, the index had every name on the path of a key, and no other than
  -- these and those on the removed path. The path is canonical up to slashes at its ends, as the
  -- keys here are, and neither it nor a directory on it is spelled like a key of the index. A server
  -- that answers, and an index whose keys hold sets, are assumed.
  pub remove_path-Exact :
      (path : Bytes) (cs : List Bytes) (s : R.State)
      → normalize_path path ≡ join cs
      → All IsName cs
      → Outside cs
      → Usable R V s
      → Complete R V s
      → SoundBut R V cs s
      → V.present s (join cs) ≡ false
      → Replies (Exact R V s) (remove_path R path s)
  unfolding remove_path remove_normalized
  remove_path-Exact path cs s e h o u a b z =
      rw (e, o cs [] (append-nil cs))
        (elim (Bool-cases (is_empty (join cs))) [
          | inl y ↦ rw y (a, subst (λ t. SoundBut R V t s) (empty-join cs h y) b, λ j i. refl, u)
          | inr y ↦ rw y (has_children_lem cs s h o u a b z)
        ])
