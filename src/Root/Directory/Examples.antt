-- ===== src/Root/Directory/Examples.antt =====
-- root/src/directory.rs: runs of the index on a server in memory, and the theorems at concrete inputs.
use zust.Prelude.{
  ◌≡◌, refl, sym, subst, ◌∙◌, arith, Bool, true, false, ◌&&◌, ◌||◌, List, [], ◌∷◌, All, ◌⊎◌, ◌↔◌,
  inl, inr,
}
use zust.Prelude.Outcome.{ok, ◌>>=◌}
use zust.Dynamic.Value.{Bytes, same_text}
use zust.Dynamic.Texts.{same_text→eq}
use zust.Root.Bits.{both_bits}
use zust.Root.Redis.{Replies, member}
use zust.Root.Redis.Memory.{
  memory, memory_view, memory-IsRedis, Store, has, keyed, without, drop_keys, drop_texts, members,
  count, keys_of,
}
use zust.Root.Paths.{
  slash, is_internal_key, normalize_path, dir_key, push_name, starts_with, trim_start, trim_end,
  split, non_empty, parent_child, parent_child_of, rsplit_once,
}
use zust.Root.Paths.Names.{IsName, join, join-injective}
use zust.Root.Directory.{
  add_path, remove_path, rebuild, children, delete_keys, add_paths, add_normalized, add_names,
  index_keys, other_keys, remove_normalized, has_index_children, remove_empty_entry,
}
use zust.Root.Directory.Adding.{
  enters, path_names, Usable, add_path_lem, Entered, same_dir_key, same_names→eq, other_key,
}
use zust.Root.Directory.Entries.{Outside}
use zust.Root.Directory.Exact.{Key, Complete, SoundBut, Exact}
use zust.Root.Directory.Rebuild.{Listed, children-rebuild}
use zust.Root.Directory.Removing.{remove_path-Exact}

abbrev name_a : Bytes
name_a = b'a' ∷ []

abbrev name_b : Bytes
name_b = b'b' ∷ []

abbrev name_c : Bytes
name_c = b'c' ∷ []

abbrev path_ab : Bytes
path_ab = b'a' ∷ slash ∷ b'b' ∷ []

abbrev path_ac : Bytes
path_ac = b'a' ∷ slash ∷ b'c' ∷ []

abbrev in_root : List Bytes
in_root = []

abbrev in_a : List Bytes
in_a = name_a ∷ []

-- The key "a/b" was deleted, and "a/c" is there.
abbrev after_del : Store
after_del = (
  (dir_key (join in_root), name_a)
      ∷ (dir_key (join in_a), name_b)
      ∷ (dir_key (join in_a), name_c)
      ∷ [],
  path_ac ∷ [],
)

abbrev names_ac : List Bytes
names_ac = name_a ∷ name_c ∷ []

abbrev names_ab : List Bytes
names_ab = name_a ∷ name_b ∷ []

after_del-Usable : Usable memory memory_view after_del
unfolding member dir_key same_text
after_del-Usable p = refl

names_ac-IsName : All IsName names_ac
names_ac-IsName = ((refl, (refl, tt)), ((refl, (refl, tt)), tt))

names_ab-IsName : All IsName names_ab
names_ab-IsName = ((refl, (refl, tt)), ((refl, (refl, tt)), tt))

only_names_ac : (cs : List Bytes) → Key memory memory_view after_del cs → names_ac ≡ cs
unfolding keyed member push_name
only_names_ac cs (h, there, i) = join-injective names_ac cs names_ac-IsName h (
    same_text→eq path_ac (join cs) (
      last_bit (same_text path_ac (join cs))
        (rw (other_key (join in_root) (join cs) i, other_key (join in_a) (join cs) i) at there)))
  where
    last_bit : (a : Bool) → (a || false) ≡ true → a ≡ true
    last_bit a h = ground arith

entry :
    (p q : List Bytes) (c d : Bytes)
    → All IsName p
    → All IsName q
    → (same_text (dir_key (join p)) (dir_key (join q)) && same_text c d) ≡ true
    → (p ≡ q) × (c ≡ d)
entry p q c d h k e =
    let (f, g) = both_bits (same_text (dir_key (join p)) (dir_key (join q))) (same_text c d) e in
    (same_names→eq p q (sym (same_dir_key p q h k) ∙ f), same_text→eq c d g)

one_of : (a b : Bool) → (a || b) ≡ true → (a ≡ true) ⊎ (b ≡ true)
one_of true b h = inl refl
one_of false b h = inr h

ac_Key : Key memory memory_view after_del names_ac
unfolding is_internal_key same_text keyed member dir_key push_name starts_with
ac_Key = (names_ac-IsName, refl, refl)

ab_normal : normalize_path path_ab ≡ join names_ab
unfolding push_name normalize_path trim_start trim_end
ab_normal = refl

ab_absent : memory_view.present after_del (join names_ab) ≡ false
unfolding keyed member push_name same_text dir_key
ab_absent = refl

moved :
    (cs p q : List Bytes) (c d : Bytes)
    → (p ≡ q) × (c ≡ d)
    → enters cs p c ≡ true
    → enters cs q d ≡ true
moved cs p q c d (f, g) h = rw (← f, ← g) h

index_entries : SoundBut memory memory_view names_ab after_del
unfolding has enters same_text
index_entries q d h e =
    elim (one_of (same_text (dir_key (join in_root)) (dir_key (join q)) && same_text name_a d) _
      e) [
        | inl x ↦ inl (
          names_ac,
          ac_Key,
          moved names_ac in_root q name_a d (entry in_root q name_a d tt h x) refl,
        )
        | inr x ↦
            elim (one_of (same_text (dir_key (join in_a)) (dir_key (join q)) && same_text name_b d)
              _ x) [
                | inl y ↦ inr (
                    moved names_ab in_a q name_b d
                      (entry in_a q name_b d ((refl, (refl, tt)), tt) h y) refl)
                | inr y ↦
                    elim (one_of
                      (same_text (dir_key (join in_a)) (dir_key (join q)) && same_text name_c d) _
                      y) [
                        | inl z ↦ inl (
                          names_ac,
                          ac_Key,
                          moved names_ac in_a q name_c d
                              (entry in_a q name_c d ((refl, (refl, tt)), tt) h z) refl,
                        )
                        | inr z ↦ absurd (cc)
                      ]
              ]
      ]

ac_held :
    (q : List Bytes) (d : Bytes)
    → enters names_ac q d ≡ true
    → has (dir_key (join q)) d after_del.0 ≡ true
unfolding has enters same_text push_name dir_key normalize_path trim_start trim_end
ac_held [] d h = rw (← same_text→eq name_a d h) refl
ac_held (y ∷ []) d h =
    let (f, g) = both_bits (same_text name_a y) (same_text name_c d) h in
    rw (← same_text→eq name_a y f, ← same_text→eq name_c d g) refl
ac_held (y ∷ z ∷ q) d h = absurd (nothing (same_text name_a y) (same_text name_c z) h)
  where
    nothing : (a b : Bool) → (a && (b && false)) ≡ true → ⊥
    nothing a b h = ground arith

after_del-Complete : Complete memory memory_view after_del
after_del-Complete cs q d k h e =
    ac_held q d (subst (λ z. enters z q d ≡ true) (sym (only_names_ac cs k)) e)

ab-Outside : Outside names_ab
unfolding is_internal_key same_text push_name starts_with
ab-Outside [] r e = refl
ab-Outside (x ∷ []) r e = rw (first x r e) refl
  where
    first : (x : Bytes) (r : List Bytes) → x ∷ r ≡ names_ab → x ≡ name_a
    first x r e = cc
ab-Outside (x ∷ y ∷ []) r e = rw (first x y r e) refl
  where
    first : (x y : Bytes) (r : List Bytes) → x ∷ y ∷ r ≡ names_ab → x ≡ name_a
    first x y r e = cc
ab-Outside (x ∷ y ∷ z ∷ q) r e = absurd (cc)

remove_path-Exact_example :
    Replies (Exact memory memory_view after_del) (remove_path memory path_ab after_del)
remove_path-Exact_example =
    remove_path-Exact memory memory_view memory-IsRedis path_ab names_ab after_del ab_normal
      names_ab-IsName ab-Outside after_del-Usable after_del-Complete index_entries ab_absent

-- The removed name is gone and the other ones are there.
removed : (remove_path memory path_ab after_del >>= children memory name_a) ≡ ok (name_c ∷ [])
unfolding rebuild children delete_keys add_paths add_path add_normalized add_names index_keys
    other_keys remove_path remove_normalized has_index_children remove_empty_entry is_internal_key
    normalize_path dir_key push_name starts_with trim_start trim_end same_text member split
    non_empty parent_child parent_child_of rsplit_once has keyed without drop_keys drop_texts
    members count keys_of
removed = refl

add_path_lem_example :
    Replies
      (Entered memory memory_view [] (path_names path_ab) after_del)
      (add_path memory path_ab after_del)
unfolding normalize_path trim_start trim_end is_internal_key starts_with same_text
add_path_lem_example =
    add_path_lem memory memory_view memory-IsRedis path_ab after_del after_del-Usable refl

-- The index is lost, and there are two keys, one of them with too many slashes.
abbrev lost_index : Store
lost_index = ([], (slash ∷ b'a' ∷ slash ∷ slash ∷ b'b' ∷ []) ∷ path_ac ∷ [])

children-rebuild_example :
    Replies
      (λ cs. (c : Bytes) → (member c cs ≡ true) ↔ Listed memory memory_view lost_index in_a c)
      (rebuild memory lost_index >>= children memory (join in_a))
children-rebuild_example =
    children-rebuild memory memory_view memory-IsRedis in_a lost_index ((refl, (refl, tt)), tt)

rebuilt : (rebuild memory lost_index >>= children memory name_a) ≡ ok (name_c ∷ name_b ∷ [])
unfolding rebuild children delete_keys add_paths add_path add_normalized add_names index_keys
    other_keys remove_path remove_normalized has_index_children remove_empty_entry is_internal_key
    normalize_path dir_key push_name starts_with trim_start trim_end same_text member split
    non_empty parent_child parent_child_of rsplit_once has keyed without drop_keys drop_texts
    members count keys_of
rebuilt = refl

-- A key with a double slash shares its names with the key without; its removal takes the other key's
-- name out of the index.
abbrev double_slash : Bytes
double_slash = b'a' ∷ slash ∷ slash ∷ b'b' ∷ []

abbrev both_spellings : Store
both_spellings = ([], double_slash ∷ path_ab ∷ [])

hidden :
    (rebuild memory both_spellings >>= λ s. memory.del (double_slash ∷ []) s >>= λ (s', n).
    remove_path memory double_slash s' >>= children memory name_a)
    ≡ ok []
unfolding rebuild children delete_keys add_paths add_path add_normalized add_names index_keys
    other_keys remove_path remove_normalized has_index_children remove_empty_entry is_internal_key
    normalize_path dir_key push_name starts_with trim_start trim_end same_text member split
    non_empty parent_child parent_child_of rsplit_once has keyed without drop_keys drop_texts
    members count keys_of
hidden = refl
