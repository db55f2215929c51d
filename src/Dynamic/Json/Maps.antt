-- ===== src/Dynamic/Json/Maps.antt =====
-- dynamic/src/json.rs: the loop of a map reads the entries that are written with commas between.
use zust.Prelude.{
  ℕ, zero, suc, ◌+◌, ◌≤◌, ◌≡◌, refl, ap, ◌∙◌, arith, false, true, List, [], ◌∷◌, ◌++◌, append_assoc,
  All, length, length-append,
}
use zust.Prelude.Outcome.{ok, ◌>>=◌}
use zust.Dynamic.Value.{Bytes, Dynamic, map, Fields, end, insert}
use zust.Dynamic.Json.Buffer.{Read, Text, is_white}
use zust.Dynamic.Json.Strings.{str_to_json}
use zust.Dynamic.Json.Texts.{IsPlain, get_string-str_to_json}
use zust.Dynamic.Json.Numbers.{contains}
use zust.Dynamic.Json.Read.{colon, next_item, entry, map_loop, map_at}
use zust.Dynamic.Json.Tokens.{Ends}
use zust.Dynamic.Json.Lists.{StartsValue, ReadsAs, skip-here, next_item-close, next_item-comma}

-- A text that is read back: in UTF-8, and without the bytes 8 and 12.
abbrev pub IsText : Text → Bytes → Type 0
IsText t s = (t.valid_utf8 s ≡ true) × All IsPlain s

-- The keys with the texts of their values and what these are read as.
abbrev pub Entries : Type 0
Entries = List (Bytes × Bytes × Dynamic)

abbrev pub more_entries : Entries → Bytes
more_entries [] = []
more_entries ((k, bs, v) ∷ rest) = b',' ∷ (str_to_json k ++ b':' ∷ (bs ++ more_entries rest))

abbrev pub all_entries : Entries → Bytes
all_entries [] = []
all_entries ((k, bs, v) ∷ rest) = str_to_json k ++ b':' ∷ (bs ++ more_entries rest)

abbrev pub inserted : Entries → Fields → Fields
inserted [] acc = acc
inserted ((k, bs, v) ∷ rest) acc = inserted rest (insert k v acc)

reassociate :
    (k bs : Bytes) (es : Entries) (rest : Bytes)
    → (str_to_json k ++ b':' ∷ (bs ++ more_entries es)) ++ b'}' ∷ rest
      ≡ str_to_json k ++ b':' ∷ (bs ++ (more_entries es ++ b'}' ∷ rest))
reassociate k bs es rest =
    append_assoc (str_to_json k) (b':' ∷ (bs ++ more_entries es)) (b'}' ∷ rest)
    ∙ ap (λ t. str_to_json k ++ b':' ∷ t) (append_assoc bs (more_entries es) (b'}' ∷ rest))

length-entry :
    (k bs : Bytes) (es : Entries)
    → length (str_to_json k ++ b':' ∷ (bs ++ more_entries es))
      ≡ length (str_to_json k) + 1 + length bs + length (more_entries es)
length-entry k bs es = omega (
  arith,
  length-append (str_to_json k) (b':' ∷ (bs ++ more_entries es)),
  length-append bs (more_entries es),
)

module _ (dec : Bytes → Read Dynamic) (t : Text) where
  abbrev pub EntriesRead : Entries → Type 0
  EntriesRead [] = Unit
  EntriesRead ((k, bs, v) ∷ rest) = IsText t k × ReadsAs dec bs v × EntriesRead rest

  colon-here :
      (bs rest : Bytes) (at : ℕ)
      → StartsValue bs
      → colon (b':' ∷ (bs ++ rest)) at ≡ ok (bs ++ rest, at + 1)
  unfolding colon
  colon-here [] rest at s = absurd s
  colon-here (c ∷ bs) rest at s = skip-here (b':' ∷ []) c (bs ++ rest) at s.0

  -- An entry up to its value.
  entry-value :
      (k bs rest : Bytes) (at : ℕ) (v : Dynamic)
      → IsText t k
      → ReadsAs dec bs v
      → Ends rest
      → entry dec t (str_to_json k ++ b':' ∷ (bs ++ rest)) at ≡ (
          next_item (bs ++ rest) (at + length (str_to_json k) + 1) (length bs) >>= λ (here, next).
          ok (k, v, here, next))
  unfolding entry is_white
  entry-value k bs rest at v i h e =
      rw
        (
          get_string-str_to_json t k (b':' ∷ (bs ++ rest)) i.0 i.1,
          skip-here (str_to_json k) b':' (bs ++ rest) at refl,
          colon-here bs rest (at + length (str_to_json k)) h.0,
          h.1 rest e,
        )
        refl

  map_loop-quote :
      (fuel : ℕ) (k rest : Bytes) (at : ℕ) (acc : Fields)
      → map_loop dec t (suc fuel) (str_to_json k ++ rest) at acc ≡ (
          entry dec t (str_to_json k ++ rest) at >>= λ (key, item, here, next).
          map_loop dec t fuel here next (insert key item acc))
  unfolding map_loop str_to_json
  map_loop-quote fuel k rest at acc = refl

  map_loop-close :
      (fuel : ℕ) (rest : Bytes) (at : ℕ) (acc : Fields)
      → map_loop dec t (suc fuel) (b'}' ∷ rest) at acc ≡ ok (acc, at + 1)
  unfolding map_loop
  map_loop-close fuel rest at acc = refl

  map_loop-last :
      (fuel : ℕ) (k bs rest : Bytes) (at : ℕ) (v : Dynamic) (acc : Fields)
      → IsText t k
      → ReadsAs dec bs v
      → map_loop dec t (suc (suc fuel)) (str_to_json k ++ b':' ∷ (bs ++ b'}' ∷ rest)) at acc
        ≡ ok (insert k v acc, at + length (str_to_json k) + 1 + length bs + 1)
  unfolding is_white contains
  map_loop-last fuel k bs rest at v acc i h =
      rw
        (
          map_loop-quote (suc fuel) k (b':' ∷ (bs ++ b'}' ∷ rest)) at acc,
          entry-value k bs (b'}' ∷ rest) at v i h refl,
          next_item-close bs b'}' rest (at + length (str_to_json k) + 1) refl refl,
        )
        (map_loop-close fuel rest (at + length (str_to_json k) + 1 + length bs) (insert k v acc))

  next_item-entry :
      (bs k rest : Bytes) (at : ℕ)
      → next_item (bs ++ b',' ∷ (str_to_json k ++ rest)) at (length bs)
        ≡ ok (str_to_json k ++ rest, at + length bs + 1)
  unfolding str_to_json is_white
  next_item-entry bs k rest at = next_item-comma bs b'"' _ at refl

  map_loop-next :
      (fuel : ℕ) (k bs k' rest : Bytes) (at : ℕ) (v : Dynamic) (acc : Fields)
      → IsText t k
      → ReadsAs dec bs v
      → map_loop dec t
          (suc fuel)
          (str_to_json k ++ b':' ∷ (bs ++ b',' ∷ (str_to_json k' ++ rest)))
          at
          acc
        ≡ map_loop dec t fuel
            (str_to_json k' ++ rest)
            (at + length (str_to_json k) + 1 + length bs + 1)
            (insert k v acc)
  unfolding contains
  map_loop-next fuel k bs k' rest at v acc i h =
      rw
        (
          map_loop-quote fuel k (b':' ∷ (bs ++ b',' ∷ (str_to_json k' ++ rest))) at acc,
          entry-value k bs (b',' ∷ (str_to_json k' ++ rest)) at v i h refl,
          next_item-entry bs k' rest (at + length (str_to_json k) + 1),
        )
        refl

  map_loop-entries :
      (es : Entries) (k bs rest : Bytes) (v : Dynamic) (fuel at : ℕ) (acc : Fields)
      → IsText t k
      → ReadsAs dec bs v
      → EntriesRead es
      → length es + 2 ≤ fuel
      → map_loop dec t fuel
          (str_to_json k ++ b':' ∷ (bs ++ (more_entries es ++ b'}' ∷ rest)))
          at
          acc
        ≡ ok (
          inserted es (insert k v acc),
          at + length (str_to_json k) + 1 + length bs + length (more_entries es) + 1,
        )
  map_loop-entries es k bs rest v zero at acc i h a f = absurd (omega arith)
  map_loop-entries es k bs rest v (suc zero) at acc i h a f = absurd (omega arith)
  map_loop-entries [] k bs rest v (suc (suc fuel)) at acc i h a f =
      map_loop-last fuel k bs rest at v acc i h ∙ ap (λ n. ok (insert k v acc, n)) (omega arith)
  map_loop-entries ((k', bs', v') ∷ es) k bs rest v (suc (suc fuel)) at acc i h a f =
      rw
        (
          reassociate k' bs' es rest,
          map_loop-next (suc fuel) k bs k' (b':' ∷ (bs' ++ (more_entries es ++ b'}' ∷ rest))) at v
              acc i h,
          map_loop-entries es k' bs' rest v' (suc fuel)
              (at + length (str_to_json k) + 1 + length bs + 1) (insert k v acc) a.0 a.1 a.2
              (omega arith),
          length-entry k' bs' es,
        )
        (ap (λ n. ok (inserted es (insert k' v' (insert k v acc)), n)) (omega arith))

  length-more_entries : (es : Entries) → length es ≤ length (more_entries es)
  length-more_entries [] = omega arith
  length-more_entries ((k, bs, v) ∷ es) =
      omega (arith, length-more_entries es, length-entry k bs es)

  map_at-open :
      (c : ℕ) (rest : Bytes)
      → is_white c ≡ false
      → map_at dec t (b'{' ∷ c ∷ rest) 0 ≡ (
          map_loop dec t (suc (suc (length rest))) (c ∷ rest) 1 end >>= λ (fields, stop).
          ok (map fields, stop))
  unfolding map_at
  map_at-open c rest h = rw (skip-here (b'{' ∷ []) c rest 0 h) (
      ap
        (λ n. map_loop dec t (suc (suc (length rest))) (c ∷ rest) n end >>= λ (fields, stop).
          ok (map fields, stop))
        (omega arith))

  map_at-quote :
      (k rest : Bytes)
      → map_at dec t (b'{' ∷ (str_to_json k ++ rest)) 0 ≡ (
          map_loop dec t (suc (length (str_to_json k ++ rest))) (str_to_json k ++ rest) 1 end
          >>= λ (fields, stop). ok (map fields, stop))
  unfolding str_to_json is_white
  map_at-quote k rest = map_at-open b'"' _ refl

  -- A map, from its bracket on.
  pub map_at-entries :
      (es : Entries) (rest : Bytes)
      → EntriesRead es
      → map_at dec t (b'{' ∷ (all_entries es ++ b'}' ∷ rest)) 0
        ≡ ok (map (inserted es end), length (all_entries es) + 2)
  unfolding map_loop is_white
  map_at-entries [] rest a = rw (map_at-open b'}' rest refl) refl
  map_at-entries ((k, bs, v) ∷ es) rest a =
      let text = b':' ∷ (bs ++ (more_entries es ++ b'}' ∷ rest)) in
      rw
        (
          reassociate k bs es rest,
          map_at-quote k text,
          map_loop-entries es k bs rest v (suc (length (str_to_json k ++ text))) 1 end a.0 a.1 a.2 (
              omega (
                arith,
                length-more_entries es,
                length-append (str_to_json k) text,
                length-append bs (more_entries es ++ b'}' ∷ rest),
                length-append (more_entries es) (b'}' ∷ rest),
              )),
          length-entry k bs es,
        )
        (ap (λ n. ok (map (inserted es (insert k v end)), n)) (omega arith))
