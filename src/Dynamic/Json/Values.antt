-- ===== src/Dynamic/Json/Values.antt =====
-- dynamic/src/json.rs: `from_json` on the text of one value, when its parts are read.
use zust.Prelude.{
  ℕ, suc, ◌^◌, ◌≡◌, refl, ap, ◌∙◌, sym, subst, arith, false, [], ◌∷◌, ◌++◌, append_assoc, length,
  length-append, ◌==◌,
}
use zust.Prelude.Int.{ℤ, InSigned}
use zust.Prelude.Outcome.{ok}
use zust.Dynamic.Value.{Bytes, Dynamic, i64, string, list, map, Items, Fields, end}
use zust.Dynamic.Json.Buffer.{Read, Text, is_white}
use zust.Dynamic.Json.Strings.{str_to_json}
use zust.Dynamic.Json.Numbers.{int_to_string, token_value}
use zust.Dynamic.Json.Texts.{get_string-str_to_json}
use zust.Dynamic.Json.Read.{string_at, token_at, list_at, map_at, value_at, from_json_fuel}
use zust.Dynamic.Json.Write.{to_json}
use zust.Dynamic.Json.Tokens.{
  Ends, IsToken, IsNum, token_at-append, token_at-int, int_to_string-cons,
}
use zust.Dynamic.Json.Portable.{FieldsJson, items_back, fields_back}
use zust.Dynamic.Json.Chunks.{
  chunks, entry_chunks, all_items-chunks, values-chunks, all_entries-entry_chunks, inserted-end,
}
use zust.Dynamic.Json.Lists.{
  StartsValue, ReadsAs, skip_white-here, Chunks, values, all_items, AllRead, list_at-chunks,
}
use zust.Dynamic.Json.Maps.{IsText, Entries, all_entries, inserted, EntriesRead, map_at-entries}

module _ (t : Text) where
  from_json_fuel-value :
      (fuel : ℕ) (bs : Bytes) (v : Dynamic)
      → StartsValue bs
      → ((rest : Bytes)
          → Ends rest
          → value_at (from_json_fuel t fuel) t (bs ++ rest) 0 ≡ ok (v, length bs))
      → ReadsAs (from_json_fuel t (suc fuel)) bs v
  unfolding from_json_fuel
  from_json_fuel-value fuel [] v s h = absurd s
  from_json_fuel-value fuel (c ∷ bs) v s h =
      (s, λ rest e. rw (skip_white-here c (bs ++ rest) s.0) (h rest e))

  quoted : (s : Bytes) → StartsValue (str_to_json s)
  unfolding str_to_json is_white
  quoted s = (refl, refl)

  pub value_at-quoted :
      (s rest : Bytes) (dec : Bytes → Read Dynamic) (at : ℕ)
      → value_at dec t (str_to_json s ++ rest) at ≡ string_at t (str_to_json s ++ rest)
  unfolding value_at str_to_json
  value_at-quoted s rest dec at = refl

  pub text_ReadsAs :
      (fuel : ℕ) (s : Bytes)
      → IsText t s
      → ReadsAs (from_json_fuel t (suc fuel)) (str_to_json s) (string s)
  unfolding value_at string_at
  text_ReadsAs fuel s i = from_json_fuel-value fuel (str_to_json s) (string s) (quoted s) λ rest e.
      value_at-quoted s rest (from_json_fuel t fuel) 0
      ∙ rw (get_string-str_to_json t s rest i.0 i.1) refl

  -- A text that starts with no bracket and no quote is a token.
  abbrev StartsToken : Bytes → Type 0
  StartsToken [] = ⊥
  StartsToken (c ∷ rest) =
      (is_white c ≡ false)
      × ((c == b']') ≡ false)
      × ((c == b'[') ≡ false)
      × ((c == b'{') ≡ false)
      × ((c == b'"') ≡ false)

  token_ReadsAs :
      (fuel : ℕ) (bs : Bytes) (v : Dynamic)
      → StartsToken bs
      → ((rest : Bytes) → Ends rest → token_at t (bs ++ rest) ≡ ok (v, length bs))
      → ReadsAs (from_json_fuel t (suc fuel)) bs v
  unfolding value_at
  token_ReadsAs fuel [] v s h = absurd s
  token_ReadsAs fuel (c ∷ bs) v s h =
      from_json_fuel-value fuel (c ∷ bs) v (s.0, s.1) λ rest e. rw (s.2, s.3, s.4) (h rest e)

  num_StartsToken : (c : ℕ) (rest : Bytes) → IsNum c → StartsToken (c ∷ rest)
  unfolding is_white
  num_StartsToken c rest h = (ground arith, ground arith, ground arith, ground arith, ground arith)

  pub int_ReadsAs :
      (fuel : ℕ) (z : ℤ)
      → InSigned (2 ^ 63) z
      → ReadsAs (from_json_fuel t (suc fuel)) (int_to_string z) (i64 z)
  int_ReadsAs fuel z h =
      let (c, rest, q, n) = int_to_string-cons z in
      token_ReadsAs fuel (int_to_string z) (i64 z)
        (subst StartsToken (sym q) (num_StartsToken c rest n)) λ rest e. token_at-int t z rest h e

  -- Lists and maps, from what is read for their parts.
  value_at-list :
      (rest : Bytes) (dec : Bytes → Read Dynamic)
      → value_at dec t (b'[' ∷ rest) 0 ≡ list_at dec (b'[' ∷ rest) 0
  unfolding value_at
  value_at-list rest dec = refl

  value_at-map :
      (rest : Bytes) (dec : Bytes → Read Dynamic)
      → value_at dec t (b'{' ∷ rest) 0 ≡ map_at dec t (b'{' ∷ rest) 0
  unfolding value_at
  value_at-map rest dec = refl

  list_ReadsAs :
      (fuel : ℕ) (cs : Chunks)
      → AllRead (from_json_fuel t fuel) cs
      → ReadsAs
          (from_json_fuel t (suc fuel))
          (b'[' ∷ (all_items cs ++ b']' ∷ []))
          (list (values cs))
  unfolding is_white
  list_ReadsAs fuel cs a =
      from_json_fuel-value fuel (b'[' ∷ (all_items cs ++ b']' ∷ [])) (list (values cs)) (refl, refl)
        λ rest e.
          value_at-list ((all_items cs ++ b']' ∷ []) ++ rest) (from_json_fuel t fuel)
          ∙ ap (λ s. list_at (from_json_fuel t fuel) (b'[' ∷ s) 0)
              (append_assoc (all_items cs) (b']' ∷ []) rest)
          ∙ list_at-chunks (from_json_fuel t fuel) cs rest a
          ∙ ap (λ n. ok (list (values cs), n))
              (omega (arith, length-append (all_items cs) (b']' ∷ [])))

  map_ReadsAs :
      (fuel : ℕ) (es : Entries)
      → EntriesRead (from_json_fuel t fuel) t es
      → ReadsAs
          (from_json_fuel t (suc fuel))
          (b'{' ∷ (all_entries es ++ b'}' ∷ []))
          (map (inserted es end))
  unfolding is_white
  map_ReadsAs fuel es a =
      from_json_fuel-value fuel (b'{' ∷ (all_entries es ++ b'}' ∷ [])) (map (inserted es end))
        (refl, refl)
        λ rest e.
          value_at-map ((all_entries es ++ b'}' ∷ []) ++ rest) (from_json_fuel t fuel)
          ∙ ap (λ s. map_at (from_json_fuel t fuel) t (b'{' ∷ s) 0)
              (append_assoc (all_entries es) (b'}' ∷ []) rest)
          ∙ map_at-entries (from_json_fuel t fuel) t es rest a
          ∙ ap (λ n. ok (map (inserted es end), n))
              (omega (arith, length-append (all_entries es) (b'}' ∷ [])))

  pub word_ReadsAs :
      (fuel : ℕ) (c : ℕ) (word : Bytes) (v : Dynamic)
      → StartsToken (c ∷ word)
      → IsToken (c ∷ word)
      → token_value t (c ∷ word) ≡ ok v
      → ReadsAs (from_json_fuel t (suc fuel)) (c ∷ word) v
  word_ReadsAs fuel c word v s i p =
      token_ReadsAs fuel (c ∷ word) v s λ rest e. token_at-append t (c ∷ word) rest v i e p

module _ (f16_to_f64 : ℕ → ℕ) (t : Text) where
  pub items_ReadsAs :
      (fuel : ℕ) (items : Items)
      → AllRead (from_json_fuel t fuel) (chunks f16_to_f64 t items)
      → ReadsAs
          (from_json_fuel t (suc fuel))
          (to_json f16_to_f64 t (list items))
          (list (items_back items))
  unfolding to_json
  items_ReadsAs fuel items a =
      rw (← all_items-chunks f16_to_f64 t items, ← values-chunks f16_to_f64 t items)
        (list_ReadsAs t fuel (chunks f16_to_f64 t items) a)

  pub fields_ReadsAs :
      (fuel : ℕ) (fs : Fields)
      → FieldsJson t fs
      → EntriesRead (from_json_fuel t fuel) t (entry_chunks f16_to_f64 t fs)
      → ReadsAs (from_json_fuel t (suc fuel)) (to_json f16_to_f64 t (map fs)) (map (fields_back fs))
  unfolding to_json
  fields_ReadsAs fuel fs h a =
      rw (← all_entries-entry_chunks f16_to_f64 t fs, ← inserted-end f16_to_f64 t fs h)
        (map_ReadsAs t fuel (entry_chunks f16_to_f64 t fs) a)
