-- ===== src/Dynamic/Json/Chunks.antt =====
-- dynamic/src/json.rs: the texts of the items of a list and of the entries of a map.
use zust.Prelude.{ℕ, ◌≡◌, refl, sym, ap, ◌∙◌, true, false, [], ◌∷◌, ◌++◌}
use zust.Dynamic.Value.{Items, nil, cons, Fields, end, field}
use zust.Dynamic.Msgpack.Maps.{
  append_fields, insert_new, append_fields_assoc, append_fields-end, Absent, Absent-append,
  Absent-end,
}
use zust.Dynamic.Json.Buffer.{Text}
use zust.Dynamic.Json.Strings.{str_to_json}
use zust.Dynamic.Json.Write.{take_once, to_json, items_to_json, fields_to_json}
use zust.Dynamic.Json.Lists.{Chunks, values, more_items, all_items}
use zust.Dynamic.Json.Maps.{Entries, more_entries, all_entries, inserted}
use zust.Dynamic.Json.Portable.{FieldsJson, read_back, items_back, fields_back}

module _ (f16_to_f64 : ℕ → ℕ) (t : Text) where
  unfoldable pub chunks : Items → Chunks
  chunks nil = []
  chunks (cons v rest) = (to_json f16_to_f64 t v, read_back v) ∷ chunks rest

  unfoldable pub entry_chunks : Fields → Entries
  entry_chunks end = []
  entry_chunks (field k v rest) = (k, to_json f16_to_f64 t v, read_back v) ∷ entry_chunks rest

  more_items-chunks :
      (items : Items) → more_items (chunks items) ≡ items_to_json f16_to_f64 t false items
  unfolding chunks to_json take_once
  more_items-chunks nil = refl
  more_items-chunks (cons v rest) =
      ap (λ s. b',' ∷ (to_json f16_to_f64 t v ++ s)) (more_items-chunks rest)

  pub all_items-chunks :
      (items : Items) → all_items (chunks items) ≡ items_to_json f16_to_f64 t true items
  unfolding chunks to_json take_once
  all_items-chunks nil = refl
  all_items-chunks (cons v rest) = ap (λ s. to_json f16_to_f64 t v ++ s) (more_items-chunks rest)

  pub values-chunks : (items : Items) → values (chunks items) ≡ items_back items
  unfolding chunks
  values-chunks nil = refl
  values-chunks (cons v rest) = ap (cons (read_back v)) (values-chunks rest)

  more_entries-entry_chunks :
      (fs : Fields) → more_entries (entry_chunks fs) ≡ fields_to_json f16_to_f64 t false fs
  unfolding entry_chunks to_json take_once
  more_entries-entry_chunks end = refl
  more_entries-entry_chunks (field k v rest) =
      ap (λ s. b',' ∷ (str_to_json k ++ b':' ∷ (to_json f16_to_f64 t v ++ s)))
        (more_entries-entry_chunks rest)

  pub all_entries-entry_chunks :
      (fs : Fields) → all_entries (entry_chunks fs) ≡ fields_to_json f16_to_f64 t true fs
  unfolding entry_chunks to_json take_once
  all_entries-entry_chunks end = refl
  all_entries-entry_chunks (field k v rest) =
      ap (λ s. str_to_json k ++ b':' ∷ (to_json f16_to_f64 t v ++ s))
        (more_entries-entry_chunks rest)

  -- Distinct keys are inserted one behind the other.
  inserted-entry_chunks :
      (fs acc : Fields)
      → FieldsJson t fs
      → Absent acc fs
      → inserted (entry_chunks fs) acc ≡ append_fields acc (fields_back fs)
  unfolding entry_chunks append_fields
  inserted-entry_chunks end acc h a = sym (append_fields-end acc)
  inserted-entry_chunks (field k v rest) acc h a =
      ap (inserted (entry_chunks rest)) (insert_new k (read_back v) acc a.0)
      ∙ inserted-entry_chunks rest (append_fields acc (field k (read_back v) end)) h.3
          (Absent-append acc k (read_back v) rest h.2 a.1)
      ∙ append_fields_assoc acc (field k (read_back v) end) (fields_back rest)

  pub inserted-end :
      (fs : Fields) → FieldsJson t fs → inserted (entry_chunks fs) end ≡ fields_back fs
  unfolding append_fields
  inserted-end fs h = inserted-entry_chunks fs end h (Absent-end fs)
