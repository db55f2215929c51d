-- ===== src/Dynamic/Msgpack/Maps.antt =====
-- dynamic/src/msgpack.rs: the entries of a map with distinct keys are read back in their order.
use zust.Prelude.{ℕ, ◌≡◌, refl, sym, ◌∙◌, ap, arith, false, [], ◌∷◌}
use zust.Dynamic.Value.{
  Bytes, Dynamic, string, map, Items, nil, cons, Fields, end, field, same_text, insert,
}
use zust.Dynamic.Texts.{same_text_comm}
use zust.Dynamic.Msgpack.Encode.{encode, encode_str}
use zust.Dynamic.Msgpack.Read.{Platform, pairs, vec_to_map, to_string}
use zust.Dynamic.Msgpack.Collections.{Chunks, values}
use zust.Dynamic.Msgpack.Portable.{has_key, FieldsPortable, decoded, decoded_fields}

-- Maps: distinct keys are inserted one behind the other.
unfoldable pub append_fields : Fields → Fields → Fields
append_fields end fs = fs
append_fields (field k v rest) fs = field k v (append_fields rest fs)

pub insert_new :
    (k : Bytes) (v : Dynamic) (acc : Fields)
    → has_key k acc ≡ false
    → insert k v acc ≡ append_fields acc (field k v end)
unfolding insert has_key append_fields
insert_new k v end h = refl
insert_new k v (field j w rest) h = ground (arith, insert_new k v rest)

has_key-append :
    (k j : Bytes) (v : Dynamic) (acc : Fields)
    → has_key k acc ≡ false
    → same_text j k ≡ false
    → has_key k (append_fields acc (field j v end)) ≡ false
unfolding has_key append_fields
has_key-append k j v end h e = ground arith
has_key-append k j v (field i w rest) h e = ground (arith, has_key-append k j v rest)

pub append_fields_assoc :
    (a b c : Fields) → append_fields (append_fields a b) c ≡ append_fields a (append_fields b c)
unfolding append_fields
append_fields_assoc end b c = refl
append_fields_assoc (field k v rest) b c = ap (field k v) (append_fields_assoc rest b c)

pub append_fields-end : (a : Fields) → append_fields a end ≡ a
unfolding append_fields
append_fields-end end = refl
append_fields-end (field k v rest) = ap (field k v) (append_fields-end rest)

-- None of the keys to come is in `acc`.
abbrev pub Absent : Fields → Fields → Type 0
Absent acc end = Unit
Absent acc (field k v rest) = (has_key k acc ≡ false) × Absent acc rest

pub Absent-append :
    (acc : Fields) (j : Bytes) (w : Dynamic) (fs : Fields)
    → has_key j fs ≡ false
    → Absent acc fs
    → Absent (append_fields acc (field j w end)) fs
unfolding has_key
Absent-append acc j w end h a = tt
Absent-append acc j w (field k v rest) h a = (
  has_key-append k j w acc a.0 (ground (arith, same_text_comm k j)),
  Absent-append acc j w rest (ground arith) a.1,
)

pub Absent-end : (fs : Fields) → Absent end fs
unfolding has_key
Absent-end end = tt
Absent-end (field k v rest) = (refl, Absent-end rest)

module _ (f16_to_f64 : ℕ → ℕ) (p : Platform) where
  unfoldable pub chunks_items : Items → Chunks
  chunks_items nil = []
  chunks_items (cons v rest) = (encode f16_to_f64 v, decoded f16_to_f64 p v) ∷ chunks_items rest

  unfoldable pub chunks_fields : Fields → Chunks
  chunks_fields end = []
  chunks_fields (field k v rest) =
      (encode_str k, string k) ∷ (encode f16_to_f64 v, decoded f16_to_f64 p v) ∷ chunks_fields rest

  pairs-chunks :
      (fs acc : Fields)
      → FieldsPortable f16_to_f64 p fs
      → Absent acc fs
      → pairs p (values (chunks_fields fs)) acc ≡ append_fields acc (decoded_fields f16_to_f64 p fs)
  unfolding pairs chunks_fields to_string append_fields
  pairs-chunks end acc h a = sym (append_fields-end acc)
  pairs-chunks (field k v rest) acc h a = rw (insert_new k (decoded f16_to_f64 p v) acc a.0) (
      pairs-chunks rest (append_fields acc (field k (decoded f16_to_f64 p v) end)) h.3
        (Absent-append acc k _ rest h.2 a.1)
      ∙ append_fields_assoc acc (field k (decoded f16_to_f64 p v) end) _)

  pub vec_to_map-chunks :
      (fs : Fields)
      → FieldsPortable f16_to_f64 p fs
      → vec_to_map p (values (chunks_fields fs)) ≡ map (decoded_fields f16_to_f64 p fs)
  unfolding vec_to_map append_fields
  vec_to_map-chunks fs h = rw (pairs-chunks fs end h (Absent-end fs))
