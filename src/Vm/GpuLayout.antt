-- ===== src/Vm/GpuLayout.antt =====
-- vm/src/gpu_layout.rs: values read from the bytes of a GPU buffer. `gpu_type_size` is
-- `storage_width`.
pub mod Bounds
mod Examples
use Prim.Native.Char.{code}
use Prim.Native.String.{String}
use zust.Prelude.{
  ℕ, zero, suc, ◌+◌, ◌-◌, ◌*◌, ◌^◌, Bool, true, false, not, ◌&&◌, List, [], ◌∷◌, ◌++◌, length, min,
  max, take, drop, ltb, leb, ◌==◌, if◌then◌else◌,
}
use zust.Prelude.Int.{of_word}
use zust.Prelude.Outcome.{Outcome, ok, err, ◌>>=◌}
use zust.Dynamic.Value.{
  Bytes, Dynamic, Items, Fields, end as no_fields, field, nil as no_items, cons as item_cons,
  same_text, null as null_value, bool as bool_value, u8 as u8_value, i8 as i8_value,
  u16 as u16_value, i16 as i16_value, u32 as u32_value, i32 as i32_value, u64 as u64_value,
  i64 as i64_value, f32 as f32_value, f64 as f64_value, list as list_value, map as map_value,
}
use zust.Dynamic.Types.{
  Ty, Tys, Members, void, bool, u8, i8, u16, i16, u32, i32, u64, i64, f32, f64, tuple, struct, vec,
  array, nil, cons, end, member, storage_width, struct_layout, align as type_align,
}
use zust.Dynamic.Json.Strings.{encode_utf8}
use zust.Dynamic.Json.Write.{vec_word}

pub data GpuErr : Type 0 where
  not_a_struct small_source small_scalar out_of_buffer unsupported : GpuErr

abbrev pub Result : Type 0 → Type 0
Result A = Outcome GpuErr A

-- `src.get(start..end)`
unfoldable pub get_range : Bytes → ℕ → ℕ → Result Bytes
get_range src start stop =
    if leb start stop && leb stop (length src)
    then ok (take (stop - start) (drop start src))
    else err out_of_buffer

-- `read_scalar` of a type of `size` bytes, the low byte first.
unfoldable pub read_scalar : ℕ → Bytes → Result ℕ
read_scalar size src = if leb size (length src) then ok (vec_word size src) else err small_scalar

unfoldable pub scalar : ℕ → (ℕ → Dynamic) → Bytes → Result Dynamic
scalar size make src = read_scalar size src >>= λ word. ok (make word)

unfoldable pub utf8 : String → Bytes
utf8 String.[] = []
utf8 (String.◌∷◌ c s) = encode_utf8 (code c) ++ utf8 s

-- The order of `SmolStr`, on bytes.
unfoldable pub text_before : Bytes → Bytes → Bool
text_before [] [] = false
text_before [] (y ∷ ys) = true
text_before (x ∷ xs) [] = false
text_before (x ∷ xs) (y ∷ ys) = let rest = text_before xs ys in if x == y then rest else ltb x y

-- `BTreeMap::insert`, on the entries in the order of their keys.
unfoldable pub insert_sorted : Bytes → Dynamic → Fields → Fields
insert_sorted k v no_fields = field k v no_fields
insert_sorted k v (field j w rest) =
    let more = insert_sorted k v rest in
    if same_text j k
    then field j v rest
    else if text_before k j
    then field k v (field j w rest)
    else field j w more

-- The loop of `read_sequence` from an index on.
unfoldable pub read_from : (Bytes → Result Dynamic) → ℕ → ℕ → ℕ → Bytes → Result Items
read_from dec stride zero idx src = ok no_items
read_from dec stride (suc n) idx src = do
  bytes ← get_range src (idx * stride) (idx * stride + stride)
  value ← dec bytes
  values ← read_from dec stride n (idx + 1) src
  ok (item_cons value values)

unfoldable pub read_sequence : (Bytes → Result Dynamic) → ℕ → ℕ → Bytes → Result Dynamic
read_sequence dec stride len src =
    read_from dec stride len 0 src >>= λ values. ok (list_value values)

unfoldable mutual
  unfolding struct_layout

  pub read_value : Ty → Bytes → Result Dynamic
  read_value bool src = scalar 1 (λ n. bool_value (not (n == 0))) src
  read_value u8 src = scalar 1 u8_value src
  read_value i8 src = scalar 1 (λ n. i8_value (of_word (2 ^ 7) n)) src
  read_value u16 src = scalar 2 u16_value src
  read_value i16 src = scalar 2 (λ n. i16_value (of_word (2 ^ 15) n)) src
  read_value u32 src = scalar 4 u32_value src
  read_value i32 src = scalar 4 (λ n. i32_value (of_word (2 ^ 31) n)) src
  read_value u64 src = scalar 8 u64_value src
  read_value i64 src = scalar 8 (λ n. i64_value (of_word (2 ^ 63) n)) src
  read_value f32 src = scalar 4 f32_value src
  read_value f64 src = scalar 8 f64_value src
  read_value (struct params members) src =
      read_fields members (struct_layout members).1 src no_fields >>= λ fields.
      ok (map_value fields)
  read_value (array elem len) src =
      if len == 0
      then err unsupported
      else read_sequence (read_value elem) (storage_width elem) len src
  read_value (vec elem len) src =
      if len == 0
      then err unsupported
      else read_sequence (read_value elem) (storage_width elem) len src
  read_value (tuple items) src = read_tuple items 0 src >>= λ values. ok (list_value values)
  read_value void src = ok null_value
  read_value _ src = err unsupported

  -- The loop of a struct: the fields with their offsets.
  pub read_fields : Members → List ℕ → Bytes → Fields → Result Fields
  read_fields end offsets src acc = ok acc
  read_fields (member name ty rest) [] src acc = ok acc
  read_fields (member name ty rest) (start ∷ offsets) src acc = do
    bytes ← get_range src start (start + storage_width ty)
    value ← read_value ty bytes
    read_fields rest offsets src (insert_sorted (utf8 name) value acc)

  -- The items of a tuple, from an offset on (`tuple_offset`).
  pub read_tuple : Tys → ℕ → Bytes → Result Items
  read_tuple nil start src = ok no_items
  read_tuple (cons ty rest) start src = do
    bytes ← get_range src start (start + storage_width ty)
    value ← read_value ty bytes
    values ← read_tuple rest (start + storage_width ty) src
    ok (item_cons value values)

unfoldable pub gpu_type_align : Ty → ℕ
gpu_type_align ty = max (min (type_align ty) 8) 1

pub record GpuFieldLayout : Type 0 where
  pub name : String
  pub ty : Ty
  pub offset : ℕ
  pub size : ℕ
  pub align : ℕ

pub record GpuStructLayout : Type 0 where
  pub name : String
  pub ty : Ty
  pub size : ℕ
  pub align : ℕ
  pub fields : List GpuFieldLayout

unfoldable pub field_layouts : Members → List ℕ → List GpuFieldLayout
field_layouts (member name ty rest) (offset ∷ offsets) =
    record {
      name = name;
      ty = ty;
      offset = offset;
      size = storage_width ty;
      align = gpu_type_align ty;
    }
    ∷ field_layouts rest offsets
field_layouts _ _ = []

unfoldable pub from_type : String → Ty → Result GpuStructLayout
from_type name (struct params members) =
    let (size, offsets) = struct_layout members in
    ok record {
      name = name;
      ty = struct params members;
      size = size;
      align = gpu_type_align (struct params members);
      fields = field_layouts members offsets;
    }
from_type name _ = err not_a_struct

unfoldable pub unpack_map : GpuStructLayout → Bytes → Result Dynamic
unpack_map layout bytes =
    if ltb (length bytes) layout.size
    then err small_source
    else read_value layout.ty (take layout.size bytes)
