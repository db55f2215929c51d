-- ===== src/Vm/GpuLayout/Bounds.antt =====
-- vm/src/gpu_layout.rs: the reads stay within the layout.
use Prim.Native.String.{String}
use native.Mathlib.Nat.{add-mul}
use zust.Prelude.{
  ℕ, zero, suc, ◌+◌, ◌-◌, ◌*◌, ◌^◌, ◌≤◌, ◌<◌, ◌≡◌, refl, subst, arith, false, List, [], ◌∷◌, length,
  length-take, length-drop, take, drop, ◌==◌, if◌then◌else◌, le→leb, le→ltb,
}
use zust.Prelude.Outcome.{ok, err, panic, stuck, ◌>>=◌}
use zust.Dynamic.Value.{Bytes, Dynamic, Fields, end as no_fields}
use zust.Dynamic.Types.{
  Ty, Tys, Members, void, bool, u8, i8, u16, i16, u32, i32, u64, i64, f32, f64, struct, vec, array,
  end, member, storage_width, struct_layout, mul_32,
}
use zust.Dynamic.Types.Layout.{Packed, room, struct_layout-Packed}
use zust.Vm.GpuLayout.{
  GpuErr, Result, get_range, read_scalar, scalar, read_from, read_sequence, read_value, read_fields,
  insert_sorted, utf8, unsupported, from_type, unpack_map,
}

-- The types that a buffer holds without wrapping around: scalars, arrays with elements, and structs
-- of such fields, all of less than 2^32 bytes. (A tuple is laid out in 8 bytes, whatever it holds.)
abbrev mutual
  pub IsGpu : Ty → Type 0
  IsGpu bool = Unit
  IsGpu u8 = Unit
  IsGpu i8 = Unit
  IsGpu u16 = Unit
  IsGpu i16 = Unit
  IsGpu u32 = Unit
  IsGpu i32 = Unit
  IsGpu u64 = Unit
  IsGpu i64 = Unit
  IsGpu f32 = Unit
  IsGpu f64 = Unit
  IsGpu void = Unit
  IsGpu (struct params members) = (room members + 16 ≤ 2 ^ 32) × AreGpu members
  IsGpu (array elem len) = (1 ≤ len) × (len * storage_width elem < 2 ^ 32) × IsGpu elem
  IsGpu (vec elem len) = (1 ≤ len) × (len * storage_width elem < 2 ^ 32) × IsGpu elem
  IsGpu _ = ⊥

  pub AreGpu : Members → Type 0
  AreGpu end = Unit
  AreGpu (member name ty rest) = IsGpu ty × AreGpu rest

-- The reader has a value.
abbrev pub Reads : {A : Type 0} → Result A → Type 0
Reads (ok v) = Unit
Reads _ = ⊥

bind-Reads :
    {A B : Type 0} (r : Result A) (f : A → Result B)
    → Reads r
    → ((v : A) → Reads (f v))
    → Reads (r >>= f)
bind-Reads (ok v) f h k = k v
bind-Reads (err e) f h k = h
bind-Reads panic f h k = h
bind-Reads stuck f h k = h

-- A value of `size` bytes that is read from its place in a longer buffer.
range-Reads :
    {B : Type 0} (src : Bytes) (start size : ℕ) (f : Bytes → Result B)
    → start + size ≤ length src
    → ((bytes : Bytes) → length bytes ≡ size → Reads (f bytes))
    → Reads (get_range src start (start + size) >>= f)
unfolding get_range
range-Reads src start size f h k =
    rw (le→leb start (start + size) (omega arith), le→leb (start + size) (length src) h)
      (k (take (start + size - start) (drop start src))
        (omega (arith, length-take (start + size - start) (drop start src), length-drop start src)))

scalar-Reads :
    (size : ℕ) (make : ℕ → Dynamic) (src : Bytes) → size ≤ length src → Reads (scalar size make src)
unfolding scalar read_scalar
scalar-Reads size make src h = rw (le→leb size (length src) h) tt

row_fits : (idx n stride room : ℕ) → (idx + suc n) * stride ≤ room → idx * stride + stride ≤ room
row_fits idx n stride room h = omega (arith, add-mul idx (suc n) stride, add-mul n 1 stride)

the_same : (idx n : ℕ) → idx + suc n ≡ idx + 1 + n
the_same idx n = omega arith

row_next : (idx n stride room : ℕ) → (idx + suc n) * stride ≤ room → (idx + 1 + n) * stride ≤ room
row_next idx n stride room h = subst (λ k. k * stride ≤ room) (the_same idx n) h

read_from-Reads :
    (dec : Bytes → Result Dynamic) (stride n idx : ℕ) (src : Bytes)
    → ((bytes : Bytes) → length bytes ≡ stride → Reads (dec bytes))
    → (idx + n) * stride ≤ length src
    → Reads (read_from dec stride n idx src)
unfolding read_from
read_from-Reads dec stride zero idx src d h = tt
read_from-Reads dec stride (suc n) idx src d h =
    range-Reads src (idx * stride) stride _ (row_fits idx n stride (length src) h) λ bytes e.
      bind-Reads (dec bytes) _ (d bytes e) λ value.
        bind-Reads (read_from dec stride n (idx + 1) src) _
          (read_from-Reads dec stride n (idx + 1) src d (row_next idx n stride (length src) h))
          λ values. tt

whole_row :
    (len stride room : ℕ)
    → len * stride < 2 ^ 32
    → mul_32 len stride ≤ room
    → (0 + len) * stride ≤ room
whole_row len stride room w h = omega (arith, add-mul 0 len stride)

not_zero : (len : ℕ) → 1 ≤ len → (len == 0) ≡ false
not_zero len h = ground arith

Packed-le :
    (slack : ℕ) (ms : Members) (os : List ℕ) (lo hi : ℕ) → Packed slack lo ms os hi → lo ≤ hi
Packed-le slack end [] lo hi p = p.0
Packed-le slack end (o ∷ os) lo hi p = absurd p
Packed-le slack (member name ty rest) [] lo hi p = absurd p
Packed-le slack (member name ty rest) (o ∷ os) lo hi p =
    omega (arith, p.0, Packed-le slack rest os (o + storage_width ty) hi p.2)

sequence-Reads :
    (dec : Bytes → Result Dynamic) (stride len : ℕ) (src : Bytes)
    → ((bytes : Bytes) → length bytes ≡ stride → Reads (dec bytes))
    → len * stride < 2 ^ 32
    → mul_32 len stride ≤ length src
    → Reads (read_sequence dec stride len src)
unfolding read_sequence
sequence-Reads dec stride len src d w h =
    bind-Reads (read_from dec stride len 0 src) _
      (read_from-Reads dec stride len 0 src d (whole_row len stride (length src) w h)) λ values. tt

if_none-Reads :
    {A : Type 0} (len : ℕ) (e : GpuErr) (r : Result A)
    → 1 ≤ len
    → Reads r
    → Reads (if len == 0 then err e else r)
if_none-Reads len e r h k = rw (not_zero len h) k

mutual
  unfolding read_value storage_width

  value-Reads :
      (ty : Ty) (src : Bytes) → IsGpu ty → storage_width ty ≤ length src → Reads (read_value ty src)
  value-Reads bool src g h = scalar-Reads 1 _ src h
  value-Reads u8 src g h = scalar-Reads 1 _ src h
  value-Reads i8 src g h = scalar-Reads 1 _ src h
  value-Reads u16 src g h = scalar-Reads 2 _ src h
  value-Reads i16 src g h = scalar-Reads 2 _ src h
  value-Reads u32 src g h = scalar-Reads 4 _ src h
  value-Reads i32 src g h = scalar-Reads 4 _ src h
  value-Reads u64 src g h = scalar-Reads 8 _ src h
  value-Reads i64 src g h = scalar-Reads 8 _ src h
  value-Reads f32 src g h = scalar-Reads 4 _ src h
  value-Reads f64 src g h = scalar-Reads 8 _ src h
  value-Reads void src g h = tt
  value-Reads (struct params members) src g h =
      bind-Reads (read_fields members (struct_layout members).1 src no_fields) _
        (fields-Reads members (struct_layout members).1 src no_fields 0 (struct_layout members).0
          g.1 (struct_layout-Packed members g.0).0 h)
        λ fields. tt
  value-Reads (array elem len) src g h = if_none-Reads len unsupported _ g.0 (
      sequence-Reads (read_value elem) (storage_width elem) len src
        (λ bytes e. value-Reads elem bytes g.2 (omega arith)) g.1 h)
  value-Reads (vec elem len) src g h = if_none-Reads len unsupported _ g.0 (
      sequence-Reads (read_value elem) (storage_width elem) len src
        (λ bytes e. value-Reads elem bytes g.2 (omega arith)) g.1 h)
  value-Reads _ src g h = absurd g

  fields-Reads :
      (ms : Members) (offsets : List ℕ) (src : Bytes) (acc : Fields) (lo hi : ℕ)
      → AreGpu ms
      → Packed 7 lo ms offsets hi
      → hi ≤ length src
      → Reads (read_fields ms offsets src acc)
  fields-Reads end offsets src acc lo hi g p h = tt
  fields-Reads (member name ty rest) [] src acc lo hi g p h = tt
  fields-Reads (member name ty rest) (o ∷ os) src acc lo hi g p h =
      range-Reads src o (storage_width ty) _
        (omega (arith, Packed-le 7 rest os (o + storage_width ty) hi p.2))
        λ bytes e.
          bind-Reads (read_value ty bytes) _ (value-Reads ty bytes g.0 (omega arith)) λ value.
            fields-Reads rest os src (insert_sorted (utf8 name) value acc) (o + storage_width ty) hi
              g.1 p.2 h

Reads-value : {A : Type 0} (r : Result A) → Reads r → (v : A) × (r ≡ ok v)
Reads-value (ok v) h = (v, refl)
Reads-value (err e) h = absurd h
Reads-value panic h = absurd h
Reads-value stuck h = absurd h

unpacked-Reads :
    (name : String) (params : Tys) (ms : Members) (bytes : Bytes)
    → IsGpu (struct params ms)
    → (struct_layout ms).0 ≤ length bytes
    → Reads (from_type name (struct params ms) >>= λ layout. unpack_map layout bytes)
unfolding from_type unpack_map struct_layout
unpacked-Reads name params ms bytes g h = rw (le→ltb (length bytes) (struct_layout ms).0 h) (
    value-Reads (struct params ms) (take (struct_layout ms).0 bytes) g
      (omega (arith, length-take (struct_layout ms).0 bytes)))

-- Every buffer with at least as many bytes as the layout of a struct has is unpacked to a value: each
-- field, element and scalar is read within the layout. The struct holds scalars, arrays and vectors
-- with elements, and such structs, all of less than 2^32 bytes.
pub unpack_map-struct_layout :
    (name : String) (params : Tys) (ms : Members) (bytes : Bytes)
    → IsGpu (struct params ms)
    → (struct_layout ms).0 ≤ length bytes
    → (v : Dynamic) × ((from_type name (struct params ms) >>= λ layout. unpack_map layout bytes)
        ≡ ok v)
unpack_map-struct_layout name params ms bytes g h =
    Reads-value (from_type name (struct params ms) >>= λ layout. unpack_map layout bytes)
      (unpacked-Reads name params ms bytes g h)
