-- ===== src/Dynamic/Types.antt =====
-- dynamic/src/types.rs: the types of the language, their widths and layouts, and the type of a sum.
pub mod Layout
pub mod Sum
mod Examples
use Prim.Native.Nat.{bit_and}
use Prim.Native.String.{String}
use zust.Prelude.{
  ℕ, zero, suc, ◌+◌, ◌-◌, ◌*◌, ◌%◌, ◌^◌, min, max, Bool, true, false, ◌&&◌, ◌||◌, Option, none,
  some, List, [], ◌∷◌, get_elem?, leb, ltb, ◌==◌, if◌then◌else◌,
}
use zust.Prelude.Int.{ℤ, pos, negsuc}
use text.Mathlib.Text.{◌==◌ as str_eq}

pub data ConstIntOp : Type 0 where
  add sub mul div modulo : ConstIntOp

mutual
  pub data Ty : Type 0 where
    any void bool u8 i8 u16 i16 u32 i32 u64 i64 f16 f32 f64 str map iter : Ty
    list : Ty → Ty
    ident : String → Tys → Ty
    const_int : ℤ → Ty
    const_binary : ConstIntOp → Ty → Ty → Ty
    tuple : Tys → Ty
    struct : Tys → Members → Ty
    vec : Ty → ℕ → Ty
    array : Ty → ℕ → Ty
    array_param : Ty → Ty → Ty
    fn : Tys → Ty → Ty
    symbol : ℕ → Tys → Ty

  pub data Tys : Type 0 where
    nil : Tys
    cons : Ty → Tys → Tys

  pub data Members : Type 0 where
    end : Members
    member : String → Ty → Members → Members

-- u32 arithmetic.
abbrev pub add_32 : ℕ → ℕ → ℕ
add_32 a b = (a + b) % 2 ^ 32

abbrev pub mul_32 : ℕ → ℕ → ℕ
mul_32 a b = a * b % 2 ^ 32

-- `(value + align - 1) & !(align - 1)`
unfoldable pub align_up : ℕ → ℕ → ℕ
align_up value align =
    if leb align 1 then value else bit_and (add_32 value (align - 1)) (2 ^ 32 - 1 - (align - 1))

-- `self.storage_width().min(8).max(1)`, for a width.
abbrev pub align_of : ℕ → ℕ
align_of width = max (min width 8) 1

-- The length of an array that an expression gives, once it is a number.
abbrev param_width : Ty → ℕ → ℕ
param_width (const_int (pos n)) width = mul_32 (n % 2 ^ 32) width
param_width _ width = 8

-- `walk` is the loop of `struct_layout` from an offset and an alignment on: the end of the last
-- field, the alignment of the struct, and the offsets.
unfoldable mutual
  pub storage_width : Ty → ℕ
  storage_width void = 0
  storage_width bool = 1
  storage_width u8 = 1
  storage_width i8 = 1
  storage_width u16 = 2
  storage_width i16 = 2
  storage_width f16 = 2
  storage_width u32 = 4
  storage_width i32 = 4
  storage_width f32 = 4
  storage_width u64 = 8
  storage_width i64 = 8
  storage_width f64 = 8
  storage_width (struct params members) =
      let (stop, align, offsets) = walk members 0 8 in align_up stop align
  storage_width (vec ty num) = mul_32 num (storage_width ty)
  storage_width (array ty num) = mul_32 num (storage_width ty)
  storage_width (array_param ty len) = param_width len (storage_width ty)
  storage_width _ = 8

  pub walk : Members → ℕ → ℕ → ℕ × ℕ × List ℕ
  walk end offset struct_align = (offset, struct_align, [])
  walk (member name ty rest) offset struct_align =
      let align = min (align_of (storage_width ty)) 8 in
      let start = align_up offset align in
      let (stop, whole, offsets) =
        walk rest (add_32 start (storage_width ty)) (max struct_align align) in
      (stop, whole, start ∷ offsets)

unfoldable pub align : Ty → ℕ
unfolding storage_width
align ty = align_of (storage_width ty)

unfoldable pub struct_layout : Members → ℕ × List ℕ
unfolding storage_width
struct_layout members =
    let (stop, align, offsets) = walk members 0 8 in (align_up stop align, offsets)

unfoldable pub field_offset : Ty → ℕ → Option ℕ
unfolding struct_layout
field_offset (struct params members) idx = get_elem? (struct_layout members).1 idx
field_offset _ idx = none
