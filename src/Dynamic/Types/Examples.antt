-- ===== src/Dynamic/Types/Examples.antt =====
-- dynamic/src/types.rs: layouts and sums of concrete types.
use zust.Prelude.{◌≡◌, refl, arith, true, false, [], ◌∷◌, inl, inr, ◌%◌}
use zust.Dynamic.Types.{
  Ty, u8, i32, u32, u64, f32, iter, array, list, any, Members, end, member, storage_width,
  struct_layout, align, align_up,
}
use zust.Dynamic.Types.Layout.{
  Packed, Aligned, AlignmentsArePowers, struct_layout-Packed, struct_layout-Aligned,
}
use zust.Dynamic.Types.Sum.{ty_eq, is_str, is_any, is_float, is_int, int_of_width, sum_type}
use zust.Dynamic.Types.Sum.Laws.{ty_eq→eq}

-- struct { tag: u8, size: u32, data: [f32; 3] }
abbrev header : Members
header = member "tag" u8 (member "size" u32 (member "data" (array f32 3) end))

header_layout : struct_layout header ≡ (24, 0 ∷ 4 ∷ 8 ∷ [])
unfolding struct_layout align_up
header_layout = refl

-- Three bytes have the alignment 3, and start at an odd offset.
bytes_layout : struct_layout (member "tag" u8 (member "rgb" (array u8 3) end)) ≡ (8, 0 ∷ 1 ∷ [])
unfolding struct_layout align_up
bytes_layout = refl

struct_layout-Packed_example :
    Packed 7 0 header (struct_layout header).1 (struct_layout header).0
    × ((struct_layout header).0 % 8 ≡ 0)
unfolding storage_width
struct_layout-Packed_example = struct_layout-Packed header (omega arith)

header_powers : AlignmentsArePowers header
unfolding align
header_powers = (inl refl, (inr (inr (inl refl)), (inr (inr (inr refl)), tt)))

struct_layout-Aligned_example : Aligned header (struct_layout header).1
unfolding storage_width
struct_layout-Aligned_example = struct_layout-Aligned header (omega arith) header_powers

list_eq : ty_eq (list any) (list any) ≡ true
unfolding ty_eq
list_eq = refl

ty_eq→eq_example : list any ≡ list any
ty_eq→eq_example = ty_eq→eq (list any) (list any) list_eq

-- The type of an iterator is not equal to itself.
iter_ne_iter : ty_eq iter iter ≡ false
unfolding ty_eq
iter_ne_iter = refl

i32_u64 : sum_type i32 u64 ≡ Ty.i64
unfolding sum_type ty_eq is_str is_any is_float is_int int_of_width storage_width
i32_u64 = refl
