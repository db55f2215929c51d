-- ===== src/Vm/GpuLayout/Examples.antt =====
-- vm/src/gpu_layout.rs: runs, and the theorem at a concrete struct.
use zust.Prelude.{◌≡◌, refl, arith, [], ◌∷◌}
use zust.Prelude.Outcome.{ok, err, ◌>>=◌}
use zust.Dynamic.Value.{
  Bytes, Dynamic, field, end as no_fields, list as list_value, map as map_value, u8 as u8_value,
  u16 as u16_value, u32 as u32_value, cons as item_cons, nil as no_items, same_text,
}
use zust.Dynamic.Types.{
  Members, u8, u16, u32, i64, tuple, struct, array, nil, cons, end, member, struct_layout,
  storage_width, align_up,
}
use zust.Dynamic.Json.Strings.{encode_utf8}
use zust.Dynamic.Json.Write.{vec_word}
use zust.Vm.GpuLayout.{
  out_of_buffer, get_range, read_scalar, scalar, read_from, read_sequence, read_value,
  insert_sorted, text_before, utf8, field_layouts, from_type, unpack_map,
}
use zust.Vm.GpuLayout.Bounds.{unpack_map-struct_layout}

-- struct { n: u32, a: [u16; 2], b: u8 }
abbrev sample : Members
sample = member "n" u32 (member "a" (array u16 2) (member "b" u8 end))

abbrev sample_bytes : Bytes
sample_bytes = 1 ∷ 2 ∷ 0 ∷ 0 ∷ 5 ∷ 0 ∷ 0 ∷ 1 ∷ 9 ∷ 0 ∷ 0 ∷ 0 ∷ 0 ∷ 0 ∷ 0 ∷ 0 ∷ []

-- The entries come in the order of their keys.
unpacked :
    (from_type "S" (struct nil sample) >>= λ layout. unpack_map layout sample_bytes)
    ≡ ok (
        map_value (
          field
            (b'a' ∷ [])
            (list_value (item_cons (u16_value 5) (item_cons (u16_value 256) no_items)))
            (field (b'b' ∷ []) (u8_value 9) (field (b'n' ∷ []) (u32_value 513) no_fields))))
unfolding from_type unpack_map read_value struct_layout align_up field_layouts storage_width scalar
    read_scalar read_from read_sequence get_range insert_sorted text_before utf8 encode_utf8
    vec_word same_text
unpacked = refl

-- A tuple of two words in a struct is given 8 bytes, and cannot be read.
tuple_in_struct :
    (from_type "S" (struct nil (member "t" (tuple (cons i64 (cons i64 nil))) end)) >>= λ layout.
    unpack_map layout sample_bytes)
    ≡ err out_of_buffer
unfolding from_type unpack_map read_value struct_layout align_up field_layouts storage_width scalar
    read_scalar read_from read_sequence get_range insert_sorted text_before utf8 encode_utf8
    vec_word same_text
tuple_in_struct = refl

unpack_map-struct_layout_example :
    (v : Dynamic) × ((from_type "S" (struct nil sample) >>= λ layout.
    unpack_map layout sample_bytes)
      ≡ ok v)
unfolding struct_layout storage_width align_up
unpack_map-struct_layout_example =
    unpack_map-struct_layout "S" nil sample sample_bytes
      (omega arith, (tt, ((omega arith, omega arith, tt), (tt, tt)))) (omega arith)
