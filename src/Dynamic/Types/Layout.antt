-- ===== src/Dynamic/Types/Layout.antt =====
-- dynamic/src/types.rs: the layout of a struct.
use zust.Prelude.{
  ℕ, ◌+◌, ◌-◌, ◌%◌, ◌^◌, ◌≤◌, ◌<◌, ◌≡◌, refl, arith, min, max, ◌⊎◌, inl, inr, List, [], ◌∷◌,
}
use zust.Prelude.Bits.{complement_masks, bit_and-le, clear_low_bits}
use zust.Dynamic.Types.{
  Ty, Members, end, member, add_32, align_up, align_of, storage_width, walk, align, struct_layout,
}

align_up_bounds :
    (v a : ℕ) → 1 ≤ a → a ≤ 8 → v + 8 ≤ 2 ^ 32 → (v ≤ align_up v a) × (align_up v a < v + a)
unfolding align_up
align_up_bounds v a lo hi h =
    ground (arith, complement_masks 32 (v + (a - 1)) (a - 1), bit_and-le 32 (v + (a - 1)) (a - 1))

abbrev pub IsAlignment : ℕ → Type 0
IsAlignment a = (a ≡ 1) ⊎ (a ≡ 2) ⊎ (a ≡ 4) ⊎ (a ≡ 8)

align_up-multiple : (v a : ℕ) → IsAlignment a → v + 8 ≤ 2 ^ 32 → align_up v a % a ≡ 0
unfolding align_up
align_up-multiple v a (inl e) h = omega arith
align_up-multiple v a (inr (inl e)) h = ground (arith, clear_low_bits 1 32 (v + 1))
align_up-multiple v a (inr (inr (inl e))) h = ground (arith, clear_low_bits 2 32 (v + 3))
align_up-multiple v a (inr (inr (inr e))) h = ground (arith, clear_low_bits 3 32 (v + 7))

-- The fields lie in their order and apart, from `lo` on, each behind less padding than its alignment,
-- and at most `slack` bytes of padding stand between the last and `hi`.
abbrev pub Packed : ℕ → ℕ → Members → List ℕ → ℕ → Type 0
Packed slack lo end [] hi = (lo ≤ hi) × (hi ≤ lo + slack)
Packed slack lo end (o ∷ os) hi = ⊥
Packed slack lo (member name ty rest) [] hi = ⊥
Packed slack lo (member name ty rest) (o ∷ os) hi =
    (lo ≤ o) × (o < lo + align ty) × Packed slack (o + storage_width ty) rest os hi

-- Each offset is a multiple of its field's alignment.
abbrev pub Aligned : Members → List ℕ → Type 0
Aligned end os = Unit
Aligned (member name ty rest) [] = ⊥
Aligned (member name ty rest) (o ∷ os) = (o % align ty ≡ 0) × Aligned rest os

-- The fields' alignments are powers of two. (A vector of three bytes has the alignment 3.)
abbrev pub AlignmentsArePowers : Members → Type 0
AlignmentsArePowers end = Unit
AlignmentsArePowers (member name ty rest) = IsAlignment (align ty) × AlignmentsArePowers rest

-- A bound for the size of a struct, with the padding.
abbrev pub room : Members → ℕ
room end = 0
room (member name ty rest) = storage_width ty + 8 + room rest

-- One field: where it starts, and that nothing wraps around.
field_start :
    (w offset more : ℕ)
    → offset + (w + 8 + more) + 8 ≤ 2 ^ 32
    → (offset ≤ align_up offset (min (align_of w) 8))
      × (add_32 (align_up offset (min (align_of w) 8)) w ≡ align_up offset (min (align_of w) 8) + w)
      × (align_up offset (min (align_of w) 8) + w + more + 8 ≤ 2 ^ 32)
      × (align_up offset (min (align_of w) 8) + w + more ≤ offset + (w + 8 + more))
      × (align_up offset (min (align_of w) 8) < offset + align_of w)
field_start w offset more h =
    let b = align_up_bounds offset (min (align_of w) 8) (omega arith) (omega arith) (omega arith) in
    (b.0, omega arith, omega arith, omega arith, omega arith)

eight_wins : (w : ℕ) → max 8 (min (align_of w) 8) ≡ 8
eight_wins w = omega arith

walk_lem :
    (ms : Members) (offset : ℕ)
    → offset + room ms + 8 ≤ 2 ^ 32
    → Packed 0 offset ms (walk ms offset 8).2 (walk ms offset 8).0
      × ((walk ms offset 8).0 ≤ offset + room ms)
      × ((walk ms offset 8).1 ≡ 8)
unfolding walk align
walk_lem end offset h = ((omega arith, omega arith), omega arith, refl)
walk_lem (member name ty rest) offset h =
    let (lo, sum, fits, within, near) = field_start (storage_width ty) offset (room rest) h in
    let start = align_up offset (min (align_of (storage_width ty)) 8) in
    let (packed, bound, eight) = walk_lem rest (start + storage_width ty) fits in
    rw (sum, eight_wins (storage_width ty)) ((lo, near, packed), omega arith, eight)

min_eight : (w : ℕ) → min (align_of w) 8 ≡ align_of w
min_eight w = omega arith

aligned_start :
    (ty : Ty) (offset : ℕ)
    → IsAlignment (align ty)
    → offset + 8 ≤ 2 ^ 32
    → align_up offset (min (align_of (storage_width ty)) 8) % align ty ≡ 0
unfolding align
aligned_start ty offset a h =
    rw (min_eight (storage_width ty)) (align_up-multiple offset (align_of (storage_width ty)) a h)

Packed-mono :
    (ms : Members) (os : List ℕ) (lo hi more : ℕ)
    → Packed 0 lo ms os hi
    → hi ≤ more
    → more < hi + 8
    → Packed 7 lo ms os more
Packed-mono end [] lo hi more h le lt = (omega arith, omega arith)
Packed-mono end (o ∷ os) lo hi more h le lt = h
Packed-mono (member name ty rest) [] lo hi more h le lt = h
Packed-mono (member name ty rest) (o ∷ os) lo hi more h le lt =
    (h.0, h.1, Packed-mono rest os (o + storage_width ty) hi more h.2 le lt)

walk-Aligned :
    (ms : Members) (offset : ℕ)
    → offset + room ms + 8 ≤ 2 ^ 32
    → AlignmentsArePowers ms
    → Aligned ms (walk ms offset 8).2
unfolding walk
walk-Aligned end offset h a = tt
walk-Aligned (member name ty rest) offset h a =
    let (lo, sum, fits, within, near) = field_start (storage_width ty) offset (room rest) h in
    let start = align_up offset (min (align_of (storage_width ty)) 8) in
    rw (sum, eight_wins (storage_width ty))
      (
        aligned_start ty offset a.0 (omega arith),
        walk-Aligned rest (start + storage_width ty) fits a.1,
      )

-- The layout of a struct whose fields take, with eight bytes more for each, less than 2^32 - 15 bytes:
-- the fields lie one behind the other without overlapping, each behind less padding than its
-- alignment; the size is a multiple of eight, with at most seven bytes behind the last field.
pub struct_layout-Packed :
    (ms : Members)
    → room ms + 16 ≤ 2 ^ 32
    → Packed 7 0 ms (struct_layout ms).1 (struct_layout ms).0 × ((struct_layout ms).0 % 8 ≡ 0)
unfolding struct_layout
struct_layout-Packed ms h =
    let (packed, bound, eight) = walk_lem ms 0 (omega arith) in
    let stop = (walk ms 0 8).0 in
    let up = align_up_bounds stop 8 (omega arith) (omega arith) (omega arith) in
    rw eight (
      Packed-mono ms (walk ms 0 8).2 0 stop (align_up stop 8) packed up.0 up.1,
      align_up-multiple stop 8 (inr (inr (inr refl))) (omega arith),
    )

-- Where the fields take, with eight bytes more for each, less than 2^32 - 15 bytes, and their
-- alignments are powers of two, each field starts at a multiple of its own alignment.
pub struct_layout-Aligned :
    (ms : Members)
    → room ms + 16 ≤ 2 ^ 32
    → AlignmentsArePowers ms
    → Aligned ms (struct_layout ms).1
unfolding struct_layout
struct_layout-Aligned ms h a = walk-Aligned ms 0 (omega arith) a
