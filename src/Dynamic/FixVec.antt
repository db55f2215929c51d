-- ===== src/Dynamic/FixVec.antt =====
-- dynamic/src/fixvec.rs: `FixVec`, a vector whose elements keep their index. The bits that say which
-- slots are in use are a BitVec of the crate bitvec, a parameter with its documented behaviour.
pub mod Slots
pub mod Refine
pub mod Iteration
mod Examples
use zust.Prelude.{
  ℕ, zero, suc, ◌+◌, ◌-◌, ◌%◌, ◌^◌, ◌≡◌, ◌<◌, Bool, true, false, Option, none, some, List, [], ◌∷◌,
  ◌++◌, length, get_elem?, get_or, set, take, drop, replicate, ltb, if◌then◌else◌,
}

-- The first position with a zero bit, the last with a one, and whether there is none.
abbrev pub first_false : List Bool → Option ℕ
first_false [] = none
first_false (false ∷ bs) = some 0
first_false (true ∷ bs) = elim (first_false bs) [ none ↦ none | some i ↦ some (suc i) ]

abbrev pub last_true : List Bool → Option ℕ
last_true [] = none
last_true (b ∷ bs) = elim (last_true bs) [
  | none ↦ if b then some 0 else none
  | some i ↦ some (suc i)
]

abbrev pub ones : List Bool → ℕ
ones [] = 0
ones (b ∷ bs) = if b then suc (ones bs) else ones bs

abbrev pub all_zero : List Bool → Bool
all_zero [] = true
all_zero (b ∷ bs) = if b then false else all_zero bs

-- bitvec::vec::BitVec: `bools` are the bits that `iter` gives.
pub record BitVec : Type 1 where
  pub Bits : Type 0
  pub bools : Bits → List Bool
  pub bit : Bits → ℕ → Option Bool
  pub put : Bits → ℕ → Bool → Bits
  pub grow : Bits → Bool → Bits
  pub fill : Bits → Bool → Bits
  pub first_zero : Bits → Option ℕ
  pub not_any : Bits → Bool

pub record IsLawful (B : BitVec) : Type 0 where
  pub bit_lem : (b : B.Bits) (i : ℕ) → B.bit b i ≡ get_elem? (B.bools b) i
  pub bools-put :
      (b : B.Bits) (i : ℕ) (x : Bool)
      → i < length (B.bools b)
      → B.bools (B.put b i x) ≡ set (B.bools b) i x
  pub bools-grow : (b : B.Bits) (x : Bool) → B.bools (B.grow b x) ≡ B.bools b ++ x ∷ []
  pub bools-fill : (b : B.Bits) (x : Bool) → B.bools (B.fill b x) ≡ replicate (length (B.bools b)) x
  pub first_zero_lem : (b : B.Bits) → B.first_zero b ≡ first_false (B.bools b)
  pub not_any_lem : (b : B.Bits) → B.not_any b ≡ all_zero (B.bools b)

pub record FixVec (B : BitVec) (T : Type 0) : Type 0 where
  pub buf : List T
  pub useds : B.Bits
  pub len : ℕ

-- `get(pos).map(|v| *v).unwrap_or(false)`
abbrev pub or_false : Option Bool → Bool
or_false none = false
or_false (some b) = b

-- The operations. `none` is a panic: an index of `buf` out of bounds.
module _ (B : BitVec) {T : Type 0} (default : T) where
  unfoldable pub push : FixVec B T → T → Option (FixVec B T × ℕ)
  push f v =
      let len' = (f.len + 1) % 2 ^ 64 in
      elim (B.first_zero f.useds) [
        | some pos ↦
            if ltb pos (length f.buf)
            then some
                (record { buf = set f.buf pos v; useds = B.put f.useds pos true; len = len' }, pos)
            else none
        | none ↦ some (
          record { buf = f.buf ++ v ∷ []; useds = B.grow f.useds true; len = len' },
          length (f.buf ++ v ∷ []) - 1,
        )
      ]

  unfoldable pub contains : FixVec B T → ℕ → Bool
  contains f index = or_false (B.bit f.useds index)

  -- `std::mem::take` leaves the default value behind.
  unfoldable pub remove : FixVec B T → ℕ → Option (FixVec B T × Option T)
  unfolding contains
  remove f pos =
      if contains f pos
      then elim (get_elem? f.buf pos) [
        | none ↦ none
        | some v ↦ some (
          record {
            buf = set f.buf pos default;
            useds = B.put f.useds pos false;
            len = (f.len + (2 ^ 64 - 1)) % 2 ^ 64;
          },
          some v,
        )
      ]
      else some (f, none)

  unfoldable pub pop : FixVec B T → Option (FixVec B T × Option T)
  unfolding remove
  pop f = elim (last_true (B.bools f.useds)) [ some idx ↦ remove f idx | none ↦ some (f, none) ]

  unfoldable pub get : FixVec B T → ℕ → Option T
  unfolding contains
  get f pos = if contains f pos then get_elem? f.buf pos else none

  unfoldable pub is_empty : FixVec B T → Bool
  is_empty f = B.not_any f.useds

  unfoldable pub capacity : FixVec B T → ℕ
  capacity f = length f.buf

  -- The loop of `clear`, over the elements from `i` on.
  unfoldable pub cleared : FixVec B T → ℕ → List T → List T
  unfolding contains
  cleared f i [] = []
  cleared f i (x ∷ xs) = (if contains f i then default else x) ∷ cleared f (i + 1) xs

  unfoldable pub clear : FixVec B T → FixVec B T
  unfolding cleared
  clear f = record { buf = cleared f 0 f.buf; useds = B.fill f.useds false; len = 0 }

  -- The loop of `next` of the iterators: `rounds` elements are left from `index` on.
  unfoldable pub advance : ℕ → FixVec B T → ℕ → Option (ℕ × T) × ℕ
  unfolding contains
  advance zero f index = (none, index)
  advance (suc rounds) f index =
      let later = advance rounds f (index + 1) in
      if contains f index then (some (index, get_or f.buf index default), index + 1) else later

  -- `while self.index < self.vec.buf.len()` runs that often at most.
  unfoldable pub next : FixVec B T → ℕ → Option (ℕ × T) × ℕ
  unfolding advance
  next f index = advance (length f.buf - index) f index

  -- `size_hint` of `Iter`, `IterMut` and `Indices`.
  unfoldable pub size_hint : FixVec B T → ℕ → ℕ
  size_hint f index = ones (B.bools f.useds) - ones (take index (B.bools f.useds))

  -- `Indices::next` and `Values::next` keep one half of what `Iter::next` finds.
  unfoldable pub next_index : FixVec B T → ℕ → Option ℕ × ℕ
  unfolding next
  next_index f index =
      let (item, index') = next f index in
      (elim item [ none ↦ none | some (i, x) ↦ some i ], index')

  unfoldable pub next_value : FixVec B T → ℕ → Option T × ℕ
  unfolding next
  next_value f index =
      let (item, index') = next f index in
      (elim item [ none ↦ none | some (i, x) ↦ some x ], index')

  -- `IntoIter::next` frees the slot and takes the value out.
  unfoldable pub take_out : ℕ → FixVec B T → ℕ → Option (ℕ × T) × FixVec B T × ℕ
  unfolding contains
  take_out zero f index = (none, f, index)
  take_out (suc rounds) f index =
      let later = take_out rounds f (index + 1) in
      if contains f index
      then (
        some (index, get_or f.buf index default),
        record f { buf = set f.buf index default; useds = B.put f.useds index false },
        index + 1,
      )
      else later

  unfoldable pub into_next : FixVec B T → ℕ → Option (ℕ × T) × FixVec B T × ℕ
  unfolding take_out
  into_next f index = take_out (length f.buf - index) f index

  unfoldable pub into_size_hint : FixVec B T → ℕ → ℕ
  into_size_hint f index = ones (drop index (B.bools f.useds))
