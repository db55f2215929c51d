-- ===== src/Dynamic/FixVec/Iteration.antt =====
-- dynamic/src/fixvec.rs: the iterators, and `clear`.
use zust.Prelude.{
  ℕ, zero, suc, ◌+◌, ◌-◌, ◌≤◌, ◌<◌, ◌≡◌, refl, sym, ap, ◌∙◌, arith, Bool, true, false, Option, none,
  some, List, [], ◌∷◌, length, get_elem?, get_or, take, drop, drop-zero, replicate,
  length-replicate, Bool-cases, inl, inr, if◌then◌else◌,
}
use zust.Dynamic.FixVec.{
  BitVec, IsLawful, FixVec, advance, next, size_hint, clear, cleared, ones, or_false,
}
use zust.Dynamic.FixVec.Slots.{slots}
use zust.Dynamic.FixVec.Refine.{IsValid, view, contains_lem}

module _ {T : Type 0} where
  -- The specification of `next`: the first value of the slots from index `i` on, and the index
  -- behind it.
  unfoldable pub first_value : ℕ → List (Option T) → Option (ℕ × T) × ℕ
  first_value i [] = (none, i)
  first_value i (none ∷ ss) = first_value (i + 1) ss
  first_value i (some x ∷ ss) = (some (i, x), i + 1)

  abbrev pub held : List (Option T) → ℕ
  held [] = 0
  held (none ∷ ss) = held ss
  held (some x ∷ ss) = suc (held ss)

  drop-slots :
      (bs : List Bool) (xs : List T) (i : ℕ) (d : T)
      → length bs ≡ length xs
      → i < length xs
      → drop i (slots bs xs)
        ≡ (if or_false (get_elem? bs i) then some (get_or xs i d) else none)
          ∷ drop (suc i) (slots bs xs)
  drop-slots bs [] i d e h = absurd (omega arith)
  drop-slots [] (x ∷ xs) i d e h = absurd (omega arith)
  drop-slots (b ∷ bs) (x ∷ xs) zero d e h =
      ap (λ r. (if b then some x else none) ∷ r) (sym (drop-zero (slots bs xs)))
  drop-slots (b ∷ bs) (x ∷ xs) (suc i) d e h = drop-slots bs xs i d (omega arith) (omega arith)

  drop_all : (bs : List Bool) (xs : List T) (i : ℕ) → length xs ≤ i → drop i (slots bs xs) ≡ []
  drop_all [] xs i h = refl
  drop_all (b ∷ bs) [] i h = refl
  drop_all (b ∷ bs) (x ∷ xs) zero h = absurd (omega arith)
  drop_all (b ∷ bs) (x ∷ xs) (suc i) h = drop_all bs xs i (omega arith)

  held_all : (bs : List Bool) (xs : List T) → length bs ≡ length xs → ones bs ≡ held (slots bs xs)
  held_all [] xs e = refl
  held_all (b ∷ bs) [] e = absurd (omega arith)
  held_all (true ∷ bs) (x ∷ xs) e = omega (arith, held_all bs xs (omega arith))
  held_all (false ∷ bs) (x ∷ xs) e = held_all bs xs (omega arith)

  held-slots :
      (bs : List Bool) (xs : List T) (i : ℕ)
      → length bs ≡ length xs
      → ones bs ≡ ones (take i bs) + held (drop i (slots bs xs))
  held-slots [] xs i e = omega arith
  held-slots (b ∷ bs) [] i e = absurd (omega arith)
  held-slots (true ∷ bs) (x ∷ xs) zero e = omega (arith, held_all bs xs (omega arith))
  held-slots (false ∷ bs) (x ∷ xs) zero e = omega (arith, held_all bs xs (omega arith))
  held-slots (true ∷ bs) (x ∷ xs) (suc i) e = omega (arith, held-slots bs xs i (omega arith))
  held-slots (false ∷ bs) (x ∷ xs) (suc i) e = held-slots bs xs i (omega arith)

next_index : (i : ℕ) → i + 1 ≡ suc i
next_index i = omega arith

module _ (B : BitVec) (laws : IsLawful B) {T : Type 0} (default : T) where
  advance_lem :
      (rounds : ℕ) (f : FixVec B T) (index : ℕ)
      → IsValid B laws default f
      → length f.buf ≤ index + rounds
      → index + rounds ≤ length f.buf
      → advance B default rounds f index ≡ first_value index (drop index (view B laws default f))
  unfolding advance first_value
  advance_lem zero f index v h k = rw (drop_all (B.bools f.useds) f.buf index (omega arith)) refl
  advance_lem (suc rounds) f index v h k =
      let used = contains_lem B laws default f index in
      let first = drop-slots (B.bools f.useds) f.buf index default v.same (omega arith) in
      let later = advance_lem rounds f (index + 1) v (omega arith) (omega arith) in
      elim (Bool-cases (or_false (get_elem? (B.bools f.useds) index))) [
        | inl y ↦ rw (used ∙ y, first, y) refl
        | inr y ↦
            rw (used ∙ y, first, y)
              (later
                ∙ ap (λ n. first_value (index + 1) (drop n (view B laws default f)))
                    (next_index index))
      ]

  -- From an index within the vector, `next` gives the first value at or behind it with its index,
  -- and none behind the last one; `size_hint` is exactly the number of values that are left.
  pub next-first_value :
      (f : FixVec B T) (index : ℕ)
      → IsValid B laws default f
      → index ≤ length f.buf
      → (next B default f index ≡ first_value index (drop index (view B laws default f)))
        × (size_hint B default f index ≡ held (drop index (view B laws default f)))
  unfolding next size_hint
  next-first_value f index v h = (
    advance_lem (length f.buf - index) f index v (omega arith) (omega arith),
    omega (arith, held-slots (B.bools f.useds) f.buf index v.same),
  )

  length-cleared :
      (f : FixVec B T) (i : ℕ) (xs : List T) → length (cleared B default f i xs) ≡ length xs
  unfolding cleared
  length-cleared f i [] = refl
  length-cleared f i (x ∷ xs) = ap suc (length-cleared f (i + 1) xs)

  slots_unused :
      (n : ℕ) (xs : List T) → length xs ≡ n → slots (replicate n false) xs ≡ replicate n none
  slots_unused zero xs e = refl
  slots_unused (suc n) [] e = absurd (omega arith)
  slots_unused (suc n) (x ∷ xs) e = ap (λ r. none ∷ r) (slots_unused n xs (omega arith))

  ones_unused : (n : ℕ) → ones (replicate n false) ≡ 0
  ones_unused zero = refl
  ones_unused (suc n) = ones_unused n

  -- `clear` frees every slot, keeps their number and leaves a valid vector of length zero.
  pub clear-free :
      (f : FixVec B T)
      → IsValid B laws default f
      → IsValid B laws default (clear B default f)
        × (view B laws default (clear B default f) ≡ replicate (length f.buf) none)
        × ((clear B default f).len ≡ 0)
  unfolding clear
  clear-free f v =
      let n = length (B.bools f.useds) in
      let kept = length-cleared f 0 f.buf in
      (
        record {
          same =
              rw (laws.bools-fill f.useds false)
                (omega (arith, kept, length-replicate n false, v.same));
          counted = rw (laws.bools-fill f.useds false) (sym (ones_unused n));
          small = omega (arith, kept, v.small);
        },
        rw (laws.bools-fill f.useds false) (
            slots_unused n (cleared B default f 0 f.buf) (kept ∙ sym v.same)
            ∙ ap (λ k. replicate k none) v.same),
        refl,
      )
