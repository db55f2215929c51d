-- ===== src/Dynamic/FixVec/Slots.antt =====
-- dynamic/src/fixvec.rs, seen from outside: slots that are free or hold a value.
use zust.Prelude.{
  ℕ, zero, suc, ◌+◌, ◌<◌, ◌≡◌, refl, ap, arith, Bool, true, false, Option, none, some, List, [],
  ◌∷◌, ◌++◌, length, get_elem?, set, if◌then◌else◌,
}
use zust.Dynamic.FixVec.{first_false, ones, or_false}

pub ones-free :
    (bs : List Bool) (p : ℕ)
    → or_false (get_elem? bs p) ≡ true
    → ones (set bs p false) + 1 ≡ ones bs
ones-free [] p h = cc
ones-free (true ∷ bs) zero h = omega arith
ones-free (false ∷ bs) zero h = cc
ones-free (true ∷ bs) (suc p) h = omega (arith, ones-free bs p h)
ones-free (false ∷ bs) (suc p) h = ones-free bs p h

-- Behind a used slot the search goes on.
first_false-later :
    (o : Option ℕ) (p : ℕ)
    → (elim o [ none ↦ none | some i ↦ some (suc i) ]) ≡ some p
    → (q : ℕ) × (o ≡ some q) × (p ≡ suc q)
first_false-later none p e = cc
first_false-later (some q) p e = (q, refl, cc)

first_false-none :
    (o : Option ℕ)
    → ◌≡◌ {A = Option ℕ} (elim o [ none ↦ none | some i ↦ some (suc i) ]) none
    → o ≡ none
first_false-none none e = refl
first_false-none (some q) e = cc

module _ {T : Type 0} where
  abbrev pub slots : List Bool → List T → List (Option T)
  slots [] xs = []
  slots (b ∷ bs) [] = []
  slots (b ∷ bs) (x ∷ xs) = (if b then some x else none) ∷ slots bs xs

  -- The specification of `push`: the first free slot, or a new one.
  unfoldable pub place : List (Option T) → T → List (Option T)
  place [] v = some v ∷ []
  place (none ∷ ss) v = some v ∷ ss
  place (some x ∷ ss) v = some x ∷ place ss v

  unfoldable pub free_slot : List (Option T) → ℕ
  free_slot [] = 0
  free_slot (none ∷ ss) = 0
  free_slot (some x ∷ ss) = suc (free_slot ss)

  -- What a slot holds; there is nothing behind the last one.
  abbrev pub content : Option (Option T) → Option T
  content none = none
  content (some s) = s

  pub slots-first :
      (bs : List Bool) (xs : List T) (v : T) (p : ℕ)
      → length bs ≡ length xs
      → first_false bs ≡ some p
      → (p < length xs)
        × (slots (set bs p true) (set xs p v) ≡ place (slots bs xs) v)
        × (p ≡ free_slot (slots bs xs))
        × (ones (set bs p true) ≡ ones bs + 1)
  unfolding place free_slot
  slots-first [] xs v p h e = cc
  slots-first (b ∷ bs) [] v p h e = absurd (omega arith)
  slots-first (false ∷ bs) (x ∷ xs) v zero h e = (omega arith, refl, refl, omega arith)
  slots-first (false ∷ bs) (x ∷ xs) v (suc p) h e = cc
  slots-first (true ∷ bs) (x ∷ xs) v p h e =
      let (q, found, next) = first_false-later (first_false bs) p e in
      let (within, same, free, count) = slots-first bs xs v q (omega arith) found in
      rw next (omega arith, ap (λ r. some x ∷ r) same, ap suc free, omega (arith, count))

  pub slots-full :
      (bs : List Bool) (xs : List T) (v : T)
      → length bs ≡ length xs
      → first_false bs ≡ none
      → (slots (bs ++ true ∷ []) (xs ++ v ∷ []) ≡ place (slots bs xs) v)
        × (length xs ≡ free_slot (slots bs xs))
        × (ones (bs ++ true ∷ []) ≡ ones bs + 1)
  unfolding place free_slot
  slots-full [] [] v h e = (refl, refl, omega arith)
  slots-full [] (x ∷ xs) v h e = absurd (omega arith)
  slots-full (b ∷ bs) [] v h e = absurd (omega arith)
  slots-full (false ∷ bs) (x ∷ xs) v h e = cc
  slots-full (true ∷ bs) (x ∷ xs) v h e =
      let (same, free, count) =
        slots-full bs xs v (omega arith) (first_false-none (first_false bs) e) in
      (ap (λ r. some x ∷ r) same, ap suc free, omega (arith, count))

  pub slots-free :
      (bs : List Bool) (xs : List T) (d : T) (p : ℕ)
      → slots (set bs p false) (set xs p d) ≡ set (slots bs xs) p none
  slots-free [] xs d p = refl
  slots-free (b ∷ bs) [] d zero = refl
  slots-free (b ∷ bs) [] d (suc p) = refl
  slots-free (b ∷ bs) (x ∷ xs) d zero = refl
  slots-free (b ∷ bs) (x ∷ xs) d (suc p) =
      ap (λ r. (if b then some x else none) ∷ r) (slots-free bs xs d p)

  pub slots-content :
      (bs : List Bool) (xs : List T) (p : ℕ)
      → length bs ≡ length xs
      → content (get_elem? (slots bs xs) p)
        ≡ (if or_false (get_elem? bs p) then get_elem? xs p else none)
  slots-content [] xs p h = refl
  slots-content (b ∷ bs) [] p h = absurd (omega arith)
  slots-content (true ∷ bs) (x ∷ xs) zero h = refl
  slots-content (false ∷ bs) (x ∷ xs) zero h = refl
  slots-content (b ∷ bs) (x ∷ xs) (suc p) h = slots-content bs xs p (omega arith)
