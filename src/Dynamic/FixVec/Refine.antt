-- ===== src/Dynamic/FixVec/Refine.antt =====
-- dynamic/src/fixvec.rs: the operations against slots that are free or hold a value.
use zust.Prelude.{
  ℕ, zero, suc, ◌+◌, ◌-◌, ◌%◌, ◌^◌, ◌≤◌, ◌<◌, ◌≡◌, refl, sym, ap, ◌∙◌, arith, Bool, true, false,
  Option, none, some, List, [], ◌∷◌, ◌++◌, length, get_elem?, set, length-set, length-append,
  lt→ltb, Bool-cases, Option-cases, inl, inr, if◌then◌else◌,
}
use zust.Dynamic.FixVec.{
  BitVec, IsLawful, FixVec, push, remove, get, contains, first_false, ones, or_false,
}
use zust.Dynamic.FixVec.Slots.{
  slots, place, free_slot, content, slots-first, slots-full, slots-free, slots-content, ones-free,
}

pub ones-le : (bs : List Bool) → ones bs ≤ length bs
ones-le [] = omega arith
ones-le (true ∷ bs) = omega (arith, ones-le bs)
ones-le (false ∷ bs) = omega (arith, ones-le bs)

module _ (B : BitVec) (laws : IsLawful B) {T : Type 0} (default : T) where
  -- A bit for each element, and `len` counts the ones.
  pub record IsValid (f : FixVec B T) : Type 0 where
    pub same : length (B.bools f.useds) ≡ length f.buf
    pub counted : f.len ≡ ones (B.bools f.useds)
    pub small : length f.buf < 2 ^ 64

  -- What a client sees.
  abbrev pub view : FixVec B T → List (Option T)
  view f = slots (B.bools f.useds) f.buf

  pub contains_lem :
      (f : FixVec B T) (i : ℕ) → contains B default f i ≡ or_false (get_elem? (B.bools f.useds) i)
  unfolding contains
  contains_lem f i = ap or_false (laws.bit_lem f.useds i)

  -- `get` gives what the slot holds, on every index.
  pub get-content :
      (f : FixVec B T) (pos : ℕ)
      → IsValid f
      → get B default f pos ≡ content (get_elem? (view f) pos)
  unfolding get
  get-content f pos v =
      rw (contains_lem f pos) (sym (slots-content (B.bools f.useds) f.buf pos v.same))

  -- Counting one more does not wrap around.
  counts :
      (f : FixVec B T)
      → IsValid f
      → length f.buf + 1 < 2 ^ 64
      → (n : ℕ) → n ≡ ones (B.bools f.useds) + 1
      → (f.len + 1) % 2 ^ 64 ≡ n
  counts f v room n e = omega (arith, v.counted, v.same, ones-le (B.bools f.useds))

  last_index : (xs : List T) (v : T) → length (xs ++ v ∷ []) - 1 ≡ length xs
  last_index xs v = omega (arith, length-append xs (v ∷ []))

  -- `push` does not panic, puts the value into the first free slot or a new one, returns its index,
  -- and keeps the vector valid, where another element can be counted.
  pub push-place :
      (f : FixVec B T) (v : T)
      → IsValid f
      → length f.buf + 1 < 2 ^ 64
      → (f' : FixVec B T) × (push B default f v ≡ some (f', free_slot (view f)))
        × IsValid f'
        × (view f' ≡ place (view f) v)
  unfolding push
  push-place f v ok room = elim (Option-cases (first_false (B.bools f.useds))) [
    | inr (p, e) ↦
        let (within, same, free, count) = slots-first (B.bools f.useds) f.buf v p ok.same e in
        let g : FixVec B T = record {
          buf = set f.buf p v;
          useds = B.put f.useds p true;
          len = (f.len + 1) % 2 ^ 64;
        } in
        (
          g,
          rw (laws.first_zero_lem f.useds ∙ e, push)
              (rw (lt→ltb _ _ within) (ap (λ q. some (g, q)) free)),
          record {
            same =
                rw (laws.bools-put f.useds p true (omega (arith, ok.same, within))) (
                  omega
                    (arith, length-set (B.bools f.useds) p true, length-set f.buf p v, ok.same));
            counted =
                rw (laws.bools-put f.useds p true (omega (arith, ok.same, within)))
                  (counts f ok room (ones (set (B.bools f.useds) p true)) count);
            small = omega (arith, length-set f.buf p v, ok.small);
          },
          rw (laws.bools-put f.useds p true (omega (arith, ok.same, within))) same,
        )
    | inl e ↦
        let (same, free, count) = slots-full (B.bools f.useds) f.buf v ok.same e in
        let g : FixVec B T = record {
          buf = f.buf ++ v ∷ [];
          useds = B.grow f.useds true;
          len = (f.len + 1) % 2 ^ 64;
        } in
        (
          g,
          rw (laws.first_zero_lem f.useds ∙ e, push)
              (ap (λ q. some (g, q)) (last_index f.buf v ∙ free)),
          record {
            same = rw (laws.bools-grow f.useds true) (
                omega (
                  arith,
                  length-append (B.bools f.useds) (true ∷ []),
                  length-append f.buf (v ∷ []),
                  ok.same,
                ));
            counted =
                rw (laws.bools-grow f.useds true)
                  (counts f ok room (ones (B.bools f.useds ++ true ∷ [])) count);
            small = omega (arith, length-append f.buf (v ∷ []), room);
          },
          rw (laws.bools-grow f.useds true) same,
        )
  ]

  -- A position with a one has an element.
  used_within : (bs : List Bool) (p : ℕ) → or_false (get_elem? bs p) ≡ true → p < length bs
  used_within [] p h = cc
  used_within (b ∷ bs) zero h = omega arith
  used_within (b ∷ bs) (suc p) h = omega (arith, used_within bs p h)

  elem_within : (xs : List T) (p : ℕ) → p < length xs → (x : T) × (get_elem? xs p ≡ some x)
  elem_within [] p h = absurd (omega arith)
  elem_within (x ∷ xs) zero h = (x, refl)
  elem_within (x ∷ xs) (suc p) h = elem_within xs p (omega arith)

  unused :
      (bs : List Bool) (xs : List T) (p : ℕ)
      → or_false (get_elem? bs p) ≡ false
      → set (slots bs xs) p none ≡ slots bs xs
  unused [] xs p h = refl
  unused (b ∷ bs) [] p h = refl
  unused (true ∷ bs) (x ∷ xs) zero h = cc
  unused (false ∷ bs) (x ∷ xs) zero h = refl
  unused (b ∷ bs) (x ∷ xs) (suc p) h = ap (λ r. (if b then some x else none) ∷ r) (unused bs xs p h)

  -- `remove` does not panic, gives what the slot held, frees it and keeps the vector valid, on every
  -- index.
  pub remove-free :
      (f : FixVec B T) (pos : ℕ)
      → IsValid f
      → (f' : FixVec B T) × (remove B default f pos ≡ some (f', content (get_elem? (view f) pos)))
        × IsValid f'
        × (view f' ≡ set (view f) pos none)
  unfolding remove
  remove-free f pos ok =
      let held = slots-content (B.bools f.useds) f.buf pos ok.same in
      elim (Bool-cases (or_false (get_elem? (B.bools f.useds) pos))) [
        | inl used ↦
            let within = used_within (B.bools f.useds) pos used in
            let (x, e) = elem_within f.buf pos (omega (arith, ok.same, within)) in
            let bits = laws.bools-put f.useds pos false within in
            let fewer = ones-free (B.bools f.useds) pos used in
            let g : FixVec B T = record {
              buf = set f.buf pos default;
              useds = B.put f.useds pos false;
              len = (f.len + (2 ^ 64 - 1)) % 2 ^ 64;
            } in
            (
              g,
              rw (contains_lem f pos ∙ used, remove)
                  (rw (e, remove) (ap (λ o. some (g, o)) (sym (held ∙ rw used e)))),
              record {
                same = rw bits (
                    omega (
                      arith,
                      length-set (B.bools f.useds) pos false,
                      length-set f.buf pos default,
                      ok.same,
                    ));
                counted = rw bits (
                    omega (arith, fewer, ok.counted, ok.same, ok.small, ones-le (B.bools f.useds)));
                small = omega (arith, length-set f.buf pos default, ok.small);
              },
              rw bits (slots-free (B.bools f.useds) f.buf default pos),
            )
        | inr free ↦ (
          f,
          rw (contains_lem f pos ∙ free, remove) (ap (λ o. some (f, o)) (sym (held ∙ rw free))),
          ok,
          sym (unused (B.bools f.useds) f.buf pos free),
        )
      ]
