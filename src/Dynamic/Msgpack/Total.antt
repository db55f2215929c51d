-- ===== src/Dynamic/Msgpack/Total.antt =====
-- dynamic/src/msgpack.rs: `decode` on any input.
use Prim.Native.Nat.{bit_and}
use native.Mathlib.Numerals.{add-one}
use zust.Prelude.{
  ℕ, zero, suc, ◌+◌, ◌-◌, ◌*◌, ◌≤◌, ◌<◌, ◌≡◌, refl, subst, arith, [], ◌∷◌, length, drop, leb,
  length-drop, leb→le, le→leb, Bool-cases, inl, inr,
}
use zust.Prelude.Outcome.{ok, err, panic, stuck, ◌>>=◌}
use zust.Dynamic.Value.{Bytes, Dynamic, Items, cons, list}
use zust.Dynamic.Msgpack.Read.{
  Decoded, slice_from, slice, tag_len, to_vec, Platform, vec_to_map, read_8, read_16, read_32,
}
use zust.Dynamic.Msgpack.Decode.{
  decode_array, text, raw_bytes, typed, elements, entries, decode_collections, decode_texts,
  decode_fixext, decode_numbers, decode_blobs, decode_first, decode_fuel, decode,
}

-- What `decode` promises on a buffer of `n` bytes: it has an answer, and a value that it returns
-- took between 1 and `n` bytes.
abbrev pub Answers : ℕ → Decoded Dynamic → Type 0
Answers n (ok (v, size)) = (1 ≤ size) × (size ≤ n)
Answers n (err e) = Unit
Answers n panic = Unit
Answers n stuck = ⊥

abbrev Stops : ℕ → Decoded Items → Type 0
Stops n (ok (vs, stop)) = stop ≤ n
Stops n (err e) = Unit
Stops n panic = Unit
Stops n stuck = ⊥

-- The decoder that a list calls for its elements, on buffers of at most `n` bytes.
abbrev AnswersBelow : (Bytes → Decoded Dynamic) → ℕ → Type 0
AnswersBelow dec n = (b : Bytes) → length b ≤ n → Answers (length b) (dec b)

cons-Stops :
    (n : ℕ) (v : Dynamic) (r : Decoded Items)
    → Stops n r
    → Stops n (r >>= λ (vs, stop). ok (cons v vs, stop))
cons-Stops n v (ok (vs, stop)) h = h
cons-Stops n v (err e) h = tt
cons-Stops n v panic h = tt
cons-Stops n v stuck h = h

-- One element, and the loop behind it.
element-Stops :
    (n cursor : ℕ) (r : Decoded Dynamic) (loop : ℕ → Decoded Items)
    → cursor ≤ n
    → Answers (n - cursor) r
    → ((next : ℕ) → next ≤ n → Stops n (loop next))
    → Stops n (r >>= λ (v, size). loop (cursor + size) >>= λ (vs, stop). ok (cons v vs, stop))
element-Stops n cursor (ok (v, size)) loop h a l =
    cons-Stops n v (loop (cursor + size)) (l (cursor + size) (omega arith))
element-Stops n cursor (err e) loop h a l = tt
element-Stops n cursor panic loop h a l = tt
element-Stops n cursor stuck loop h a l = a

module _ (dec : Bytes → Decoded Dynamic) (buf : Bytes) (d : AnswersBelow dec (length buf)) where
  decode_array-Stops :
      (n cursor : ℕ) → cursor ≤ length buf → Stops (length buf) (decode_array dec n buf cursor)
  unfolding decode_array slice_from
  decode_array-Stops zero cursor h = h
  decode_array-Stops (suc n) cursor h = rw (le→leb _ _ h) (
      element-Stops (length buf) cursor (dec (drop cursor buf)) (decode_array dec n buf) h
        (rw length-drop at (d (drop cursor buf) (omega (arith, length-drop cursor buf))))
        (decode_array-Stops n))

  -- What is returned behind a header of `k` bytes.
  wrapped-Answers :
      (k n : ℕ) (wrap : Items → Dynamic) (r : Decoded Items)
      → 1 ≤ k
      → k + length buf ≤ n
      → Stops (length buf) r
      → Answers n (r >>= λ (items, size). ok (wrap items, k + size))
  wrapped-Answers k n wrap (ok (vs, stop)) h fits a = omega arith
  wrapped-Answers k n wrap (err e) h fits a = tt
  wrapped-Answers k n wrap panic h fits a = tt
  wrapped-Answers k n wrap stuck h fits a = a

module _ (p : Platform) (rest : Bytes) where
  text-Answers :
      (start len size : ℕ)
      → 1 ≤ size
      → size ≤ length rest + 1
      → Answers (length rest + 1) (text p rest start len size)
  unfolding text slice
  text-Answers start len size lo hi = ground arith

  raw_bytes-Answers :
      (start len size : ℕ)
      → 1 ≤ size
      → size ≤ length rest + 1
      → Answers (length rest + 1) (raw_bytes p rest start len size)
  unfolding raw_bytes slice
  raw_bytes-Answers start len size lo hi = ground arith

  typed-Answers : (start len tag : ℕ) → Answers (length rest + 1) (typed p rest start len tag)
  unfolding typed slice tag_len to_vec
  typed-Answers start len tag = ground arith

module _ (p : Platform) (dec : Bytes → Decoded Dynamic) (rest : Bytes)
    (d : AnswersBelow dec (length rest)) where
  below : (start : ℕ) → AnswersBelow dec (length (drop start rest))
  below start b h = d b (omega (arith, length-drop start rest))

  behind-Answers :
      (start len : ℕ) (wrap : Items → Dynamic)
      → start ≤ length rest
      → Answers (length rest + 1) (
          decode_array dec len (drop start rest) 0 >>= λ (items, size).
          ok (wrap items, start + 1 + size))
  behind-Answers start len wrap fits =
      wrapped-Answers dec (drop start rest) (below start) (start + 1) (length rest + 1) wrap
        (decode_array dec len (drop start rest) 0) (omega arith)
        (omega (arith, length-drop start rest))
        (decode_array-Stops dec (drop start rest) (below start) len 0 (omega arith))

  elements-Answers : (start len : ℕ) → Answers (length rest + 1) (elements p dec rest start len)
  unfolding elements slice_from
  elements-Answers start len = elim (Bool-cases (leb start (length rest))) [
    | inl fits ↦ rw fits (behind-Answers start len list (leb→le _ _ fits))
    | inr short ↦ rw short tt
  ]

  entries-Answers : (start len : ℕ) → Answers (length rest + 1) (entries p dec rest start len)
  unfolding entries slice_from
  entries-Answers start len = elim (Bool-cases (leb start (length rest))) [
    | inl fits ↦ rw fits (behind-Answers start (len * 2) (vec_to_map p) (leb→le _ _ fits))
    | inr short ↦ rw short tt
  ]

  -- Each group of tests, from the last to the first.
  abbrev Good : Decoded Dynamic → Type 0
  Good = Answers (length rest + 1)

  collections-Answers : (first : ℕ) → Good (decode_collections p dec first rest)
  unfolding decode_collections
  collections-Answers first = ground (
    arith,
    elements-Answers 2 (read_16 rest),
    elements-Answers 4 (read_32 rest),
    entries-Answers 2 (read_16 rest),
    entries-Answers 4 (read_32 rest),
  )

  texts-Answers : (first : ℕ) → Good (decode_texts p dec first rest)
  unfolding decode_texts
  texts-Answers first = ground (
    arith,
    collections-Answers first,
    text-Answers p rest 1 (read_8 rest) (2 + read_8 rest),
    text-Answers p rest 2 (read_16 rest) (3 + read_16 rest),
    text-Answers p rest 4 (read_32 rest) (5 + read_32 rest),
  )

  fixext-Answers : (first : ℕ) → Good (decode_fixext p dec first rest)
  unfolding decode_fixext
  fixext-Answers first = ground (arith, texts-Answers first)

  numbers-Answers : (first : ℕ) → Good (decode_numbers p dec first rest)
  unfolding decode_numbers
  numbers-Answers first = ground (arith, fixext-Answers first)

  blobs-Answers : (first : ℕ) → Good (decode_blobs p dec first rest)
  unfolding decode_blobs
  blobs-Answers first = ground (
    arith,
    numbers-Answers first,
    raw_bytes-Answers p rest 1 (read_8 rest) (2 + read_8 rest),
    raw_bytes-Answers p rest 2 (read_16 rest) (3 + read_16 rest),
    raw_bytes-Answers p rest 4 (read_32 rest) (5 + read_32 rest),
    typed-Answers p rest 2 (read_8 rest) (read_8 (drop 1 rest)),
    typed-Answers p rest 3 (read_16 rest) (read_8 (drop 2 rest)),
    typed-Answers p rest 5 (read_32 rest) (read_8 (drop 4 rest)),
  )

  first-Answers : (first : ℕ) → Good (decode_first p dec first rest)
  unfolding decode_first
  first-Answers first = ground (
    arith,
    blobs-Answers first,
    entries-Answers 0 (bit_and first 0x0f),
    elements-Answers 0 (bit_and first 0x0f),
    text-Answers p rest 0 (bit_and first 0x1f) (1 + bit_and first 0x1f),
  )

module _ (p : Platform) where
  pub decode_fuel-cons :
      (fuel first : ℕ) (rest : Bytes)
      → decode_fuel p (suc fuel) (first ∷ rest) ≡ decode_first p (decode_fuel p fuel) first rest
  unfolding decode_fuel
  decode_fuel-cons fuel first rest = refl

  decode_fuel-nil : (fuel : ℕ) → Answers 0 (decode_fuel p (suc fuel) [])
  unfolding decode_fuel
  decode_fuel-nil fuel = tt

  decode_fuel-Answers :
      (fuel : ℕ) (buf : Bytes) → length buf < fuel → Answers (length buf) (decode_fuel p fuel buf)
  decode_fuel-Answers zero buf h = absurd (omega arith)
  decode_fuel-Answers (suc fuel) [] h = decode_fuel-nil fuel
  decode_fuel-Answers (suc fuel) (first ∷ rest) h =
      let d : AnswersBelow (decode_fuel p fuel) (length rest) =
        λ b s. decode_fuel-Answers fuel b (omega arith) in
      rw (decode_fuel-cons fuel first rest) (
        subst (λ n. Answers n (decode_first p (decode_fuel p fuel) first rest))
          (add-one (length rest)) (first-Answers p (decode_fuel p fuel) rest d first))

  -- On any input `decode` ends with a value, an error or a panic, and a value that it returns was
  -- read from at least one byte and from no more bytes than there are.
  pub decode_total : (buf : Bytes) → Answers (length buf) (decode p buf)
  unfolding decode
  decode_total buf = decode_fuel-Answers (length buf + 1) buf (omega arith)
