-- ===== src/Dynamic/Json/Loops.antt =====
-- dynamic/src/json.rs: the loops of lists and maps on any input.
use zust.Prelude.{
  ℕ, zero, suc, ◌+◌, ◌≤◌, ◌<◌, ◌≡◌, arith, [], ◌∷◌, length, length-drop, drop, leb, ◌==◌,
  Bool-cases, inl, inr, le→leb,
}
use zust.Prelude.Outcome.{Outcome, ok, ◌>>=◌}
use zust.Dynamic.Value.{Bytes, Dynamic, Fields, end, insert}
use zust.Dynamic.Json.Buffer.{JsonErr, Read, Text, white_run, skip_white, from, skip}
use zust.Dynamic.Json.Strings.{get_string}
use zust.Dynamic.Json.Read.{comma, next_item, list_loop, colon, entry, map_loop, list_at, map_at}
use zust.Dynamic.Json.Answers.{
  Answers, Answers-mono, bind-Answers, if-Answers, between-Answers, Used, get_string-Answers,
}

-- The reader went on by `size` bytes at least, in a buffer of `n` bytes, and stands on a byte.
abbrev Moved : ℕ → ℕ → ℕ → Bytes × ℕ → Type 0
Moved at n size (here, next) =
    (1 ≤ length here) × (next + length here ≡ at + n) × (at + size ≤ next)

pub skip_white-Answers : (buf : Bytes) → Answers (λ n. n < length buf) (skip_white buf)
unfolding skip_white
skip_white-Answers buf = elim (Bool-cases (leb (length buf) (white_run buf))) [
  | inl e ↦ rw e tt
  | inr e ↦ rw e (ground arith)
]

skip-Answers :
    (rest : Bytes) (at size : ℕ)
    → size ≤ length rest
    → Answers (Moved at (length rest) size) (skip rest at size)
unfolding skip from
skip-Answers rest at size h = rw (le→leb size (length rest) h) (
    bind-Answers (λ n. n < length (drop size rest)) (Moved at (length rest) size)
      (skip_white (drop size rest)) (λ white. ok (drop white (drop size rest), at + size + white))
      (skip_white-Answers (drop size rest))
      λ white k. (
        omega (arith, length-drop white (drop size rest), length-drop size rest),
        omega (arith, length-drop white (drop size rest), length-drop size rest),
        omega arith,
      ))

Moved-on :
    (at n size : ℕ) (here : Bytes) (next more : ℕ) (r : Outcome JsonErr (Bytes × ℕ))
    → Moved at n size (here, next)
    → Answers (Moved next (length here) more) r
    → Answers (Moved at n size) r
Moved-on at n size here next more r h k =
    Answers-mono (Moved next (length here) more) (Moved at n size) r k
      λ a m. (omega arith, omega arith, omega arith)

comma-Answers :
    (here : Bytes) (at : ℕ) → 1 ≤ length here → Answers (Moved at (length here) 0) (comma here at)
unfolding comma
comma-Answers [] at h = absurd (omega arith)
comma-Answers (c ∷ rest) at h =
    if-Answers (Moved at (suc (length rest)) 0) (c == b',') _ _
      (Answers-mono (Moved at (suc (length rest)) 1) (Moved at (suc (length rest)) 0)
        (skip (c ∷ rest) at 1) (skip-Answers (c ∷ rest) at 1 (omega arith))
        λ a m. (omega arith, omega arith, omega arith))
      (omega arith, omega arith, omega arith)

next_item-Answers :
    (rest : Bytes) (at size : ℕ)
    → size ≤ length rest
    → Answers (Moved at (length rest) size) (next_item rest at size)
unfolding next_item
next_item-Answers rest at size h =
    bind-Answers (Moved at (length rest) size) (Moved at (length rest) size) (skip rest at size)
      (λ (here, next). comma here next) (skip-Answers rest at size h)
      λ (here, next) m.
        Moved-on at (length rest) size here next 0 (comma here next) m (comma-Answers here next m.0)

colon-Answers :
    (rest : Bytes) (at : ℕ) → 1 ≤ length rest → Answers (Moved at (length rest) 1) (colon rest at)
unfolding colon
colon-Answers [] at h = absurd (omega arith)
colon-Answers (c ∷ rest) at h =
    if-Answers (Moved at (suc (length rest)) 1) (c == b':') _ _
      (skip-Answers (c ∷ rest) at 1 (omega arith)) tt

module _ (dec : Bytes → Read Dynamic) (limit : ℕ)
    (d : (b : Bytes) → 1 ≤ length b → length b ≤ limit → Answers (Used 1 (length b)) (dec b)) where
  list_loop-Answers :
      (fuel : ℕ) (rest : Bytes) (at : ℕ)
      → 1 ≤ length rest
      → length rest ≤ fuel
      → length rest ≤ limit
      → Answers (Used (at + 1) (at + length rest)) (list_loop dec fuel rest at)
  unfolding list_loop
  list_loop-Answers zero rest at h f l = absurd (omega arith)
  list_loop-Answers (suc fuel) [] at h f l = absurd (omega arith)
  list_loop-Answers (suc fuel) (c ∷ rest) at h f l =
      if-Answers (Used (at + 1) (at + suc (length rest))) (c == b']') _ _ (omega arith, omega arith)
        (bind-Answers (Used 1 (suc (length rest))) (Used (at + 1) (at + suc (length rest)))
          (dec (c ∷ rest)) _ (d (c ∷ rest) h l)
          λ (item, size) used.
            bind-Answers (Moved at (suc (length rest)) size)
              (Used (at + 1) (at + suc (length rest))) (next_item (c ∷ rest) at size) _
              (next_item-Answers (c ∷ rest) at size (omega arith))
              λ (here, next) m.
                bind-Answers (Used (next + 1) (next + length here))
                  (Used (at + 1) (at + suc (length rest))) (list_loop dec fuel here next) _
                  (list_loop-Answers fuel here next m.0 (omega arith) (omega arith))
                  λ (items, stop) last. (omega arith, omega arith))

  -- An entry moves the reader on.
  abbrev EntryMoved : ℕ → ℕ → Bytes × Dynamic × Bytes × ℕ → Type 0
  EntryMoved at n (_, _, here, next) = Moved at n 1 (here, next)

  item-Answers :
      (key there : Bytes) (at n start : ℕ)
      → Moved at n 1 (there, start)
      → length there ≤ limit
      → Answers (EntryMoved at n) (do
        (item, size) ← dec there
        (here, next) ← next_item there start size
        ok (key, item, here, next))
  item-Answers key there at n start m l =
      bind-Answers (Used 1 (length there)) (EntryMoved at n) (dec there) _ (d there m.0 l)
        λ (item, size) used.
          bind-Answers (Moved start (length there) size) (EntryMoved at n)
            (next_item there start size) _ (next_item-Answers there start size (omega arith))
            λ (here, next) k. (omega arith, omega arith, omega arith)

  entry-Answers :
      (t : Text) (c : ℕ) (rest : Bytes) (at : ℕ)
      → suc (length rest) ≤ limit
      → Answers (EntryMoved at (suc (length rest))) (entry dec t (c ∷ rest) at)
  unfolding entry
  entry-Answers t c rest at l =
      let n = suc (length rest) in
      bind-Answers (Used 1 n) (EntryMoved at n) (get_string t (c ∷ rest)) _
        (get_string-Answers t c rest)
        λ (key, key_size) used.
          bind-Answers (Moved at n key_size) (EntryMoved at n) (skip (c ∷ rest) at key_size) _
            (skip-Answers (c ∷ rest) at key_size (omega arith))
            λ (behind, sep) m.
              bind-Answers (Moved sep (length behind) 1) (EntryMoved at n) (colon behind sep) _
                (colon-Answers behind sep m.0)
                λ (there, start) k.
                  item-Answers key there at n start (omega arith, omega arith, omega arith)
                    (omega arith)

  map_loop-Answers :
      (t : Text) (fuel : ℕ) (rest : Bytes) (at : ℕ) (acc : Fields)
      → 1 ≤ length rest
      → length rest ≤ fuel
      → length rest ≤ limit
      → Answers (Used (at + 1) (at + length rest)) (map_loop dec t fuel rest at acc)
  unfolding map_loop
  map_loop-Answers t zero rest at acc h f l = absurd (omega arith)
  map_loop-Answers t (suc fuel) [] at acc h f l = absurd (omega arith)
  map_loop-Answers t (suc fuel) (c ∷ rest) at acc h f l =
      let n = suc (length rest) in
      if-Answers (Used (at + 1) (at + n)) (c == b'}') _ _ (omega arith, omega arith)
        (if-Answers (Used (at + 1) (at + n)) (c == b'"') _ _
          (bind-Answers (EntryMoved at n) (Used (at + 1) (at + n)) (entry dec t (c ∷ rest) at) _
            (entry-Answers t c rest at l)
            λ (key, item, here, next) m.
              between-Answers (at + 1) (at + n) (next + 1) (next + length here)
                (map_loop dec t fuel here next (insert key item acc))
                (map_loop-Answers t fuel here next (insert key item acc) m.0 (omega arith)
                  (omega arith))
                (omega arith) (omega arith))
          tt)

  pub list_at-Answers :
      (c : ℕ) (rest : Bytes) (at : ℕ)
      → length rest ≤ limit
      → Answers (Used 1 (at + suc (length rest))) (list_at dec (c ∷ rest) at)
  unfolding list_at
  list_at-Answers c rest at l =
      bind-Answers (Moved at (suc (length rest)) 1) (Used 1 (at + suc (length rest)))
        (skip (c ∷ rest) at 1) _ (skip-Answers (c ∷ rest) at 1 (omega arith))
        λ (here, next) m.
          bind-Answers (Used (next + 1) (next + length here)) (Used 1 (at + suc (length rest)))
            (list_loop dec (suc (length rest)) here next) _
            (list_loop-Answers (suc (length rest)) here next m.0 (omega arith) (omega arith))
            λ (items, stop) used. (omega arith, omega arith)

  pub map_at-Answers :
      (t : Text) (c : ℕ) (rest : Bytes) (at : ℕ)
      → length rest ≤ limit
      → Answers (Used 1 (at + suc (length rest))) (map_at dec t (c ∷ rest) at)
  unfolding map_at
  map_at-Answers t c rest at l =
      bind-Answers (Moved at (suc (length rest)) 1) (Used 1 (at + suc (length rest)))
        (skip (c ∷ rest) at 1) _ (skip-Answers (c ∷ rest) at 1 (omega arith))
        λ (here, next) m.
          bind-Answers (Used (next + 1) (next + length here)) (Used 1 (at + suc (length rest)))
            (map_loop dec t (suc (length rest)) here next end) _
            (map_loop-Answers t (suc (length rest)) here next end m.0 (omega arith) (omega arith))
            λ (fields, stop) used. (omega arith, omega arith)
