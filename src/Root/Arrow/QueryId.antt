-- ===== src/Root/Arrow/QueryId.antt =====
-- root/src/arrow/unique_id.rs: `QueryID::get` is two atomic operations on a shared counter, and other
-- threads may run between them.
use zust.Prelude.{
  ℕ, zero, suc, ◌+◌, ◌%◌, ◌^◌, ◌≤◌, ◌<◌, ◌≡◌, refl, ap, ◌∙◌, arith, List, [], ◌∷◌, ◌++◌, All,
  replicate, ◌==◌, if◌then◌else◌,
}

abbrev pub query_start : ℕ
query_start = 0x0000ffffffffffff

abbrev pub query_stop : ℕ
query_stop = 0x0fffffffffffffff

-- `fetch_add(1)` returns the old value and wraps around.
unfoldable pub fetch_add : ℕ → ℕ × ℕ
fetch_add id = (id, (id + 1) % 2 ^ 64)

-- `compare_exchange(QUERY_STOP, QUERY_START)`, whose result the source ignores.
unfoldable pub reset : ℕ → ℕ
reset id = if id == query_stop then query_start else id

-- `get` with nothing in between: the number, and the counter behind it.
unfoldable pub get : ℕ → ℕ × ℕ
unfolding fetch_add reset
get id = let (old, next) = fetch_add id in (old, reset next)

-- The numbers of calls that run one after the other.
unfoldable pub gets : ℕ → ℕ → List ℕ
gets zero id = []
gets (suc n) id = let (old, next) = get id in old ∷ gets n next

abbrev pub InRange : ℕ → Type 0
InRange id = (query_start ≤ id) × (id < query_stop)

-- A call returns the counter, and leaves it in the range.
pub get-InRange : (id : ℕ) → InRange id → ((get id).0 ≡ id) × InRange (get id).1
unfolding get
get-InRange id h = ground arith

-- Calls that do not overlap, from a counter in the range on, return numbers of the range.
pub gets-InRange : (n id : ℕ) → InRange id → All InRange (gets n id)
unfolding gets
gets-InRange zero id h = tt
gets-InRange (suc n) id h =
    let (e, next) = get-InRange id h in
    ((omega (arith, e), omega (arith, e)), gets-InRange n (get id).1 next)

-- The steps of the threads, in the order in which the processor makes them.
pub data Step : Type 0 where
  adds resets : Step

unfoldable pub step : Step → ℕ → ℕ
unfolding fetch_add reset
step adds id = (fetch_add id).1
step resets id = reset id

unfoldable pub steps : List Step → ℕ → ℕ
steps [] id = id
steps (s ∷ rest) id = steps rest (step s id)

steps-adds : (n id : ℕ) → id + n < 2 ^ 64 → steps (replicate n adds) id ≡ id + n
unfolding steps step
steps-adds zero id h = omega arith
steps-adds (suc n) id h = steps-adds n ((id + 1) % 2 ^ 64) (omega arith) ∙ omega arith

reset_above : (id : ℕ) → query_stop < id → reset id ≡ id
unfolding reset
reset_above id h = ground arith

steps-resets : (n id : ℕ) → query_stop < id → steps (replicate n resets) id ≡ id
unfolding steps step
steps-resets zero id h = refl
steps-resets (suc n) id h = ap (steps (replicate n resets)) (reset_above id h) ∙ steps-resets n id h

steps-append : (xs ys : List Step) (id : ℕ) → steps (xs ++ ys) id ≡ steps ys (steps xs id)
unfolding steps
steps-append [] ys id = refl
steps-append (x ∷ xs) ys id = steps-append xs ys (step x id)

-- Where n calls overlap so that all of them add before the first tries to reset, and they carry the
-- counter past the stop value, none of them resets it: it is left above the range.
pub overlapping_gets_escape :
    (n id : ℕ)
    → query_stop < id + n
    → id + n < 2 ^ 64
    → (steps (replicate n adds ++ replicate n resets) id ≡ id + n)
      × (query_stop < steps (replicate n adds ++ replicate n resets) id)
overlapping_gets_escape n id past small =
    let e =
      steps-append (replicate n adds) (replicate n resets) id
      ∙ ap (steps (replicate n resets)) (steps-adds n id small)
      ∙ steps-resets n (id + n) past in
    (e, omega (arith, e))
