-- ===== src/Root/Arrow/LevelVec/Shrink.antt =====
-- root/src/arrow/order_id.rs: what `shrink` drops, and what `push` keeps.
use zust.Prelude.{
  ℕ, zero, suc, ◌+◌, ◌≤◌, ◌<◌, ◌≡◌, ◌≢◌, refl, sym, arith, Bool, true, false, Option, none, some,
  List, [], ◌∷◌, ◌++◌, length, get_elem?, All, ltb, ◌==◌, Bool-cases, inl, inr, if◌then◌else◌,
  length-append, append_assoc, append-nil, ltb→lt,
}
use zust.Root.Arrow.LevelVec.{OrderId, level, remove, at_level, count, better, scan, shrink}

-- What the comparison of distances does where no distance is a NaN.
pub record IsOrder {D : Type 0} (lt : D → D → Bool) : Type 0 where
  pub irreflexive : (a : D) → lt a a ≡ false
  pub farther : (a b c : D) → lt a b ≡ true → lt a c ≡ false → lt b c ≡ false

module _ {D : Type 0} where
  pub count-append :
      (l : ℕ) (xs ys : List (OrderId D)) → count l (xs ++ ys) ≡ count l xs + count l ys
  unfolding count
  count-append l [] ys = omega arith
  count-append l (x ∷ xs) ys = ground (arith, count-append l xs ys)

  -- Removing an element of a level takes one off that level and leaves the others alone.
  pub count-remove :
      (l : ℕ) (xs : List (OrderId D)) (i : ℕ) (v : OrderId D)
      → get_elem? xs i ≡ some v
      → level v ≡ l
      → count l (remove xs i) + 1 ≡ count l xs
  unfolding count remove
  count-remove l [] i v e h = cc
  count-remove l (x ∷ xs) zero v e h = ground arith
  count-remove l (x ∷ xs) (suc i) v e h = ground (arith, count-remove l xs i v e h)

  pub at_level-remove :
      (l : ℕ) (xs : List (OrderId D)) (i : ℕ) (v : OrderId D)
      → get_elem? xs i ≡ some v
      → level v ≢ l
      → at_level l (remove xs i) ≡ at_level l xs
  unfolding at_level remove
  at_level-remove l [] i v e h = cc
  at_level-remove l (x ∷ xs) zero v e h = ground arith
  at_level-remove l (x ∷ xs) (suc i) v e h = ground (arith, at_level-remove l xs i v e h)

  get_elem?-append :
      (xs ys : List (OrderId D)) (i : ℕ) (v : OrderId D)
      → get_elem? xs i ≡ some v
      → get_elem? (xs ++ ys) i ≡ some v
  get_elem?-append [] ys i v e = cc
  get_elem?-append (x ∷ xs) ys zero v e = e
  get_elem?-append (x ∷ xs) ys (suc i) v e = get_elem?-append xs ys i v e

  get_elem?-last :
      (xs : List (OrderId D)) (v : OrderId D) → get_elem? (xs ++ v ∷ []) (length xs) ≡ some v
  get_elem?-last [] v = refl
  get_elem?-last (x ∷ xs) v = get_elem?-last xs v

module _ {D : Type 0} (lt : D → D → Bool) (order : IsOrder lt) (l : ℕ) where
  -- No element of the level lies farther than `d`.
  abbrev pub NoneFarther : D → List (OrderId D) → Type 0
  NoneFarther d xs = All (λ w. lt d w.dist ≡ false) (at_level l xs)

  -- What the accumulator says of the elements that `scan` has seen.
  abbrev Seen : List (OrderId D) → Option (ℕ × ℕ × D) → Type 0
  Seen xs none = count l xs ≡ 0
  Seen xs (some (n, i, d)) =
      (n ≡ count l xs)
      × ((v : OrderId D) × (get_elem? xs i ≡ some v) × (level v ≡ l) × (v.dist ≡ d))
      × NoneFarther d xs

  All-append :
      (P : OrderId D → Type 0) (xs ys : List (OrderId D)) → All P xs → All P ys → All P (xs ++ ys)
  All-append P [] ys h k = k
  All-append P (x ∷ xs) ys (a, h) k = (a, All-append P xs ys h k)

  All-weaken :
      (P Q : OrderId D → Type 0) (xs : List (OrderId D))
      → ((v : OrderId D) → P v → Q v)
      → All P xs
      → All Q xs
  All-weaken P Q [] f h = tt
  All-weaken P Q (x ∷ xs) f (a, b) = (f x a, All-weaken P Q xs f b)

  pub at_level-append :
      (xs ys : List (OrderId D)) → at_level l (xs ++ ys) ≡ at_level l xs ++ at_level l ys
  unfolding at_level
  at_level-append [] ys = refl
  at_level-append (x ∷ xs) ys = ground (arith, at_level-append xs ys)

  count-none : (xs : List (OrderId D)) → count l xs ≡ 0 → at_level l xs ≡ []
  unfolding count at_level
  count-none [] h = refl
  count-none (x ∷ xs) h = ground (arith, count-none xs)

  -- An element more, of this level or of another one.
  at_level-one : (v : OrderId D) → level v ≡ l → at_level l (v ∷ []) ≡ v ∷ []
  unfolding at_level
  at_level-one v h = ground arith

  pub at_level-other : (v : OrderId D) → level v ≢ l → at_level l (v ∷ []) ≡ []
  unfolding at_level
  at_level-other v h = ground arith

  pub count-one : (v : OrderId D) → level v ≡ l → count l (v ∷ []) ≡ 1
  unfolding count
  count-one v h = ground arith

  count-other : (v : OrderId D) → level v ≢ l → count l (v ∷ []) ≡ 0
  unfolding count
  count-other v h = ground arith

  grow-count :
      (xs : List (OrderId D)) (v : OrderId D)
      → level v ≡ l
      → count l (xs ++ v ∷ []) ≡ count l xs + 1
  grow-count xs v h = omega (arith, count-append l xs (v ∷ []), count-one v h)

  grow-NoneFarther :
      (d : D) (xs : List (OrderId D)) (v : OrderId D)
      → level v ≡ l
      → NoneFarther d xs
      → lt d v.dist ≡ false
      → NoneFarther d (xs ++ v ∷ [])
  grow-NoneFarther d xs v e h k =
      rw (at_level-append xs (v ∷ []), at_level-one v e)
        (All-append _ (at_level l xs) (v ∷ []) h (k, tt))

  better-Seen :
      (xs : List (OrderId D)) (v : OrderId D) (best : Option (ℕ × ℕ × D))
      → level v ≡ l
      → Seen xs best
      → Seen (xs ++ v ∷ []) (better lt v (length xs) best)
  unfolding better
  better-Seen xs v none t h = (
    omega (arith, grow-count xs v t, h),
    (v, get_elem?-last xs v, t, refl),
    grow-NoneFarther v.dist xs v t (rw (count-none xs h) tt) (order.irreflexive v.dist),
  )
  better-Seen xs v (some (n, i, d)) t (e, (w, at, lw, dw), far) = elim (Bool-cases (lt d v.dist)) [
    | inl y ↦ rw y (
      omega (arith, grow-count xs v t, e),
      (v, get_elem?-last xs v, t, refl),
      grow-NoneFarther v.dist xs v t
          (All-weaken _ _ (at_level l xs) (λ u. order.farther d v.dist u.dist y) far)
          (order.irreflexive v.dist),
    )
    | inr y ↦ rw y (
      omega (arith, grow-count xs v t, e),
      (w, get_elem?-append xs (v ∷ []) i w at, lw, dw),
      grow-NoneFarther d xs v t far y,
    )
  ]

  other-Seen :
      (xs : List (OrderId D)) (v : OrderId D) (best : Option (ℕ × ℕ × D))
      → level v ≢ l
      → Seen xs best
      → Seen (xs ++ v ∷ []) best
  other-Seen xs v none t h = omega (arith, count-append l xs (v ∷ []), count-other v t, h)
  other-Seen xs v (some (n, i, d)) t (e, (w, at, lw, dw), far) = (
    omega (arith, count-append l xs (v ∷ []), count-other v t, e),
    (w, get_elem?-append xs (v ∷ []) i w at, lw, dw),
    rw (at_level-append xs (v ∷ []), at_level-other v t, append-nil (at_level l xs)) far,
  )

  step-Seen :
      (xs : List (OrderId D)) (v : OrderId D) (best : Option (ℕ × ℕ × D))
      → Seen xs best
      → Seen (xs ++ v ∷ []) (if level v == l then better lt v (length xs) best else best)
  step-Seen xs v best h = elim (Bool-cases (level v == l)) [
    | inl t ↦ rw t (better-Seen xs v best (ground (arith, t)) h)
    | inr t ↦ rw t (other-Seen xs v best (ground (arith, t)) h)
  ]

  append-one :
      (xs : List (OrderId D)) (v : OrderId D) (ys : List (OrderId D))
      → xs ++ v ∷ ys ≡ (xs ++ v ∷ []) ++ ys
  append-one xs v ys = sym (append_assoc xs (v ∷ []) ys)

  scan-Seen :
      (xs seen : List (OrderId D)) (pos : ℕ) (best : Option (ℕ × ℕ × D))
      → pos ≡ length seen
      → Seen seen best
      → Seen (seen ++ xs) (scan lt l xs pos best)
  unfolding scan
  scan-Seen [] seen pos best e h = rw (append-nil seen) h
  scan-Seen (x ∷ xs) seen pos best e h =
      rw (append-one seen x xs, e)
        (scan-Seen xs (seen ++ x ∷ []) (length seen + 1)
          (if level x == l then better lt x (length seen) best else best)
          (omega (arith, length-append seen (x ∷ []))) (step-Seen seen x best h))

  -- What the scan of the whole vector finds.
  scan_lem : (xs : List (OrderId D)) → Seen xs (scan lt l xs 0 none)
  unfolding count
  scan_lem xs = scan-Seen xs [] 0 none refl refl

  -- What `shrink` answers, and the vector behind it: nothing to drop, or the first farthest dropped.
  pub data Shrunk (value : List (OrderId D)) (t : ℕ) : List (OrderId D) × Bool → Type 0 where
    kept : count l value ≤ t → Shrunk value t (value, false)
    dropped :
        (i : ℕ) (v : OrderId D)
        → t < count l value
        → get_elem? value i ≡ some v
        → level v ≡ l
        → NoneFarther v.dist value
        → Shrunk value t (remove value i, true)

  -- `shrink` leaves the vector as it is where the level has no more than the threshold, and otherwise
  -- removes one element, which is of that level and has no element of the level farther than it; the
  -- comparison of distances is an order, as it is without NaN.
  pub shrink-Shrunk : (value : List (OrderId D)) (t : ℕ) → Shrunk value t (shrink lt value l t)
  unfolding shrink
  shrink-Shrunk value t = go (scan lt l value 0 none) (scan_lem value)
    where
      go :
          (best : Option (ℕ × ℕ × D))
          → Seen value best
          → Shrunk value t (elim best [
            | none ↦ (value, false)
            | some (n, i, d) ↦ if ltb t n then (remove value i, true) else (value, false)
          ])
      go none h = kept (omega (arith, h))
      go (some (n, i, d)) (e, (v, at, lv, dv), far) = elim (Bool-cases (ltb t n)) [
        | inl y ↦ rw y (dropped i v (omega (arith, e, ltb→lt t n y)) at lv (rw dv far))
        | inr y ↦ rw y (kept (ground (arith, e, y)))
      ]
