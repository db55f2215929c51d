-- ===== src/Root/Arrow/LevelVec.antt =====
-- root/src/arrow/order_id.rs: `LevelVec`, the neighbours of a point on all levels. Of a point there is
-- its packed identifier; a distance is of any type with the test `<` of the source's floats.
pub mod Shrink
pub mod Push
mod Examples
use zust.Prelude.{
  ℕ, zero, suc, ◌+◌, ◌-◌, Bool, true, false, Option, none, some, List, [], ◌∷◌, ◌++◌, length,
  get_elem?, ltb, ◌==◌, if◌then◌else◌,
}
use zust.Root.Arrow.Points.{level_of, id_of}

pub record OrderId (D : Type 0) : Type 0 where
  pub id_level : ℕ
  pub dist : D

module _ {D : Type 0} where
  pub level : OrderId D → ℕ
  level v = level_of v.id_level

  -- `iter().position(…)` for the packed identifier, and for the identifier alone.
  pub position_of : ℕ → List (OrderId D) → Option ℕ
  position_of id_level [] = none
  position_of id_level (v ∷ vs) =
      let later = position_of id_level vs in
      if v.id_level == id_level then some 0 else elim later [ none ↦ none | some i ↦ some (suc i) ]

  pub position_id : ℕ → List (OrderId D) → Option ℕ
  position_id id [] = none
  position_id id (v ∷ vs) =
      let later = position_id id vs in
      if id_of v.id_level == id then some 0 else elim later [ none ↦ none | some i ↦ some (suc i) ]

  -- `Vec::remove`, for a position in the vector.
  pub remove : List (OrderId D) → ℕ → List (OrderId D)
  remove [] i = []
  remove (v ∷ vs) zero = vs
  remove (v ∷ vs) (suc i) = v ∷ remove vs i

  -- The last element of a vector that begins with `v`, and the elements before it.
  pub last_of : OrderId D → List (OrderId D) → OrderId D
  last_of v [] = v
  last_of v (w ∷ vs) = last_of w vs

  pub before_last : OrderId D → List (OrderId D) → List (OrderId D)
  before_last v [] = []
  before_last v (w ∷ vs) = v ∷ before_last w vs

  -- `Vec::swap_remove`, for a position in the vector: the last element takes the free place.
  pub swap_remove : List (OrderId D) → ℕ → List (OrderId D)
  swap_remove [] i = []
  swap_remove (v ∷ []) i = []
  swap_remove (v ∷ w ∷ vs) zero = last_of w vs ∷ before_last w vs
  swap_remove (v ∷ w ∷ vs) (suc i) = v ∷ swap_remove (w ∷ vs) i

  pub remove_id : List (OrderId D) → ℕ → List (OrderId D) × Bool
  remove_id value id = elim (position_id id value) [
    | none ↦ (value, false)
    | some i ↦ (swap_remove value i, true)
  ]

  pub append : List (OrderId D) → List (OrderId D) → List (OrderId D)
  append value other = value ++ other

  pub first : ℕ → List (OrderId D) → Option (OrderId D)
  first l [] = none
  first l (v ∷ vs) = let later = first l vs in if level v == l then some v else later

  -- `LevelVec::get`
  pub at_level : ℕ → List (OrderId D) → List (OrderId D)
  at_level l [] = []
  at_level l (v ∷ vs) = if level v == l then v ∷ at_level l vs else at_level l vs

  -- `LevelVec::len`
  pub count : ℕ → List (OrderId D) → ℕ
  count l [] = 0
  count l (v ∷ vs) = if level v == l then suc (count l vs) else count l vs

  module _ (lt : D → D → Bool) where
    -- The accumulator of `shrink`: how many, and where the first farthest stands.
    pub better : OrderId D → ℕ → Option (ℕ × ℕ × D) → Option (ℕ × ℕ × D)
    better v pos none = some (1, pos, v.dist)
    better v pos (some (n, i, d)) =
        if lt d v.dist then some (n + 1, pos, v.dist) else some (n + 1, i, d)

    pub scan : ℕ → List (OrderId D) → ℕ → Option (ℕ × ℕ × D) → Option (ℕ × ℕ × D)
    scan l [] pos best = best
    scan l (v ∷ vs) pos best =
        scan l vs (pos + 1) (if level v == l then better v pos best else best)

    pub shrink : List (OrderId D) → ℕ → ℕ → List (OrderId D) × Bool
    shrink value l threshold = elim (scan l value 0 none) [
      | none ↦ (value, false)
      | some (n, i, d) ↦ if ltb threshold n then (remove value i, true) else (value, false)
    ]

    pub push : List (OrderId D) → OrderId D → Option ℕ → List (OrderId D) × Bool
    push value oid threshold = elim (position_of oid.id_level value) [
      | some i ↦ (value, false)
      | none ↦
          let grown = value ++ oid ∷ [] in
          elim threshold [ none ↦ (grown, true) | some t ↦ ((shrink grown (level oid) t).0, true) ]
    ]
