-- ===== src/Root/Arrow/LevelVec/Push.antt =====
-- root/src/arrow/order_id.rs: what `push` with a threshold does to the levels.
use zust.Prelude.{
  ℕ, ◌≤◌, ◌≡◌, ◌≢◌, refl, sym, ap, ◌∙◌, arith, Bool, some, List, [], ◌∷◌, ◌++◌, Option-cases, inl,
  inr, append-nil,
}
use zust.Root.Arrow.LevelVec.{OrderId, level, at_level, count, push, position_of}
use zust.Root.Arrow.LevelVec.Shrink.{
  IsOrder, Shrunk, kept, dropped, shrink-Shrunk, count-append, count-one, count-remove,
  at_level-append, at_level-other, at_level-remove,
}

module _ {D : Type 0} (lt : D → D → Bool) (order : IsOrder lt) where
  at_level-grown :
      (value : List (OrderId D)) (oid : OrderId D) (m : ℕ)
      → m ≢ level oid
      → at_level m (value ++ oid ∷ []) ≡ at_level m value
  at_level-grown value oid m other =
      at_level-append lt order m value (oid ∷ [])
      ∙ ap (λ r. at_level m value ++ r) (at_level-other lt order m oid (λ e. other (sym e)))
      ∙ append-nil (at_level m value)

  -- The vector behind `shrink`, after an element of the level was added to at most `t` of them.
  shrunk_lem :
      (value : List (OrderId D)) (oid : OrderId D) (t m : ℕ)
      → count (level oid) value ≤ t
      → m ≢ level oid
      → (r : List (OrderId D) × Bool) → Shrunk lt order (level oid) (value ++ oid ∷ []) t r
      → (count (level oid) r.0 ≤ t) × (at_level m r.0 ≡ at_level m value)
  shrunk_lem value oid t m room other r (kept h) = (h, at_level-grown value oid m other)
  shrunk_lem value oid t m room other r (dropped i v h at lv far) =
      let grown = value ++ oid ∷ [] in
      (
        omega (
          arith,
          count-remove (level oid) grown i v at lv,
          count-append (level oid) value (oid ∷ []),
          count-one lt order (level oid) oid refl,
          room,
        ),
        at_level-remove m grown i v at (λ e. other (sym e ∙ lv)) ∙ at_level-grown value oid m other,
      )

  -- Pushing with a threshold that a level does not exceed keeps that level within it, and leaves
  -- every other level as it was; the comparison of distances is an order, as it is without NaN.
  pub push_lem :
      (value : List (OrderId D)) (oid : OrderId D) (t m : ℕ)
      → count (level oid) value ≤ t
      → m ≢ level oid
      → (count (level oid) (push lt value oid (some t)).0 ≤ t)
        × (at_level m (push lt value oid (some t)).0 ≡ at_level m value)
  unfolding push
  push_lem value oid t m room other = elim (Option-cases (position_of oid.id_level value)) [
    | inl e ↦
        rw (e, push)
          (shrunk_lem value oid t m room other _
            (shrink-Shrunk lt order (level oid) (value ++ oid ∷ []) t))
    | inr (i, e) ↦ rw (e, push) (room, refl)
  ]
