-- ===== src/Root/Arrow/LevelVec/Examples.antt =====
-- The laws of LevelVec at concrete values: neighbours on two levels, distances in ℕ.
use zust.Prelude.{ℕ, ◌+◌, ◌^◌, ◌≤◌, ◌≡◌, ◌≢◌, refl, arith, true, some, List, [], ◌∷◌, ltb}
use zust.Root.Arrow.Points.{level_of, id_of}
use zust.Root.Arrow.LevelVec.{
  OrderId, level, at_level, count, push, shrink, scan, better, position_of, remove_id, position_id,
  swap_remove, last_of, before_last, first, append, remove,
}
use zust.Root.Arrow.LevelVec.Shrink.{IsOrder, Shrunk, shrink-Shrunk}
use zust.Root.Arrow.LevelVec.Push.{push_lem}

ltb-IsOrder : IsOrder ltb
ltb-IsOrder = record {
  irreflexive = λ a. ground arith;
  farther = λ a b c h k. ground (arith, h, k);
}

-- Two neighbours on level 0 and one on level 1.
abbrev near : OrderId ℕ
near = record { id_level = 5; dist = 3 }

abbrev far : OrderId ℕ
far = record { id_level = 6; dist = 9 }

abbrev above : OrderId ℕ
above = record { id_level = 2 ^ 60 + 5; dist = 1 }

abbrev closer : OrderId ℕ
closer = record { id_level = 7; dist = 4 }

abbrev neighbours : List (OrderId ℕ)
neighbours = far ∷ above ∷ near ∷ []

shrink-Shrunk_example : Shrunk ltb ltb-IsOrder 0 neighbours 1 (shrink ltb neighbours 0 1)
shrink-Shrunk_example = shrink-Shrunk ltb ltb-IsOrder 0 neighbours 1

-- The farthest one leaves the full level, and the new one stays.
pushed : push ltb neighbours closer (some 2) ≡ (above ∷ near ∷ closer ∷ [], true)
unfolding push shrink scan better position_of remove level level_of
pushed = refl

room : count 0 neighbours ≤ 2
unfolding count level level_of
room = omega arith

other : 1 ≢ level closer
unfolding level level_of
other e = omega (arith, e)

push_lem_example :
    (count 0 (push ltb neighbours closer (some 2)).0 ≤ 2)
    × (at_level 1 (push ltb neighbours closer (some 2)).0 ≡ at_level 1 neighbours)
unfolding level level_of
push_lem_example = push_lem ltb ltb-IsOrder neighbours closer 2 1 room other

-- The last neighbour takes the place of the removed one.
removed : remove_id neighbours 6 ≡ (near ∷ above ∷ [], true)
unfolding remove_id position_id swap_remove last_of before_last id_of
removed = refl

found_above : first 1 (append neighbours (closer ∷ [])) ≡ some above
unfolding first append level level_of
found_above = refl
