-- ===== src/Root/Arrow/Examples.antt =====
-- The packed identifiers and the query numbers at concrete values.
use zust.Prelude.{◌<◌, ◌≡◌, arith, ◌++◌, All, replicate}
use zust.Root.Arrow.QueryId.{
  gets, steps, adds, resets, query_start, query_stop, InRange, gets-InRange,
  overlapping_gets_escape,
}

gets-InRange_example : All InRange (gets 3 query_start)
gets-InRange_example = gets-InRange 3 query_start (omega arith, omega arith)

overlapping_gets_escape_example :
    (steps (replicate 2 adds ++ replicate 2 resets) 0x0ffffffffffffffe ≡ 0x1000000000000000)
    × (query_stop < steps (replicate 2 adds ++ replicate 2 resets) 0x0ffffffffffffffe)
overlapping_gets_escape_example =
    overlapping_gets_escape 2 0x0ffffffffffffffe (omega arith) (omega arith)
