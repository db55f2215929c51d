-- ===== src/Root/Arrow.antt =====
-- root/src/arrow: the vector index. `Points` has the packed identifiers, `LevelVec` the neighbours of
-- a point, `QueryId` the generator of query numbers.
pub mod Points
pub mod QueryId
pub mod LevelVec
mod Examples
