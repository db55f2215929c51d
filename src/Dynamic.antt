-- ===== src/Dynamic.antt =====
-- dynamic/src: the values of the language.
pub mod Fault
pub mod Value
pub mod Texts
pub mod Msgpack
pub mod Types
pub mod Ops
pub mod FixVec
pub mod Json
