-- ===== src/Root.antt =====
-- root/src: the store of named values and its vector index.
pub mod Paths
pub mod Bits
pub mod Redis
pub mod Directory
pub mod Arrow
