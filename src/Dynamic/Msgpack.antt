-- ===== src/Dynamic/Msgpack.antt =====
-- dynamic/src/msgpack.rs: values as MessagePack.
pub mod Encode
pub mod Read
pub mod Decode
pub mod Words
pub mod Total
pub mod Numbers
pub mod Blobs
pub mod Collections
pub mod Portable
pub mod Maps
pub mod RoundTrip
pub mod Limits
mod Examples
