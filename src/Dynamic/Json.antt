-- ===== src/Dynamic/Json.antt =====
-- dynamic/src/json.rs: values read from JSON and written as JSON.
pub mod Buffer
pub mod Strings
pub mod Numbers
pub mod Write
pub mod Read
pub mod Escapes
pub mod Texts
pub mod Refused
pub mod Decimal
pub mod Tokens
pub mod Lists
pub mod Maps
pub mod Portable
pub mod Chunks
pub mod Values
pub mod RoundTrip
pub mod Answers
pub mod Loops
pub mod Total
pub mod Lenient
mod Examples
