-- ===== src/Compiler.antt =====
-- compiler/src/symbol.rs: what the compiler computes with types, and its table of symbols.
pub mod Consts
pub mod Symbols
