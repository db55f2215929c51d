-- ===== src/Parser.antt =====
-- parser/src: the reading of operators. The state of the parser is the rest of its buffer, from the
-- current position on.
pub mod Reading
pub mod Operators
pub mod Space
pub mod Strings
pub mod Numbers
pub mod Idents
pub mod Expr
pub mod Combining
pub mod Climbing
mod ClimbingExamples
mod LiteralExamples
mod Examples
