-- ===== src/Parser.antt =====
-- The parser: src/Parser.h, src/Parser.cc.
pub mod Stream
pub mod Specs
pub mod Expressions
pub mod Operators
pub mod Statements
pub mod Blocks
pub mod Units
pub mod Progress
pub mod Speculation
pub mod EmptyVar
pub mod Written
pub mod Steps
pub mod RoundTrip
pub mod Sums
