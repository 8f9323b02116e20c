-- ===== src/TypeResolver.antt =====
-- The rules of src/TypeResolver.cc: which type may stand where another is expected, the tables of
-- the operators, and the bounds that are collected for types not known yet.
pub mod Subtyping
pub mod Modifiers
pub mod Operators
pub mod Promoter
pub mod Constraints
pub mod Visits
