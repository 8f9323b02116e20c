-- ===== src/Tests.antt =====
-- The theorems at concrete inputs.
mod Lexing
mod Typing
mod Registering
mod Resolving
mod Parsing
mod Names
mod Visiting
mod Declaring
