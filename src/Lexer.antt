-- ===== src/Lexer.antt =====
-- The lexer: src/Lexer.h, src/Lexer.cc.
pub mod Cursor
pub mod Literal
pub mod Keyword
pub mod Scan
pub mod Progress
pub mod Numbers
pub mod Floats
pub mod Directives
pub mod Strings
pub mod Words
pub mod Lines
