-- ===== src/Lexer/Progress.antt =====
-- That reading moves forward: what each function of the lexer leaves stands behind where it began,
-- and no loop runs out of fuel.
pub mod Follows
pub mod Literals
pub mod Scanning
pub mod Tokens
