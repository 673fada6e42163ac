-- ===== src/Psql/Scan.antt =====
-- crates/rpsql/src/scan.rs: the lexer that finds where a statement ends.
pub mod Chars
pub mod Match
pub mod Work
pub mod Quoted
pub mod Track
pub mod Colon
pub mod Initial
pub mod Run
pub mod Fits
pub mod Tokens
pub mod Copies
pub mod Moves
pub mod Advance
pub mod Measure
pub mod Halts
pub mod Nesting
pub mod Semicolon
pub mod Statement
pub mod Doubled
pub mod Whole
pub mod Literal
