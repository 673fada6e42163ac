-- ===== src/Psql.antt =====
-- crates/rpsql: the parts of psql that decide what is sent. Scan is the lexer that finds where a
-- statement ends, Quote the quoting of the variables put into it.
pub mod Quote
pub mod Scan
pub mod Variables
