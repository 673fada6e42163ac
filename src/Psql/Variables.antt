-- ===== src/Psql/Variables.antt =====
-- crates/rpsql/src/variables.rs: the variables of psql and their hooks.
pub mod Parse
pub mod Number
pub mod Space
pub mod Order
pub mod Edits
pub mod Laws
pub mod View
pub mod New
pub mod Accepted
pub mod Reachable
