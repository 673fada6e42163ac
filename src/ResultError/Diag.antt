-- ===== src/ResultError/Diag.antt =====
-- crates/rlibpq/src/result.rs: the field codes of `mod diag` that the modelled code reads or writes.
use pgrust_drop.Prelude.{ℕ}

abbrev pub severity : ℕ
severity = b'S'

abbrev pub severity_nonlocalized : ℕ
severity_nonlocalized = b'V'

abbrev pub message_primary : ℕ
message_primary = b'M'

abbrev pub statement_position : ℕ
statement_position = b'P'
