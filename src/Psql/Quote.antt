-- ===== src/Psql/Quote.antt =====
-- crates/rpsql/src/variables.rs: the quoting of a variable's value.
use pgrust_drop.Prelude.{ℕ, ◌==◌, if◌then◌else◌, [], ◌∷◌, ◌++◌, Bytes}

-- The loop that `escape_literal` and `escape_identifier` share, over the characters: a quote is one
-- byte, and no byte of another character is a quote.
unfoldable pub doubled : ℕ → Bytes → Bytes
doubled q [] = []
doubled q (c ∷ cs) = let more = doubled q cs in if c == q then q ∷ c ∷ more else c ∷ more

unfoldable pub escape_literal : Bytes → Bytes
escape_literal value = b'\'' ∷ doubled b'\'' value ++ b'\'' ∷ []

unfoldable pub escape_identifier : Bytes → Bytes
escape_identifier value = b'"' ∷ doubled b'"' value ++ b'"' ∷ []
