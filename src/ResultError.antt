-- ===== src/ResultError.antt =====
-- crates/rlibpq/src/result.rs: `struct ResultError`, the fields of an error or a notice. Rendering
-- them as a message (`ResultError::message`) is not here.
pub mod Diag
use pgrust_drop.Prelude.{ℕ, List, [], ◌∷◌, Option, none, some, ◌==◌, if◌then◌else◌, Bytes}
use pgrust_drop.Encoding.{Encoding}

-- `struct ResultError`.
pub record ResultError : Type 0 where
  pub fields : List (ℕ × Bytes)
  pub err_query : Option Bytes
  pub client_encoding : Encoding

-- `ResultError::new`.
abbrev pub new : List (ℕ × Bytes) → ResultError
new fields = record { fields = fields; err_query = none; client_encoding = Encoding.sql_ascii }

abbrev pub with_err_query : ResultError → Bytes → ResultError
with_err_query e query = record e { err_query = some query }

abbrev pub with_client_encoding : ResultError → Encoding → ResultError
with_client_encoding e encoding = record e { client_encoding = encoding }

-- The first field with the code.
abbrev pub find_field : ℕ → List (ℕ × Bytes) → Option Bytes
find_field code [] = none
find_field code ((c, v) ∷ fields) = if c == code then some v else find_field code fields

-- `ResultError::field`.
abbrev pub field : ResultError → ℕ → Option Bytes
field e code = find_field code e.fields
