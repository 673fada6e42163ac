-- ===== src/QueryResult.antt =====
-- crates/rlibpq/src/result.rs: a `PGresult` as data. The rendering of an error with its cursor
-- (`ResultError::message`) is not here.
use pgrust_drop.Prelude.{
  ℕ, Bool, true, false, not, ◌&&◌, List, [], ◌∷◌, ◌++◌, Option, none, some, map, ◌==◌, length,
  Bytes, is_nil,
}
use pgrust_drop.Prelude.Int.{ℤ, pos, negsuc}
use pgrust_drop.ResultError.{ResultError}

-- `enum ExecStatus`.
pub data ExecStatus : Type 0 where
  empty_query command_ok tuples_ok copy_out copy_in bad_response nonfatal_error : ExecStatus
  fatal_error copy_both single_tuple pipeline_sync pipeline_aborted tuples_chunk : ExecStatus

-- `struct FieldDescription`.
pub record FieldDescription : Type 0 where
  pub name : Bytes
  pub tableid : ℕ
  pub columnid : ℤ
  pub typid : ℕ
  pub typlen : ℤ
  pub atttypmod : ℤ
  pub format : ℤ

-- One row of a result: a value is absent when it is NULL.
abbrev pub Row : Type 0
Row = List (Option Bytes)

-- `struct QueryResult`.
pub record QueryResult : Type 0 where
  pub status : ExecStatus
  pub fields : List FieldDescription
  pub rows : List Row
  pub command_status : Bytes
  pub error : Option ResultError
  pub params : List ℕ
  pub binary : Bool

-- `struct CopyFormat` of crates/rlibpq/src/message.rs, which `QueryResult::copy` reads.
pub record CopyFormat : Type 0 where
  pub overall : ℕ
  pub column_formats : List ℤ

-- `QueryResult::new`.
abbrev pub new : ExecStatus → QueryResult
new status = record {
  status = status;
  fields = [];
  rows = [];
  command_status = [];
  error = none;
  params = [];
  binary = false;
}

-- `QueryResult::with_error`.
abbrev pub with_error : ExecStatus → ResultError → QueryResult
with_error status error = record (new status) { error = some error }

abbrev copy_field : ℤ → FieldDescription
copy_field format = record {
  name = [];
  tableid = 0;
  columnid = pos 0;
  typid = 0;
  typlen = pos 0;
  atttypmod = pos 0;
  format = format;
}

-- `QueryResult::copy`.
unfoldable pub copy : ExecStatus → CopyFormat → QueryResult
copy status format = record (new status) {
  fields = map copy_field format.column_formats;
  binary = not (format.overall == 0);
}

abbrev is_one : ℤ → Bool
is_one (pos n) = n == 1
is_one (negsuc n) = false

abbrev all_binary : List FieldDescription → Bool
all_binary [] = true
all_binary (f ∷ fields) = is_one f.format && all_binary fields

-- `QueryResult::set_fields`.
unfoldable pub set_fields : QueryResult → List FieldDescription → QueryResult
set_fields r fields = record r {
  fields = fields;
  binary = not (is_nil fields) && all_binary fields;
}

abbrev pub push_row : QueryResult → Row → QueryResult
push_row r row = record r { rows = r.rows ++ row ∷ [] }

abbrev pub set_params : QueryResult → List ℕ → QueryResult
set_params r params = record r { params = params }

abbrev pub set_command_status : QueryResult → Bytes → QueryResult
set_command_status r tag = record r { command_status = tag }

abbrev pub nfields : QueryResult → ℕ
nfields r = length r.fields

abbrev pub ntuples : QueryResult → ℕ
ntuples r = length r.rows
