-- ===== src/Pipeline/Parse.antt =====
-- crates/rlibpq/src/pipeline.rs: `admit`, which says whether the next message may be parsed now, and
-- `apply`, which takes one.
use pgrust_drop.Prelude.{
  is_some, ℕ, ◌+◌, ◌-◌, ◌/◌, ◌%◌, Bool, true, false, not, ◌&&◌, ◌||◌, List, [], ◌∷◌, ◌++◌, Option,
  none, some, ltb, length, leb, ◌==◌, if◌then◌else◌, Bytes, codes, bytes_eq,
}
use pgrust_drop.Prelude.Int.{ℤ}
use pgrust_drop.Encoding.{Encoding}
use pgrust_drop.Encoding.Names.{from_name}
use pgrust_drop.ResultError
use pgrust_drop.ResultError.{ResultError}
use pgrust_drop.ResultError.Diag
use pgrust_drop.QueryResult.{
  ExecStatus, QueryResult, FieldDescription, Row, CopyFormat, with_error, copy, set_fields,
  push_row, set_params, set_command_status, nfields, ntuples,
}
use pgrust_drop.QueryResult
use pgrust_drop.Message.{ProtocolError, Result, ok, err, TransactionStatus, Backend, message_id}
use pgrust_drop.Pipeline.{
  PipelineStatus, AsyncStatus, RowMode, CmdQueueEntry, PipelineState, chunk_size, is_idle, is_off,
  is_fatal, is_describe, is_prepare, is_close, head, get_or_new,
}
use pgrust_drop.Pipeline.Queue.{advance}

-- `enum Admit`.
pub data Admit : Type 0 where
  process wait : Admit

-- `enum Event`.
pub data Event : Type 0 where
  notice : ResultError → Event
  notification : ℤ → Bytes → Bytes → Event
  parameter_status : Bytes → Bytes → Event
  ready_for_query : TransactionStatus → Event

abbrev pub has_fatal : Option QueryResult → Bool
has_fatal none = false
has_fatal (some r) = is_fatal r.status

-- `second_row_description`.
unfoldable pub second_row_description : PipelineState → Bool
second_row_description s =
    is_some s.result && not (has_fatal s.result) && not (is_describe (head s))

abbrev admit_in : AsyncStatus → ℕ → PipelineState → Admit × PipelineState
admit_in AsyncStatus.idle id s = (Admit.process, s)
admit_in AsyncStatus.busy id s =
    if id == b'T' && second_row_description s
    then (Admit.wait, record s { status = AsyncStatus.ready })
    else (Admit.process, s)
admit_in _ id s = (Admit.wait, s)

-- `admit`.
unfoldable pub admit : ℕ → PipelineState → Admit × PipelineState
unfolding second_row_description
admit id s = if id == b'A' || id == b'N' then (Admit.process, s) else admit_in s.status id s

-- `stamp`: the encoding on every error, and the head command's text if a position points into it.
abbrev first_query : List CmdQueueEntry → Option Bytes
first_query [] = none
first_query (entry ∷ entries) = entry.query

unfoldable pub stamp : PipelineState → ResultError → ResultError
stamp s e =
    let e' = ResultError.with_client_encoding e s.client_encoding in
    elim (first_query s.queue) [
      | none ↦ e'
      | some query ↦
          if is_some (ResultError.field e' Diag.statement_position)
          then ResultError.with_err_query e' query
          else e'
    ]

abbrev or_sql_ascii : Option Encoding → Encoding
or_sql_ascii none = Encoding.sql_ascii
or_sql_ascii (some e) = e

-- `save_parameter_status`.
unfoldable pub save_parameter_status : Bytes → Bytes → PipelineState → PipelineState
save_parameter_status name value s =
    if bytes_eq name (codes "client_encoding")
    then record s { client_encoding = or_sql_ascii (from_name value) }
    else s

-- One digit of `{:02x}`.
abbrev hex_digit : ℕ → ℕ
hex_digit n = if ltb n 10 then n + b'0' else n - 10 + b'a'

-- `internal_notice`.
abbrev internal_notice : Bytes → ResultError
internal_notice message = ResultError.new (
    (Diag.message_primary, message)
    ∷ (Diag.severity, codes "NOTICE")
    ∷ (Diag.severity_nonlocalized, codes "NOTICE")
    ∷ [])

idle_message : ℕ → Bytes
idle_message id =
    codes "message type 0x"
    ++ (hex_digit (id / 16) ∷ hex_digit (id % 16) ∷ codes " arrived from server while idle")

-- `apply_idle`.
apply_idle : Backend → Event
unfolding idle_message
apply_idle (Backend.error_response e) = Event.notice e
apply_idle (Backend.parameter_status name value) = Event.parameter_status name value
apply_idle m = Event.notice (internal_notice (idle_message (message_id m)))

abbrev Outcome : Type 0
Outcome = Result (Option Event) × PipelineState

abbrev silent : PipelineState → Outcome
silent s = (ok none, s)

-- `command_ok_ready`, and the arms that are like it but for the status.
abbrev become_ready : QueryResult → PipelineState → PipelineState
become_ready r s = record s { result = some r; status = AsyncStatus.ready }

-- `copy_start`.
abbrev copy_start : ExecStatus → AsyncStatus → CopyFormat → PipelineState → PipelineState
copy_start status parked format s = record s { result = some (copy status format); status = parked }

-- The two parts of `data_row`: the switch of results in a partial row mode, and the row.
abbrev pub partial_status : RowMode → ExecStatus
partial_status RowMode.single = ExecStatus.single_tuple
partial_status _ = ExecStatus.tuples_chunk

unfoldable pub park_result : QueryResult → PipelineState → QueryResult × PipelineState
park_result r s =
    if is_some (chunk_size s.row_mode) && not (is_some s.saved_result)
    then (
      set_fields (QueryResult.new (partial_status s.row_mode)) r.fields,
      record s { saved_result = some r },
    )
    else (r, s)

abbrev chunk_full : Option ℕ → QueryResult → Bool
chunk_full none r = false
chunk_full (some size) r = leb size (ntuples r)

unfoldable pub add_row : Row → QueryResult → PipelineState → Outcome
add_row values r s =
    if not (length values == nfields r)
    then (err ProtocolError.unexpected_field_count, record s { result = some r })
    else let r' = push_row r values in
      let s' = record s { result = some r' } in
      silent (
        if chunk_full (chunk_size s.row_mode) r'
        then record s' { status = AsyncStatus.ready_more }
        else s')

abbrev pub takes_rows : ExecStatus → Bool
takes_rows ExecStatus.tuples_ok = true
takes_rows ExecStatus.tuples_chunk = true
takes_rows _ = false

-- `data_row`.
unfoldable pub data_row : Row → Option QueryResult → PipelineState → Outcome
unfolding park_result add_row
data_row values none s = (err ProtocolError.data_without_row_description, s)
data_row values (some r) s =
    if takes_rows r.status
    then (let (r', s') = park_result r s in add_row values r' s')
    else if is_fatal r.status
    then silent s
    else (err ProtocolError.data_without_row_description, s)

-- The RowDescription arm.
unfoldable pub row_description : List FieldDescription → PipelineState → PipelineState
row_description fields s =
    if has_fatal s.result
    then s
    else if is_describe (head s)
    then become_ready (set_fields (get_or_new s.result ExecStatus.command_ok) fields) s
    else record s { result = some (set_fields (QueryResult.new ExecStatus.tuples_ok) fields) }

-- The ErrorResponse arm.
unfoldable pub error_response : ResultError → PipelineState → PipelineState
error_response e s = record s {
  pipeline = if is_off s.pipeline then s.pipeline else PipelineStatus.aborted;
  result = some (with_error ExecStatus.fatal_error e);
  saved_result = none;
  status = AsyncStatus.ready;
}

-- The ReadyForQuery arm.
unfoldable pub end_of_commands : PipelineState → PipelineState
end_of_commands s =
    if is_off s.pipeline
    then record (advance true false s) { status = AsyncStatus.idle }
    else record s {
      result = some (QueryResult.new ExecStatus.pipeline_sync);
      pipeline = PipelineStatus.on;
      status = AsyncStatus.ready;
    }

abbrev command_ok_ready : PipelineState → PipelineState
command_ok_ready s = become_ready (get_or_new s.result ExecStatus.command_ok) s

-- `apply_busy`. The last two clauses are for messages that `apply` has dealt with before.
unfoldable pub apply_busy : Backend → PipelineState → Outcome
apply_busy (Backend.command_complete tag) s =
    silent (become_ready (set_command_status (get_or_new s.result ExecStatus.command_ok) tag) s)
apply_busy (Backend.error_response e) s = silent (error_response e s)
apply_busy (Backend.ready_for_query xact) s =
    (ok (some (Event.ready_for_query xact)), end_of_commands s)
apply_busy Backend.empty_query_response s =
    silent (become_ready (get_or_new s.result ExecStatus.empty_query) s)
apply_busy Backend.parse_complete s = silent (if is_prepare (head s) then command_ok_ready s else s)
apply_busy Backend.close_complete s = silent (if is_close (head s) then command_ok_ready s else s)
apply_busy Backend.no_data s = silent (if is_describe (head s) then command_ok_ready s else s)
apply_busy Backend.bind_complete s = silent s
apply_busy (Backend.copy_data _) s = silent s
apply_busy Backend.copy_done s = silent s
apply_busy (Backend.parameter_status name value) s =
    (ok (some (Event.parameter_status name value)), s)
apply_busy (Backend.row_description fields) s = silent (row_description fields s)
apply_busy (Backend.parameter_description types) s =
    silent (record s { result = some (set_params (QueryResult.new ExecStatus.command_ok) types) })
apply_busy (Backend.data_row values) s = data_row values s.result s
apply_busy (Backend.copy_in_response f) s =
    silent (copy_start ExecStatus.copy_in AsyncStatus.copy_in f s)
apply_busy (Backend.copy_out_response f) s =
    silent (copy_start ExecStatus.copy_out AsyncStatus.copy_out f s)
apply_busy (Backend.copy_both_response f) s =
    silent (copy_start ExecStatus.copy_both AsyncStatus.copy_both f s)
apply_busy m s = (err (ProtocolError.unexpected_response (message_id m)), s)

-- `apply` behind the stamping: NOTIFY and NOTICE in any state, the rest by the status.
unfoldable pub apply_stamped : Backend → PipelineState → Outcome
unfolding apply_idle
apply_stamped (Backend.notification_response pid channel payload) s =
    (ok (some (Event.notification pid channel payload)), s)
apply_stamped (Backend.notice_response e) s = (ok (some (Event.notice e)), s)
apply_stamped m s = if is_idle s.status then (ok (some (apply_idle m)), s) else apply_busy m s

-- `apply`.
unfoldable pub apply : Backend → PipelineState → Outcome
unfolding apply_stamped apply_idle apply_busy stamp save_parameter_status row_description
    error_response end_of_commands data_row message_id advance
apply (Backend.error_response e) s = apply_stamped (Backend.error_response (stamp s e)) s
apply (Backend.notice_response e) s = apply_stamped (Backend.notice_response (stamp s e)) s
apply (Backend.parameter_status name value) s =
    apply_stamped (Backend.parameter_status name value) (save_parameter_status name value s)
apply m s = apply_stamped m s
