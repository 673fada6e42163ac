-- ===== src/Pipeline.antt =====
-- crates/rlibpq/src/pipeline.rs: the query-execution state of a connection. This file has its data;
-- Queue is the command queue, Send what may be sent, Parse the server's messages, Copy the COPY
-- states, Collect `next_result`, and Session the calls as the connection makes them.
pub mod Queue
pub mod Send
pub mod Parse
pub mod Copy
pub mod Collect
pub mod Session
pub mod Invariant
pub mod Recovery
pub mod Rows
pub mod Handed
pub mod Runner
use pgrust_drop.Prelude.{
  ℕ, Bool, true, false, ◌||◌, List, [], ◌∷◌, Option, none, some, Bytes, is_nil,
}
use pgrust_drop.Encoding.{Encoding}
use pgrust_drop.QueryResult.{ExecStatus, QueryResult}
use pgrust_drop.QueryResult

-- `enum QueryClass`.
pub data QueryClass : Type 0 where
  simple extended prepare describe sync close : QueryClass

-- `enum PipelineStatus`.
pub data PipelineStatus : Type 0 where
  off on aborted : PipelineStatus

-- `enum AsyncStatus`.
pub data AsyncStatus : Type 0 where
  idle busy ready ready_more pipeline_idle copy_in copy_out copy_both : AsyncStatus

-- `AsyncStatus::is_copy`.
abbrev pub is_copy : AsyncStatus → Bool
is_copy AsyncStatus.copy_in = true
is_copy AsyncStatus.copy_out = true
is_copy AsyncStatus.copy_both = true
is_copy _ = false

-- `AsyncStatus::copy_status`.
abbrev pub copy_status : AsyncStatus → Option ExecStatus
copy_status AsyncStatus.copy_in = some ExecStatus.copy_in
copy_status AsyncStatus.copy_out = some ExecStatus.copy_out
copy_status AsyncStatus.copy_both = some ExecStatus.copy_both
copy_status _ = none

-- `enum RowMode`.
pub data RowMode : Type 0 where
  all single : RowMode
  chunked : ℕ → RowMode

-- `RowMode::chunk_size`.
abbrev pub chunk_size : RowMode → Option ℕ
chunk_size RowMode.all = none
chunk_size RowMode.single = some 1
chunk_size (RowMode.chunked size) = some size

-- `enum PipelineError`.
pub data PipelineError : Type 0 where
  not_idle uncollected_results busy not_in_pipeline_mode command_in_progress : PipelineError
  not_allowed_in_pipeline_mode : Bytes → PipelineError
  synchronous_in_pipeline_mode queue_during_copy no_copy_in_progress : PipelineError
  exec_during_copy_both exit_during_copy sync_during_copy wrong_state : PipelineError

-- `Result<T, PipelineError>`.
pub data Attempt {ℓ} (A : Type ℓ) : Type ℓ where
  done : A → Attempt A
  refused : PipelineError → Attempt A

-- `struct CmdQueueEntry`.
pub record CmdQueueEntry : Type 0 where
  pub class : QueryClass
  pub query : Option Bytes

-- `struct PipelineState`.
pub record PipelineState : Type 0 where
  pub status : AsyncStatus
  pub pipeline : PipelineStatus
  pub queue : List CmdQueueEntry
  pub client_encoding : Encoding
  pub result : Option QueryResult
  pub saved_result : Option QueryResult
  pub row_mode : RowMode

-- `PipelineState::new`.
abbrev pub new : PipelineState
new = record {
  status = AsyncStatus.idle;
  pipeline = PipelineStatus.off;
  queue = [];
  client_encoding = Encoding.sql_ascii;
  result = none;
  saved_result = none;
  row_mode = RowMode.all;
}

-- The equality tests of the source on its enumerations.
abbrev pub is_idle : AsyncStatus → Bool
is_idle AsyncStatus.idle = true
is_idle _ = false

abbrev pub is_busy : AsyncStatus → Bool
is_busy AsyncStatus.busy = true
is_busy _ = false

-- `matches!(status, Idle | PipelineIdle)`.
abbrev pub is_idle_or_pipeline_idle : AsyncStatus → Bool
is_idle_or_pipeline_idle AsyncStatus.idle = true
is_idle_or_pipeline_idle AsyncStatus.pipeline_idle = true
is_idle_or_pipeline_idle _ = false

abbrev pub is_off : PipelineStatus → Bool
is_off PipelineStatus.off = true
is_off _ = false

abbrev pub is_on : PipelineStatus → Bool
is_on PipelineStatus.on = true
is_on _ = false

abbrev pub is_aborted : PipelineStatus → Bool
is_aborted PipelineStatus.aborted = true
is_aborted _ = false

abbrev pub is_simple : QueryClass → Bool
is_simple QueryClass.simple = true
is_simple _ = false

abbrev pub is_sync : QueryClass → Bool
is_sync QueryClass.sync = true
is_sync _ = false

abbrev pub is_describe : Option QueryClass → Bool
is_describe (some QueryClass.describe) = true
is_describe _ = false

abbrev pub is_prepare : Option QueryClass → Bool
is_prepare (some QueryClass.prepare) = true
is_prepare _ = false

abbrev pub is_close : Option QueryClass → Bool
is_close (some QueryClass.close) = true
is_close _ = false

abbrev pub is_fatal : ExecStatus → Bool
is_fatal ExecStatus.fatal_error = true
is_fatal _ = false

abbrev pub is_pipeline_sync : ExecStatus → Bool
is_pipeline_sync ExecStatus.pipeline_sync = true
is_pipeline_sync _ = false

abbrev pub class_of_first : List CmdQueueEntry → Option QueryClass
class_of_first [] = none
class_of_first (entry ∷ entries) = some entry.class

-- `PipelineState::head`.
abbrev pub head : PipelineState → Option QueryClass
head s = class_of_first s.queue

-- `clear_async_result`.
abbrev pub clear_async_result : PipelineState → PipelineState
clear_async_result s = record s { result = none; saved_result = none }

-- `self.result.get_or_insert_with(|| QueryResult::new(status))`.
abbrev pub get_or_new : Option QueryResult → ExecStatus → QueryResult
get_or_new none status = QueryResult.new status
get_or_new (some r) status = r
