-- ===== src/Pipeline/Queue.antt =====
-- crates/rlibpq/src/pipeline.rs: the command queue. `append_command` puts a command behind the
-- others, `advance` drops the one that is over, `process_queue` starts on the next.
use pgrust_drop.Prelude.{
  Bool, not, ◌&&◌, List, [], ◌∷◌, ◌++◌, Option, none, some, if◌then◌else◌, Bytes,
}
use pgrust_drop.QueryResult.{ExecStatus}
use pgrust_drop.QueryResult
use pgrust_drop.Pipeline.{
  QueryClass, PipelineStatus, AsyncStatus, RowMode, CmdQueueEntry, PipelineState, is_idle,
  is_aborted, is_sync, is_simple, is_idle_or_pipeline_idle, clear_async_result,
}

-- `process_queue` behind its guards, on the queue.
start_next : List CmdQueueEntry → PipelineState → PipelineState
start_next [] s = record s { row_mode = RowMode.all; status = AsyncStatus.idle }
start_next (entry ∷ entries) s =
    if is_aborted s.pipeline && not (is_sync entry.class)
    then record (clear_async_result s) {
      row_mode = RowMode.all;
      result = some (QueryResult.new ExecStatus.pipeline_aborted);
      status = AsyncStatus.ready;
    }
    else record (clear_async_result s) { row_mode = RowMode.all; status = AsyncStatus.busy }

process_from : AsyncStatus → List CmdQueueEntry → PipelineState → PipelineState
process_from AsyncStatus.idle [] s = s
process_from AsyncStatus.idle (entry ∷ entries) s = start_next (entry ∷ entries) s
process_from AsyncStatus.pipeline_idle queue s = start_next queue s
process_from _ queue s = s

-- `process_queue`.
unfoldable pub process_queue : PipelineState → PipelineState
unfolding process_from start_next
process_queue s = process_from s.status s.queue s

-- `append_command`: by the pipeline status, on the state with the command queued.
append_in : PipelineStatus → PipelineState → PipelineState
append_in PipelineStatus.aborted s =
    if is_idle_or_pipeline_idle s.status then process_queue s else s
append_in _ s = if is_idle s.status then record s { status = AsyncStatus.busy } else s

unfoldable pub append_command : QueryClass → Option Bytes → PipelineState → PipelineState
unfolding append_in process_queue
append_command class query s =
    append_in s.pipeline
      (record s { queue = s.queue ++ record { class = class; query = query } ∷ [] })

-- `append`.
abbrev pub append : QueryClass → PipelineState → PipelineState
append class = append_command class none

-- What `advance` leaves of the queue.
unfoldable pub advance_queue : Bool → Bool → List CmdQueueEntry → List CmdQueueEntry
advance_queue is_ready_for_query got_sync [] = []
advance_queue is_ready_for_query got_sync (entry ∷ entries) =
    if is_simple entry.class && not is_ready_for_query
    then entry ∷ entries
    else if is_sync entry.class && not got_sync
    then entry ∷ entries
    else entries

-- `advance`.
unfoldable pub advance : Bool → Bool → PipelineState → PipelineState
unfolding advance_queue
advance is_ready_for_query got_sync s = record s {
  queue = advance_queue is_ready_for_query got_sync s.queue;
}
