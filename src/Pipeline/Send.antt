-- ===== src/Pipeline/Send.antt =====
-- crates/rlibpq/src/pipeline.rs: what may be sent when, pipeline mode, and the row modes.
use pgrust_drop.Prelude.{
  is_some, ℕ, Bool, true, false, not, ◌&&◌, ◌||◌, Option, none, some, ltb, leb, if◌then◌else◌,
  codes, is_nil,
}
use pgrust_drop.Pipeline.{
  QueryClass, PipelineStatus, AsyncStatus, RowMode, PipelineError, Attempt, done, refused,
  PipelineState, is_copy, is_idle, is_busy, is_off, is_on, is_simple, is_idle_or_pipeline_idle,
  head, clear_async_result,
}

-- `begin_send`.
unfoldable pub begin_send : QueryClass → PipelineState → Attempt (Unit {0}) × PipelineState
begin_send class s =
    if not (is_idle s.status) && is_off s.pipeline
    then (refused PipelineError.command_in_progress, s)
    else if not (is_off s.pipeline) && is_copy s.status
    then (refused PipelineError.queue_during_copy, s)
    else let s' =
        if is_off s.pipeline then record (clear_async_result s) { row_mode = RowMode.all } else s in
      if is_simple class && not (is_off s.pipeline)
      then (refused (PipelineError.not_allowed_in_pipeline_mode (codes "PQsendQuery")), s')
      else (done tt, s')

-- `begin_exec`.
unfoldable pub begin_exec : PipelineState → Attempt (Unit {0})
begin_exec s =
    if is_off s.pipeline then done tt else refused PipelineError.synchronous_in_pipeline_mode

-- `begin_fn`.
unfoldable pub begin_fn : PipelineState → Attempt (Unit {0})
begin_fn s =
    if not (is_off s.pipeline)
    then refused (PipelineError.not_allowed_in_pipeline_mode (codes "PQfn"))
    else if not (is_idle s.status) || is_some s.result
    then refused PipelineError.wrong_state
    else done tt

-- `sends_own_sync`.
unfoldable pub sends_own_sync : PipelineState → Bool
sends_own_sync s = is_off s.pipeline

abbrev pub outbuffer_threshold : ℕ
outbuffer_threshold = 65536

-- `flushes_now`.
unfoldable pub flushes_now : PipelineState → ℕ → Bool
flushes_now s pending = not (is_on s.pipeline) || leb outbuffer_threshold pending

-- `enter_pipeline_mode`.
unfoldable pub enter_pipeline_mode : PipelineState → Attempt (Unit {0}) × PipelineState
enter_pipeline_mode s =
    if not (is_off s.pipeline)
    then (done tt, s)
    else if not (is_idle s.status)
    then (refused PipelineError.not_idle, s)
    else (done tt, record s { pipeline = PipelineStatus.on })

-- The `match` of `exit_pipeline_mode`: the error that the status calls for.
abbrev exit_refusal : AsyncStatus → Bool → Option PipelineError
exit_refusal AsyncStatus.ready no_queue = some PipelineError.uncollected_results
exit_refusal AsyncStatus.ready_more no_queue = some PipelineError.uncollected_results
exit_refusal AsyncStatus.busy no_queue = some PipelineError.busy
exit_refusal AsyncStatus.idle no_queue = none
exit_refusal AsyncStatus.pipeline_idle no_queue = none
exit_refusal _ no_queue = if no_queue then none else some PipelineError.exit_during_copy

-- `exit_pipeline_mode`.
unfoldable pub exit_pipeline_mode : PipelineState → Attempt Bool × PipelineState
exit_pipeline_mode s =
    if is_off s.pipeline && is_idle_or_pipeline_idle s.status && is_nil s.queue
    then (done false, s)
    else elim (exit_refusal s.status (is_nil s.queue)) [
      | some e ↦ (refused e, s)
      | none ↦
          if not (is_nil s.queue)
          then (refused PipelineError.uncollected_results, s)
          else (done true, record s { pipeline = PipelineStatus.off; status = AsyncStatus.idle })
    ]

-- `begin_pipeline_sync`.
unfoldable pub begin_pipeline_sync : PipelineState → Attempt (Unit {0})
begin_pipeline_sync s =
    if is_off s.pipeline
    then refused PipelineError.not_in_pipeline_mode
    else if is_copy s.status
    then refused PipelineError.sync_during_copy
    else done tt

-- `begin_flush_request`.
unfoldable pub begin_flush_request : PipelineState → Attempt (Unit {0})
begin_flush_request s =
    if not (is_idle s.status) && is_off s.pipeline
    then refused PipelineError.command_in_progress
    else done tt

abbrev is_simple_or_extended : Option QueryClass → Bool
is_simple_or_extended (some QueryClass.simple) = true
is_simple_or_extended (some QueryClass.extended) = true
is_simple_or_extended _ = false

-- `can_change_result_mode`.
unfoldable pub can_change_result_mode : PipelineState → Bool
can_change_result_mode s =
    is_busy s.status && is_simple_or_extended (head s) && not (is_some s.result)

-- `set_single_row_mode`.
unfoldable pub set_single_row_mode : PipelineState → Bool × PipelineState
unfolding can_change_result_mode
set_single_row_mode s =
    if can_change_result_mode s then (true, record s { row_mode = RowMode.single }) else (false, s)

-- `set_chunked_rows_mode`.
unfoldable pub set_chunked_rows_mode : ℕ → PipelineState → Bool × PipelineState
unfolding can_change_result_mode
set_chunked_rows_mode size s =
    if ltb 0 size && can_change_result_mode s
    then (true, record s { row_mode = RowMode.chunked size })
    else (false, s)
