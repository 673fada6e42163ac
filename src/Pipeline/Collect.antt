-- ===== src/Pipeline/Collect.antt =====
-- crates/rlibpq/src/pipeline.rs: `next_result`, what `PQgetResult` hands over next.
use pgrust_drop.Prelude.{is_some, Bool, true, false, Option, none, some, if◌then◌else◌}
use pgrust_drop.QueryResult.{ExecStatus, QueryResult}
use pgrust_drop.QueryResult
use pgrust_drop.Pipeline.{AsyncStatus, PipelineState, is_off, is_pipeline_sync}
use pgrust_drop.Pipeline.Queue.{process_queue, advance}

-- `enum Next`.
pub data Next : Type 0 where
  result : QueryResult → Next
  null block : Next

abbrev or_fatal : Option QueryResult → QueryResult
or_fatal none = QueryResult.new ExecStatus.fatal_error
or_fatal (some r) = r

-- `prepare_async_result`.
unfoldable pub prepare_async_result : PipelineState → QueryResult × PipelineState
prepare_async_result s =
    (or_fatal s.result, record s { result = s.saved_result; saved_result = none })

-- The `Ready` arm behind `prepare_async_result`, when no result is left behind the one taken.
finish_command : QueryResult → PipelineState → PipelineState
finish_command r s =
    let sync = is_pipeline_sync r.status in
    let s' = advance false sync s in
    if is_off s'.pipeline
    then record s' { status = AsyncStatus.busy }
    else let s'' = record s' { status = AsyncStatus.pipeline_idle } in
      if sync then process_queue s'' else s''

-- `status == Some(copy status)` for the three COPY results.
abbrev same_copy : AsyncStatus → Option QueryResult → Bool
same_copy AsyncStatus.copy_in (some r) = elim r.status [ ExecStatus.copy_in ↦ true | _ ↦ false ]
same_copy AsyncStatus.copy_out (some r) = elim r.status [ ExecStatus.copy_out ↦ true | _ ↦ false ]
same_copy AsyncStatus.copy_both (some r) = elim r.status [ ExecStatus.copy_both ↦ true | _ ↦ false ]
same_copy _ _ = false

-- `copy_result`, in a COPY state whose result status is given.
copy_result : ExecStatus → PipelineState → QueryResult × PipelineState
copy_result status s =
    if same_copy s.status s.result then prepare_async_result s else (QueryResult.new status, s)

collect_copy : ExecStatus → PipelineState → Next × PipelineState
collect_copy status s = let (r, s') = copy_result status s in (Next.result r, s')

collect_ready : PipelineState → Next × PipelineState
collect_ready s =
    let (r, s') = prepare_async_result s in
    (Next.result r, if is_some s'.result then s' else finish_command r s')

collect_from : AsyncStatus → PipelineState → Next × PipelineState
collect_from AsyncStatus.busy s = (Next.block, s)
collect_from AsyncStatus.idle s = (Next.null, s)
collect_from AsyncStatus.pipeline_idle s = (Next.null, process_queue s)
collect_from AsyncStatus.ready s = collect_ready s
collect_from AsyncStatus.ready_more s =
    let (r, s') = prepare_async_result s in (Next.result r, record s' { status = AsyncStatus.busy })
collect_from AsyncStatus.copy_in s = collect_copy ExecStatus.copy_in s
collect_from AsyncStatus.copy_out s = collect_copy ExecStatus.copy_out s
collect_from AsyncStatus.copy_both s = collect_copy ExecStatus.copy_both s

-- `next_result`.
unfoldable pub next_result : PipelineState → Next × PipelineState
unfolding collect_from collect_ready collect_copy copy_result finish_command prepare_async_result
    advance process_queue
next_result s = collect_from s.status s
