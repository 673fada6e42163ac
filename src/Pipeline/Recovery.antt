-- ===== src/Pipeline/Recovery.antt =====
-- What a pipeline does behind an error, up to the next Sync and behind it.
use pgrust_drop.Prelude.{
  true, false, List, [], ◌∷◌, ◌++◌, none, ◌≡◌, refl, arith, if◌then◌else◌, is_nil,
}
use pgrust_drop.ResultError.{ResultError}
use pgrust_drop.QueryResult.{ExecStatus, QueryResult, with_error}
use pgrust_drop.QueryResult
use pgrust_drop.Message.{Backend, TransactionStatus, message_id}
use pgrust_drop.Pipeline.{
  PipelineStatus, AsyncStatus, RowMode, CmdQueueEntry, PipelineState, is_sync, is_simple,
}
use pgrust_drop.Pipeline.Parse.{stamp, admit, apply}
use pgrust_drop.Pipeline.Collect.{Next, next_result}
use pgrust_drop.Pipeline.Session.{Call, step, receive}

-- The calls, with what each `next_result` among them hands over.
pub observe : List Call → PipelineState → List Next × PipelineState
observe [] s = ([], s)
observe (Call.collects ∷ cs) s =
    let (n, s') = next_result s in let (ns, end) = observe cs s' in (n ∷ ns, end)
observe (c ∷ cs) s = observe cs (step c s)

-- The queued commands are no Sync, and no simple query.
abbrev pub AreCommands : List CmdQueueEntry → Type 0
AreCommands [] = Unit {0}
AreCommands (e ∷ es) = (is_sync e.class ≡ false) × (is_simple e.class ≡ false) × AreCommands es

abbrev pub aborted_result : Next
aborted_result = Next.result (QueryResult.new ExecStatus.pipeline_aborted)

-- Two results for each command: the NULL that ends the one before, and the abort.
abbrev pub collect_each : List CmdQueueEntry → List Call → List Call
collect_each [] rest = rest
collect_each (e ∷ es) rest = Call.collects ∷ Call.collects ∷ collect_each es rest

abbrev pub abort_each : List CmdQueueEntry → List Next → List Next
abort_each [] rest = rest
abort_each (e ∷ es) rest = Next.null ∷ aborted_result ∷ abort_each es rest

-- Between two commands of an aborted pipeline.
abbrev waiting : List CmdQueueEntry → PipelineState → PipelineState
waiting queue s = record s {
  status = AsyncStatus.pipeline_idle;
  pipeline = PipelineStatus.aborted;
  queue = queue;
  result = none;
  saved_result = none;
}

abort_one :
    (e : CmdQueueEntry) (queue : List CmdQueueEntry) (cs : List Call) (s : PipelineState)
    → is_sync e.class ≡ false
    → is_simple e.class ≡ false
    → observe (Call.collects ∷ Call.collects ∷ cs) (waiting (e ∷ queue) s) ≡ (
        let (ns, end) = observe cs (waiting queue (record s { row_mode = RowMode.all })) in
        (Next.null ∷ aborted_result ∷ ns, end))
unfolding observe next_result
abort_one e queue cs s h k = ground arith

-- The row mode that is left behind the commands.
abbrev settle : List CmdQueueEntry → PipelineState → PipelineState
settle [] s = s
settle (e ∷ es) s = record s { row_mode = RowMode.all }

abort_all :
    (es queue : List CmdQueueEntry) (cs : List Call) (s : PipelineState)
    → AreCommands es
    → observe (collect_each es cs) (waiting (es ++ queue) s) ≡ (
      abort_each es (observe cs (waiting queue (settle es s))).0,
      (observe cs (waiting queue (settle es s))).1,
    )
abort_all [] queue cs s h = refl
abort_all (e ∷ []) queue cs s h = abort_one e queue cs s h.0 h.1
abort_all (e ∷ f ∷ es) queue cs s h =
    rw
      (
        abort_one e (f ∷ es ++ queue) (collect_each (f ∷ es) cs) s h.0 h.1,
        abort_all (f ∷ es) queue cs (record s { row_mode = RowMode.all }) h.2,
      )
      refl

-- The state behind the Sync of an aborted pipeline.
abbrev pub Recovered : List CmdQueueEntry → PipelineState → Type 0
Recovered queue s =
    (s.pipeline ≡ PipelineStatus.on)
    × (s.queue ≡ queue)
    × (s.result ≡ none)
    × (s.status ≡ (if is_nil queue then AsyncStatus.idle else AsyncStatus.busy))

sync_ends :
    (sync : CmdQueueEntry) (queue : List CmdQueueEntry) (x : TransactionStatus) (s : PipelineState)
    → is_sync sync.class ≡ true
    → (let (ns, end) =
          observe
            (Call.collects ∷ Call.receives (Backend.ready_for_query x) ∷ Call.collects ∷ [])
            (waiting (sync ∷ queue) s) in
        (ns ≡ Next.null ∷ Next.result (QueryResult.new ExecStatus.pipeline_sync) ∷ [])
        × Recovered queue end)
unfolding observe next_result step receive admit apply message_id
sync_ends sync queue x s h = ground arith

error_collected :
    (failed : CmdQueueEntry) (queue : List CmdQueueEntry) (e : ResultError) (cs : List Call)
    (s : PipelineState)
    → s.status ≡ AsyncStatus.busy
    → s.pipeline ≡ PipelineStatus.on
    → s.queue ≡ failed ∷ queue
    → is_sync failed.class ≡ false
    → is_simple failed.class ≡ false
    → observe (Call.receives (Backend.error_response e) ∷ Call.collects ∷ cs) s ≡ (
      Next.result (with_error ExecStatus.fatal_error (stamp s e))
          ∷ (observe cs (waiting queue s)).0,
      (observe cs (waiting queue s)).1,
    )
unfolding observe next_result step receive admit apply message_id
error_collected failed queue e cs s b o q h k = ground arith

-- In pipeline mode, with a command running, `es` queued behind it and then a Sync: when the server
-- reports an error for the running command, the caller collects that error, then for each of `es` the
-- NULL and an aborted result though the server says nothing more, then a NULL; when the server then
-- answers the Sync, the result is the pipeline's Sync. Behind it the pipeline is on again, the
-- commands behind the Sync are still queued, and the next of them runs.
pub observe_error :
    (failed sync : CmdQueueEntry) (es queue : List CmdQueueEntry) (e : ResultError)
    (x : TransactionStatus) (s : PipelineState)
    → s.status ≡ AsyncStatus.busy
    → s.pipeline ≡ PipelineStatus.on
    → s.queue ≡ failed ∷ (es ++ sync ∷ queue)
    → AreCommands (failed ∷ es)
    → is_sync sync.class ≡ true
    → (let (ns, end) =
          observe
            (Call.receives (Backend.error_response e)
              ∷ Call.collects
              ∷ collect_each es
                  (Call.collects ∷ Call.receives (Backend.ready_for_query x) ∷ Call.collects ∷ []))
            s in
        (ns
          ≡ Next.result (with_error ExecStatus.fatal_error (stamp s e))
            ∷ abort_each es
                (Next.null ∷ Next.result (QueryResult.new ExecStatus.pipeline_sync) ∷ []))
        × Recovered queue end)
observe_error failed sync es queue e x s b o q h k =
    rw
      (
        error_collected failed (es ++ sync ∷ queue) e
            (collect_each es
              (Call.collects ∷ Call.receives (Backend.ready_for_query x) ∷ Call.collects ∷ []))
            s b o q h.0 h.1,
        abort_all es (sync ∷ queue)
            (Call.collects ∷ Call.receives (Backend.ready_for_query x) ∷ Call.collects ∷ []) s h.2,
        (sync_ends sync queue x (settle es s) k).0,
      )
      (refl, (sync_ends sync queue x (settle es s) k).1)
