-- ===== src/Pipeline/Invariant.antt =====
-- The states that a connection can be in, as an invariant.
use pgrust_drop.Prelude.{
  is_some, ℕ, Bool-cases, Option-cases, inl, inr, Bool, true, false, not, ◌&&◌, ◌||◌, List, [], ◌∷◌,
  ◌++◌, Option, none, some, ◌≡◌, refl, arith, Bytes, is_nil,
}
use pgrust_drop.Message.{Backend, message_id}
use pgrust_drop.Pipeline.{
  QueryClass, AsyncStatus, CmdQueueEntry, PipelineState, new, is_idle, is_off, is_sync, is_simple,
  is_fatal, is_describe, head,
}
use pgrust_drop.Pipeline.Queue.{append_command, append, process_queue, advance, advance_queue}
use pgrust_drop.Pipeline.Send.{
  begin_send, enter_pipeline_mode, exit_pipeline_mode, begin_pipeline_sync, set_single_row_mode,
  set_chunked_rows_mode,
}
use pgrust_drop.Pipeline.Parse.{
  Admit, admit, apply, apply_busy, apply_stamped, stamp, data_row, add_row, park_result,
  row_description, takes_rows, has_fatal, error_response, end_of_commands, save_parameter_status,
}
use pgrust_drop.QueryResult.{QueryResult, Row, FieldDescription}
use pgrust_drop.Pipeline.Copy.{put_copy_end, copy_message, abandon_copy_out}
use pgrust_drop.Pipeline.Collect.{Next, next_result}
use pgrust_drop.Pipeline.Session.{
  Command, command_class, send, pipeline_sync, receive, receive_copy, Call, step, run,
}

abbrev implies : Bool → Bool → Bool
implies a b = not a || b

abbrev pub is_ready : AsyncStatus → Bool
is_ready AsyncStatus.ready = true
is_ready AsyncStatus.ready_more = true
is_ready _ = false

abbrev pub is_pipeline_idle : AsyncStatus → Bool
is_pipeline_idle AsyncStatus.pipeline_idle = true
is_pipeline_idle _ = false

abbrev pub at_most_one : List CmdQueueEntry → Bool
at_most_one [] = true
at_most_one (entry ∷ entries) = is_nil entries

abbrev pub no_sync : List CmdQueueEntry → Bool
no_sync [] = true
no_sync (entry ∷ entries) = not (is_sync entry.class) && no_sync entries

abbrev pub no_simple : List CmdQueueEntry → Bool
no_simple [] = true
no_simple (entry ∷ entries) = not (is_simple entry.class) && no_simple entries

pub record Inv (s : PipelineState) : Type 0 where
  -- a state that says a result is ready has one
  pub ready : implies (is_ready s.status) (is_some s.result) ≡ true
  -- nothing is queued on an idle connection
  pub idle : implies (is_idle s.status) (is_nil s.queue) ≡ true
  -- a connection is between two commands of a pipeline only in pipeline mode
  pub between : implies (is_pipeline_idle s.status) (not (is_off s.pipeline)) ≡ true
  -- outside pipeline mode there is one command at most, and it is no Sync
  pub alone : implies (is_off s.pipeline) (at_most_one s.queue && no_sync s.queue) ≡ true
  -- in pipeline mode no simple query is queued
  pub pipelined : implies (not (is_off s.pipeline)) (no_simple s.queue) ≡ true

pub no_simple-append :
    (q : List CmdQueueEntry) (e : CmdQueueEntry)
    → no_simple (q ++ e ∷ []) ≡ (no_simple q && not (is_simple e.class))
no_simple-append [] e = ground arith
no_simple-append (x ∷ q) e = ground (arith, no_simple-append q e)

no_simple-advance_queue :
    (a b : Bool) (q : List CmdQueueEntry)
    → no_simple q ≡ true
    → no_simple (advance_queue a b q) ≡ true
unfolding advance_queue
no_simple-advance_queue a b [] h = refl
no_simple-advance_queue a b (x ∷ q) h = ground arith

process_queue-Inv : (s : PipelineState) → Inv s → Inv (process_queue s)
unfolding process_queue
process_queue-Inv s v = ground arith

append_command-Inv_sync :
    (s : PipelineState) → Inv s → is_off s.pipeline ≡ false → Inv (append QueryClass.sync s)
unfolding append_command
append_command-Inv_sync s v h =
    ground (arith, no_simple-append s.queue (record { class = QueryClass.sync; query = none }))

send-Inv : (c : Command) (query : Option Bytes) (s : PipelineState) → Inv s → Inv (send c query s)
unfolding send begin_send append_command
send-Inv c query s v =
    ground (arith, no_simple-append s.queue (record { class = command_class c; query = query }))

add_row-Inv : (row : Row) (r : QueryResult) (s : PipelineState) → Inv s → Inv (add_row row r s).1
unfolding add_row
add_row-Inv row r s v = ground arith

park_result-Inv : (r : QueryResult) (s : PipelineState) → Inv s → Inv (park_result r s).1
unfolding park_result
park_result-Inv r s v = ground arith

data_row-Inv :
    (row : Row) (r : Option QueryResult) (s : PipelineState) → Inv s → Inv (data_row row r s).1
unfolding data_row
data_row-Inv row none s v = v
data_row-Inv row (some r) s v = elim (Bool-cases (takes_rows r.status)) [
  | inl rows ↦
      rw rows (add_row-Inv row (park_result r s).0 (park_result r s).1 (park_result-Inv r s v))
  | inr other ↦
      rw other
        (elim (Bool-cases (is_fatal r.status)) [ inl fatal ↦ rw fatal v | inr fine ↦ rw fine v ])
]

row_description-Inv :
    (fields : List FieldDescription) (s : PipelineState) → Inv s → Inv (row_description fields s)
unfolding row_description
row_description-Inv fields s v = elim (Bool-cases (has_fatal s.result)) [
  | inl fatal ↦ rw fatal v
  | inr fine ↦ rw fine (elim (Bool-cases (is_describe (head s))) [
    | inl d ↦ rw d (ground arith)
    | inr d ↦ rw d (ground arith)
  ])
]

apply_busy-Inv : (m : Backend) (s : PipelineState) → Inv s → Inv (apply_busy m s).1
unfolding apply_busy error_response end_of_commands advance
apply_busy-Inv (Backend.data_row row) s v = data_row-Inv row s.result s v
apply_busy-Inv (Backend.row_description fields) s v = row_description-Inv fields s v
apply_busy-Inv _ s v = ground arith

apply_stamped-Inv : (m : Backend) (s : PipelineState) → Inv s → Inv (apply_stamped m s).1
unfolding apply_stamped
apply_stamped-Inv (Backend.notification_response _ _ _) s v = v
apply_stamped-Inv (Backend.notice_response _) s v = v
apply_stamped-Inv m s v = elim (Bool-cases (is_idle s.status)) [
  | inl quiet ↦ rw quiet v
  | inr running ↦ rw running (apply_busy-Inv m s v)
]

save_parameter_status-Inv :
    (name value : Bytes) (s : PipelineState) → Inv s → Inv (save_parameter_status name value s)
unfolding save_parameter_status
save_parameter_status-Inv name value s v = ground arith

apply-Inv : (m : Backend) (s : PipelineState) → Inv s → Inv (apply m s).1
unfolding apply
apply-Inv (Backend.error_response e) s v =
    apply_stamped-Inv (Backend.error_response (stamp s e)) s v
apply-Inv (Backend.notice_response e) s v = v
apply-Inv (Backend.parameter_status name value) s v =
    apply_stamped-Inv (Backend.parameter_status name value) _
      (save_parameter_status-Inv name value s v)
apply-Inv m s v = apply_stamped-Inv m s v

admit-Inv : (id : ℕ) (s : PipelineState) → Inv s → Inv (admit id s).1
unfolding admit
admit-Inv id s v = ground arith

next_result-Inv : (s : PipelineState) → Inv s → Inv (next_result s).1
unfolding next_result
next_result-Inv s v = ground arith

pipeline_sync-Inv : (s : PipelineState) → Inv s → Inv (pipeline_sync s)
unfolding pipeline_sync begin_pipeline_sync
pipeline_sync-Inv s v = ground (arith, append_command-Inv_sync s v)

receive-Inv : (m : Backend) (s : PipelineState) → Inv s → Inv (receive m s)
unfolding receive
receive-Inv m s v =
    elim (admit (message_id m) s).0
      as (λ a. Inv (elim a [
        | Admit.process ↦ (apply m (admit (message_id m) s).1).1
        | Admit.wait ↦ (admit (message_id m) s).1
      ])) [
        | Admit.process ↦ apply-Inv m _ (admit-Inv (message_id m) s v)
        | Admit.wait ↦ admit-Inv (message_id m) s v
      ]

copy_message-Inv : (id : ℕ) (s : PipelineState) → Inv s → Inv (copy_message id s).1
unfolding copy_message
copy_message-Inv id s v = ground arith

receive_copy-Inv : (m : Backend) (s : PipelineState) → Inv s → Inv (receive_copy m s)
unfolding receive_copy
receive_copy-Inv m s v =
    ground (arith, apply-Inv m (copy_message (message_id m) s).1, copy_message-Inv (message_id m) s)

-- Every call keeps the invariant `Inv`: a status that says a result is ready has one; nothing is
-- queued on an idle connection; `pipeline_idle` occurs in pipeline mode only; outside that mode one
-- command at most is queued and no Sync, and inside it no simple query.
pub step-Inv : (c : Call) (s : PipelineState) → Inv s → Inv (step c s)
unfolding step
step-Inv (Call.sends command query) s v = send-Inv command query s v
step-Inv Call.syncs s v = pipeline_sync-Inv s v
step-Inv Call.enters s v = unfold enter_pipeline_mode in ground arith
step-Inv Call.exits s v = unfold exit_pipeline_mode in ground arith
step-Inv Call.single_rows s v = unfold set_single_row_mode in ground arith
step-Inv (Call.chunked_rows size) s v = unfold set_chunked_rows_mode in ground arith
step-Inv (Call.receives m) s v = receive-Inv m s v
step-Inv (Call.copy_receives m) s v = receive_copy-Inv m s v
step-Inv Call.collects s v = next_result-Inv s v
step-Inv Call.puts_copy_end s v = unfold put_copy_end in ground arith
step-Inv Call.abandons_copy_out s v = unfold abandon_copy_out in ground arith

run-Inv : (cs : List Call) (s : PipelineState) → Inv s → Inv (run cs s)
unfolding run
run-Inv [] s v = v
run-Inv (c ∷ cs) s v = run-Inv cs (step c s) (step-Inv c s v)

-- After any calls on a new connection and any messages from the server, the invariant `Inv` holds:
-- a status that says a result is ready has one, an idle connection has nothing queued, and the queue
-- is one that the pipeline mode allows.
pub run-new-Inv : (cs : List Call) → Inv (run cs new)
run-new-Inv cs =
    run-Inv cs new
      (record { ready = refl; idle = refl; between = refl; alone = refl; pipelined = refl })

next_result-ready :
    (s : PipelineState)
    → Inv s
    → is_ready s.status ≡ true
    → (r : QueryResult) × (s.result ≡ some r) × ((next_result s).0 ≡ Next.result r)
unfolding next_result
next_result-ready s v h = elim (Option-cases s.result) [
  | inl e ↦ absurd (let w = v.ready in cc)
  | inr (r, e) ↦ (r, e, ground arith)
]

-- After any history, a connection that says that a result is ready hands over the very result that
-- was built: the source's fallback for a missing result is never taken.
pub next_result-run_ready :
    (cs : List Call)
    → is_ready (run cs new).status ≡ true
    → (r : QueryResult) × ((run cs new).result ≡ some r)
      × ((next_result (run cs new)).0 ≡ Next.result r)
next_result-run_ready cs h = next_result-ready (run cs new) (run-new-Inv cs) h
