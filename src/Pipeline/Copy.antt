-- ===== src/Pipeline/Copy.antt =====
-- crates/rlibpq/src/pipeline.rs: the decisions of the COPY states.
use pgrust_drop.Prelude.{ℕ, Bool, true, false, not, ◌||◌, Option, none, some, ◌==◌, if◌then◌else◌}
use pgrust_drop.Pipeline.{
  QueryClass, AsyncStatus, PipelineError, Attempt, done, refused, PipelineState, is_simple, head,
}

-- `enum CopyStep`.
pub data CopyStep : Type 0 where
  async payload end : CopyStep

-- `matches!(status, CopyIn | CopyBoth)`.
abbrev pub takes_data : AsyncStatus → Bool
takes_data AsyncStatus.copy_in = true
takes_data AsyncStatus.copy_both = true
takes_data _ = false

-- `matches!(status, CopyOut | CopyBoth)`.
abbrev pub sends_data : AsyncStatus → Bool
sends_data AsyncStatus.copy_out = true
sends_data AsyncStatus.copy_both = true
sends_data _ = false

-- `begin_put_copy`.
unfoldable pub begin_put_copy : PipelineState → Attempt (Unit {0})
begin_put_copy s =
    if takes_data s.status then done tt else refused PipelineError.no_copy_in_progress

-- `begin_get_copy`.
unfoldable pub begin_get_copy : PipelineState → Attempt (Unit {0})
begin_get_copy s =
    if sends_data s.status then done tt else refused PipelineError.no_copy_in_progress

-- `self.head().is_some_and(|class| class != QueryClass::Simple)`.
abbrev needs_sync : Option QueryClass → Bool
needs_sync none = false
needs_sync (some class) = not (is_simple class)

abbrev after_put_end : AsyncStatus → AsyncStatus
after_put_end AsyncStatus.copy_both = AsyncStatus.copy_out
after_put_end _ = AsyncStatus.busy

-- `put_copy_end`.
unfoldable pub put_copy_end : PipelineState → Attempt Bool × PipelineState
unfolding begin_put_copy
put_copy_end s = elim (begin_put_copy s) [
  | refused e ↦ (refused e, s)
  | done _ ↦ (done (needs_sync (head s)), record s { status = after_put_end s.status })
]

abbrev after_copy_done : AsyncStatus → AsyncStatus
after_copy_done AsyncStatus.copy_both = AsyncStatus.copy_in
after_copy_done _ = AsyncStatus.busy

-- `copy_message`.
unfoldable pub copy_message : ℕ → PipelineState → CopyStep × PipelineState
copy_message id s =
    if id == b'A' || id == b'N' || id == b'S'
    then (CopyStep.async, s)
    else if id == b'd'
    then (CopyStep.payload, s)
    else if id == b'c'
    then (CopyStep.end, record s { status = after_copy_done s.status })
    else (CopyStep.end, record s { status = AsyncStatus.busy })

abbrev abandoned : AsyncStatus → AsyncStatus
abandoned AsyncStatus.copy_out = AsyncStatus.busy
abandoned status = status

-- `abandon_copy_out`.
unfoldable pub abandon_copy_out : PipelineState → PipelineState
abandon_copy_out s = record s { status = abandoned s.status }
