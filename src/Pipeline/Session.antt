-- ===== src/Pipeline/Session.antt =====
-- crates/rlibpq/src/connection.rs: the calls on a connection, as far as the query-execution state
-- goes: which of its operations each makes, and in what order.
use pgrust_drop.Prelude.{ℕ, List, [], ◌∷◌, Option, Bytes}
use pgrust_drop.Message.{Backend, message_id}
use pgrust_drop.Pipeline.{QueryClass, done, refused, PipelineState}
use pgrust_drop.Pipeline.Queue.{append_command, append}
use pgrust_drop.Pipeline.Send.{
  begin_send, enter_pipeline_mode, exit_pipeline_mode, begin_pipeline_sync, set_single_row_mode,
  set_chunked_rows_mode,
}
use pgrust_drop.Pipeline.Parse.{Admit, admit, apply}
use pgrust_drop.Pipeline.Copy.{
  CopyStep, begin_get_copy, put_copy_end, copy_message, abandon_copy_out,
}
use pgrust_drop.Pipeline.Collect.{next_result}

-- The classes of the commands that a caller sends: a Sync goes by `pipeline_sync`.
pub data Command : Type 0 where
  simple extended prepare describe close : Command

abbrev pub command_class : Command → QueryClass
command_class Command.simple = QueryClass.simple
command_class Command.extended = QueryClass.extended
command_class Command.prepare = QueryClass.prepare
command_class Command.describe = QueryClass.describe
command_class Command.close = QueryClass.close

-- `begin_send` and, where it does not refuse, the end of `dispatch`.
unfoldable pub send : Command → Option Bytes → PipelineState → PipelineState
send command query s =
    let (attempt, s') = begin_send (command_class command) s in
    elim attempt [ done _ ↦ append_command (command_class command) query s' | refused _ ↦ s' ]

-- `pipeline_sync_internal`.
unfoldable pub pipeline_sync : PipelineState → PipelineState
pipeline_sync s = elim (begin_pipeline_sync s) [ done _ ↦ append QueryClass.sync s | refused _ ↦ s ]

-- One round of `parse_input` on a whole message.
unfoldable pub receive : Backend → PipelineState → PipelineState
receive m s =
    let (answer, s') = admit (message_id m) s in
    elim answer [ Admit.process ↦ (apply m s').1 | Admit.wait ↦ s' ]

-- One round of `get_copy_data` on a whole message.
unfoldable pub receive_copy : Backend → PipelineState → PipelineState
receive_copy m s = elim (begin_get_copy s) [
  | refused _ ↦ s
  | done _ ↦
      let (answer, s') = copy_message (message_id m) s in
      elim answer [ CopyStep.async ↦ (apply m s').1 | _ ↦ s' ]
]

-- The calls that change the state.
pub data Call : Type 0 where
  sends : Command → Option Bytes → Call
  syncs enters exits single_rows : Call
  chunked_rows : ℕ → Call
  receives copy_receives : Backend → Call
  collects puts_copy_end abandons_copy_out : Call

unfoldable pub step : Call → PipelineState → PipelineState
step (Call.sends command query) s = send command query s
step Call.syncs s = pipeline_sync s
step Call.enters s = (enter_pipeline_mode s).1
step Call.exits s = (exit_pipeline_mode s).1
step Call.single_rows s = (set_single_row_mode s).1
step (Call.chunked_rows size) s = (set_chunked_rows_mode size s).1
step (Call.receives m) s = receive m s
step (Call.copy_receives m) s = receive_copy m s
step Call.collects s = (next_result s).1
step Call.puts_copy_end s = (put_copy_end s).1
step Call.abandons_copy_out s = abandon_copy_out s

unfoldable pub run : List Call → PipelineState → PipelineState
unfolding step
run [] s = s
run (c ∷ cs) s = run cs (step c s)
