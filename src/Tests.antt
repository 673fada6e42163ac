-- ===== src/Tests.antt =====
-- The theorems at concrete states, messages and characters.
mod Escapes
mod Options
mod Session
mod Statements
mod Variables
use pgrust_drop.Prelude.{
  suc, false, true, List, [], ◌∷◌, ◌++◌, none, some, ◌≡◌, ◌≢◌, ◌≤◌, refl, arith, ◌<◌, All, length,
  take, Bytes, codes, inl, ℕ,
}
use pgrust_drop.Prelude.Int.{pos, negsuc}
use pgrust_drop.Encoding.{Encoding, max_length, family}
use pgrust_drop.Encoding.Length.{mblen, mblen_or_incomplete, utf_mblen}
use pgrust_drop.Encoding.Verify.{verify_char, verify_str, invalid_sequence, family_verify_char}
use pgrust_drop.Encoding.Laws.{verify_char-mblen, invalid_sequence_lem}
use pgrust_drop.ResultError
use pgrust_drop.ResultError.{ResultError}
use pgrust_drop.QueryResult
use pgrust_drop.QueryResult.{ExecStatus, QueryResult, FieldDescription, Row, with_error}
use pgrust_drop.Message.{AuthRequest, Result, TransactionStatus, Backend, message_id, ok}
use pgrust_drop.Escape.{escape_string, escape_from, up_to_nul}
use pgrust_drop.Escape.Literal.{Literal, Place, read_literal}
use pgrust_drop.Escape.Safety.{escape_string_lem}
use pgrust_drop.Escape.Bytea.{escape_bytea, unescape_bytea}
use pgrust_drop.Escape.Bytea.RoundTrip.{escape_bytea-unescape_bytea}
use pgrust_drop.Message.Frame.{Frame, next_frame, next_copy_frame}
use pgrust_drop.Message.Frame.Laws.{next_frame_stable, next_frame_range, next_frame-packet}
use pgrust_drop.Message.Reader.Laws.{NoNul}
use pgrust_drop.Message.Frontend.{u32_be, packet, Frontend, encode, bind_body}
use pgrust_drop.Message.Frontend.RoundTrip.{read_bind, bind_body-read_bind}
use pgrust_drop.Message.Frontend.Framing.{encode-next_copy_frame}
use pgrust_drop.Message.Decode.{decode}
use pgrust_drop.Message.Decode.Layout.{body_of}
use pgrust_drop.Message.Decode.Authentication.{code_of, payload_of, decode-payload_of}
use pgrust_drop.Message.Decode.RoundTrip.{decode-body_of}
use pgrust_drop.Pipeline.{
  QueryClass, PipelineStatus, AsyncStatus, RowMode, CmdQueueEntry, PipelineState, new,
}
use pgrust_drop.Pipeline.Parse.{stamp, admit, apply}
use pgrust_drop.Pipeline.Send.{begin_send}
use pgrust_drop.Pipeline.Queue.{append_command}
use pgrust_drop.Pipeline.Collect.{Next, next_result}
use pgrust_drop.Pipeline.Session.{Command, Call, step, run, send, receive}
use pgrust_drop.Pipeline.Invariant.{Inv, step-Inv, run-new-Inv, next_result-run_ready, is_ready}
use pgrust_drop.Pipeline.Recovery.{observe, Recovered, aborted_result, observe_error}
use pgrust_drop.Pipeline.Runner.{Flow, QueryRunner, for_class, has_ready, drain, push}
use pgrust_drop.Pipeline.Runner.Termination.{drain_ends, push_ends}
use pgrust_drop.Pipeline.Handed.{collect_up_to, Last, feed_in_parts}
use pgrust_drop.Pipeline.Rows.{feed, all_rows, pending, IsChunk}

abbrev entry : QueryClass → CmdQueueEntry
entry class = record { class = class; query = none }

abbrev failure : ResultError
failure = ResultError.new ((b'S', codes "ERROR") ∷ (b'M', codes "no such table") ∷ [])

-- Three commands and a Sync in pipeline mode, the first of them running.
abbrev three_commands : List Call
three_commands =
    Call.enters
    ∷ Call.sends Command.extended none
    ∷ Call.sends Command.extended none
    ∷ Call.sends Command.prepare none
    ∷ Call.syncs
    ∷ []

run-new-Inv_example : Inv (run three_commands new)
run-new-Inv_example = run-new-Inv three_commands

abbrev a_tag : List Call
a_tag =
    Call.sends Command.simple (some (codes "BEGIN"))
    ∷ Call.receives (Backend.command_complete (codes "BEGIN"))
    ∷ []

a_tag_ready : is_ready (run a_tag new).status ≡ true
unfolding run receive admit message_id send begin_send append_command apply
a_tag_ready = refl

next_result-run_ready_example :
    (r : QueryResult) × ((run a_tag new).result ≡ some r)
    × ((next_result (run a_tag new)).0 ≡ Next.result r)
next_result-run_ready_example = next_result-run_ready a_tag a_tag_ready

abbrev in_pipeline : PipelineState
in_pipeline = record new {
  status = AsyncStatus.busy;
  pipeline = PipelineStatus.on;
  queue =
      entry QueryClass.extended
      ∷ entry QueryClass.extended
      ∷ entry QueryClass.prepare
      ∷ entry QueryClass.sync
      ∷ entry QueryClass.describe
      ∷ [];
}

observe_error_example :
    (let (ns, end) =
        observe
          (Call.receives (Backend.error_response failure)
            ∷ Call.collects
            ∷ Call.collects
            ∷ Call.collects
            ∷ Call.collects
            ∷ Call.collects
            ∷ Call.collects
            ∷ Call.receives (Backend.ready_for_query TransactionStatus.idle)
            ∷ Call.collects
            ∷ [])
          in_pipeline in
      (ns
        ≡ Next.result (with_error ExecStatus.fatal_error (stamp in_pipeline failure))
          ∷ Next.null
          ∷ aborted_result
          ∷ Next.null
          ∷ aborted_result
          ∷ Next.null
          ∷ Next.result (QueryResult.new ExecStatus.pipeline_sync)
          ∷ [])
      × Recovered (entry QueryClass.describe ∷ []) end)
observe_error_example =
    observe_error (entry QueryClass.extended) (entry QueryClass.sync)
      (entry QueryClass.extended ∷ entry QueryClass.prepare ∷ []) (entry QueryClass.describe ∷ [])
      failure TransactionStatus.idle in_pipeline refl refl refl
      (refl, refl, (refl, refl, (refl, refl, tt))) refl

abbrev a_column : FieldDescription
a_column = record {
  name = codes "n";
  tableid = 0;
  columnid = pos 0;
  typid = 23;
  typlen = pos 4;
  atttypmod = negsuc 0;
  format = pos 0;
}

abbrev a_description : QueryResult
a_description = record (QueryResult.new ExecStatus.tuples_ok) { fields = a_column ∷ [] }

abbrev in_twos : PipelineState
in_twos = record new {
  status = AsyncStatus.busy;
  queue = entry QueryClass.extended ∷ [];
  result = some a_description;
  row_mode = RowMode.chunked 2;
}

abbrev three_rows : List Row
three_rows = (some (codes "1") ∷ []) ∷ (none ∷ []) ∷ (some (codes "3") ∷ []) ∷ []

feed_in_parts_example :
    (let (ns, s') = feed three_rows in_twos in
      let (last, end) =
        collect_up_to 2 (receive (Backend.command_complete (codes "SELECT 3")) s') in
      (all_rows ns ++ all_rows last ≡ three_rows)
      × All (IsChunk 2) ns
      × Last 2 last
      × (is_ready end.status ≡ false))
feed_in_parts_example =
    feed_in_parts 1 2 a_description (codes "SELECT 3") three_rows in_twos refl refl (omega arith)
      refl refl refl refl refl (refl, (refl, (refl, tt)))

-- A whole CommandComplete, and the header of the next message.
abbrev two_messages : Bytes
two_messages = b'C' ∷ 0 ∷ 0 ∷ 0 ∷ 6 ∷ b'X' ∷ 0 ∷ b'Z' ∷ 0 ∷ []

two_messages_cut : next_frame two_messages ≡ Frame.message b'C' 5 7
unfolding next_frame
two_messages_cut = ground arith

two_messages_whole : next_frame two_messages ≢ Frame.incomplete
two_messages_whole e = let cut = two_messages_cut in cc

next_frame_stable_example : next_frame (two_messages ++ 5 ∷ []) ≡ next_frame two_messages
next_frame_stable_example = next_frame_stable two_messages (5 ∷ []) two_messages_whole

query_packet : packet b'Q' (b';' ∷ 0 ∷ []) ≡ some (b'Q' ∷ 0 ∷ 0 ∷ 0 ∷ 6 ∷ b';' ∷ 0 ∷ [])
unfolding packet
query_packet = refl

next_frame-packet_example :
    ((rest : Bytes)
      → next_frame ((b'Q' ∷ 0 ∷ 0 ∷ 0 ∷ 6 ∷ b';' ∷ 0 ∷ []) ++ rest) ≡ Frame.message b'Q' 5 7)
    × ((n : ℕ)
        → n < 7
        → next_frame (take n (b'Q' ∷ 0 ∷ 0 ∷ 0 ∷ 6 ∷ b';' ∷ 0 ∷ [])) ≡ Frame.incomplete)
next_frame-packet_example =
    next_frame-packet b'Q' (b';' ∷ 0 ∷ []) query_packet (omega arith, inl (omega arith))

abbrev a_row : Backend
a_row = Backend.data_row (some (codes "12") ∷ none ∷ [])

decode-body_of_example : decode (message_id a_row) (body_of a_row) ≡ ok a_row
decode-body_of_example = decode-body_of a_row (omega arith, (omega arith, (tt, tt)))

-- The euro sign in UTF-8.
euro_verifies : verify_char Encoding.utf8 0xe2 (0x82 ∷ 0xac ∷ []) ≡ some 3
unfolding family family_verify_char utf_mblen
euro_verifies = ground arith

verify_char-mblen_example :
    (mblen Encoding.utf8 0xe2 (0x82 ∷ 0xac ∷ []) ≡ 3)
    × (1 ≤ 3)
    × (3 ≤ 3)
    × (3 ≤ max_length Encoding.utf8)
verify_char-mblen_example = verify_char-mblen Encoding.utf8 0xe2 (0x82 ∷ 0xac ∷ []) euro_verifies

escape_string_example :
    read_literal Encoding.utf8 false Place.plain
      ((escape_string (codes "it's") Encoding.utf8 true).bytes ++ b'\'' ∷ codes " OR 1")
    ≡ Literal.closed (codes "it's") (codes " OR 1")
unfolding escape_string escape_from up_to_nul
escape_string_example = escape_string_lem (codes "it's") (codes " OR 1") Encoding.utf8 true refl

escape_bytea_example :
    (text : Bytes) × (read_literal Encoding.latin1 true Place.plain
        (escape_bytea (0 ∷ b'\'' ∷ 255 ∷ []) false false ++ b'\'' ∷ [])
      ≡ Literal.closed text [])
    × (unescape_bytea text ≡ 0 ∷ b'\'' ∷ 255 ∷ [])
escape_bytea_example =
    escape_bytea-unescape_bytea Encoding.latin1 false false (0 ∷ b'\'' ∷ 255 ∷ []) []
      (omega arith, (omega arith, (omega arith, tt))) refl

-- Two values, one of them NULL, under an unnamed portal and statement.
abbrev a_bind_body : Bytes
a_bind_body =
    0 ∷ 0 ∷ 0 ∷ 1 ∷ 0 ∷ 1 ∷ 0 ∷ 2 ∷ 0 ∷ 0 ∷ 0 ∷ 1 ∷ b'a' ∷ 255 ∷ 255 ∷ 255 ∷ 255 ∷ 0 ∷ 0 ∷ []

a_bind_body_written :
    bind_body [] [] (pos 1 ∷ []) (some (codes "a") ∷ none ∷ []) [] ≡ some a_bind_body
unfolding bind_body
a_bind_body_written = refl

bind_body-read_bind_example :
    read_bind b'B' a_bind_body ≡ ok (([], [], pos 1 ∷ [], some (codes "a") ∷ none ∷ [], []), [])
bind_body-read_bind_example =
    bind_body-read_bind [] [] (pos 1 ∷ []) (some (codes "a") ∷ none ∷ []) [] b'B' tt tt
      (omega arith, tt) tt a_bind_body_written

sync_written : encode Frontend.sync ≡ some (b'S' ∷ 0 ∷ 0 ∷ 0 ∷ 4 ∷ [])
unfolding encode packet
sync_written = refl

encode-next_copy_frame_example :
    next_copy_frame ((b'S' ∷ 0 ∷ 0 ∷ 0 ∷ 4 ∷ []) ++ b'H' ∷ []) ≡ Frame.message b'S' 5 5
encode-next_copy_frame_example =
    encode-next_copy_frame Frontend.sync b'S' (b'S' ∷ 0 ∷ 0 ∷ 0 ∷ 4 ∷ []) (b'H' ∷ []) refl
      sync_written (omega arith)

-- A simple query whose result is complete but not collected.
abbrev a_runner : QueryRunner
a_runner = record (for_class QueryClass.simple) { state = run a_tag new }

push_ends_example :
    (a : Result Flow × QueryRunner) × ((fuel : ℕ)
      → push (suc (suc (suc fuel))) (Backend.command_complete (codes "COMMIT")) a_runner ≡ some a)
unfolding run receive admit message_id send begin_send append_command apply
push_ends_example =
    push_ends (Backend.command_complete (codes "COMMIT")) a_runner (run-new-Inv a_tag) refl

abbrev a_sasl_request : AuthRequest
a_sasl_request = AuthRequest.sasl (codes "SCRAM-SHA-256" ∷ [])

a_name : codes "SCRAM-SHA-256" ≢ []
a_name e = cc

a_name-NoNul : NoNul (codes "SCRAM-SHA-256")
a_name-NoNul = (
  omega arith,
  (
    omega arith,
    (
      omega arith,
      (
        omega arith,
        (
          omega arith,
          (
            omega arith,
            (
              omega arith,
              (
                omega arith,
                (omega arith, (omega arith, (omega arith, (omega arith, (omega arith, tt))))),
              ),
            ),
          ),
        ),
      ),
    ),
  ),
)

decode-payload_of_example :
    decode b'R' (u32_be (code_of a_sasl_request) ++ payload_of a_sasl_request)
    ≡ ok (Backend.authentication a_sasl_request)
decode-payload_of_example = decode-payload_of a_sasl_request (a_name, a_name-NoNul, tt)
