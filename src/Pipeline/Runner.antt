-- ===== src/Pipeline/Runner.antt =====
-- crates/rlibpq/src/pipeline.rs: `QueryRunner`, which folds the messages of one command into its
-- results. Its loops run on fuel; Termination is about how much.
pub mod Termination
use pgrust_drop.Prelude.{
  is_some, ℕ, zero, suc, Bool, true, false, ◌&&◌, List, [], ◌∷◌, ◌++◌, Option, none, some,
  if◌then◌else◌, ◌||◌, Bytes,
}
use pgrust_drop.Prelude.Int.{ℤ}
use pgrust_drop.ResultError.{ResultError}
use pgrust_drop.QueryResult.{QueryResult}
use pgrust_drop.Message.{Result, ok, err, TransactionStatus, Backend, message_id}
use pgrust_drop.Pipeline.{QueryClass, AsyncStatus, PipelineState, new, is_copy, is_idle}
use pgrust_drop.Pipeline.Queue.{append}
use pgrust_drop.Pipeline.Send.{begin_send}
use pgrust_drop.Pipeline.Parse.{Admit, Event, admit, apply}
use pgrust_drop.Pipeline.Collect.{Next, next_result}

-- `enum Flow`.
pub data Flow : Type 0 where
  continue finished : Flow

-- `struct QueryRunner`.
pub record QueryRunner : Type 0 where
  pub state : PipelineState
  pub results : List QueryResult
  pub notices : List ResultError
  pub notifications : List (ℤ × Bytes × Bytes)
  pub parameters : List (Bytes × Bytes)
  pub transaction_status : Option TransactionStatus

-- `QueryRunner::for_class`.
unfoldable pub for_class : QueryClass → QueryRunner
for_class class = record {
  state = append class (begin_send class new).1;
  results = [];
  notices = [];
  notifications = [];
  parameters = [];
  transaction_status = none;
}

-- `matches!(status, Ready | ReadyMore)`.
abbrev pub has_ready : AsyncStatus → Bool
has_ready AsyncStatus.ready = true
has_ready AsyncStatus.ready_more = true
has_ready _ = false

-- `if let Next::Result(result) = self.state.next_result() { self.results.push(result) }`.
abbrev keep : Next → List QueryResult → List QueryResult
keep (Next.result r) results = results ++ r ∷ []
keep _ results = results

unfoldable pub take_next : QueryRunner → QueryRunner
take_next r = let (n, s) = next_result r.state in record r { state = s; results = keep n r.results }

-- The loop of `collect`.
unfoldable pub drain : ℕ → QueryRunner → QueryRunner
drain zero r = r
drain (suc fuel) r =
    let rest = drain fuel (take_next r) in if has_ready r.state.status then rest else r

-- `collect`: two rounds of its loop are enough outside pipeline mode.
unfoldable pub collect : QueryRunner → QueryRunner
collect r =
    let r' = drain 2 r in
    if is_copy r'.state.status && is_some r'.state.result then take_next r' else r'

-- The `match` of `push` on the event.
abbrev note : Option Event → QueryRunner → QueryRunner
note none r = r
note (some (Event.notice e)) r = record r { notices = r.notices ++ e ∷ [] }
note (some (Event.notification pid channel payload)) r = record r {
  notifications = r.notifications ++ (pid, channel, payload) ∷ [];
}
note (some (Event.parameter_status name value)) r = record r {
  parameters = r.parameters ++ (name, value) ∷ [];
}
note (some (Event.ready_for_query status)) r = record r { transaction_status = some status }

abbrev flow_of : AsyncStatus → Flow
flow_of status = if is_idle status || is_copy status then Flow.finished else Flow.continue

abbrev after_apply : Result (Option Event) → QueryRunner → Result Flow × QueryRunner
after_apply (err e) r = (err e, r)
after_apply (ok event) r = let r' = collect (note event r) in (ok (flow_of r'.state.status), r')

-- `push` behind its loop.
unfoldable pub take_message : Backend → QueryRunner → Result Flow × QueryRunner
take_message m r =
    let (outcome, s) = apply m r.state in after_apply outcome (record r { state = s })

-- `push`, with nothing where the fuel of its loop runs out.
unfoldable pub push : ℕ → Backend → QueryRunner → Option (Result Flow × QueryRunner)
push zero m r = none
push (suc fuel) m r =
    let (answer, s) = admit (message_id m) r.state in
    let r' = record r { state = s } in
    let rest = push fuel m (collect r') in
    elim answer [
      | Admit.process ↦ some (take_message m r')
      | Admit.wait ↦ if is_copy s.status then some (ok Flow.finished, r') else rest
    ]
