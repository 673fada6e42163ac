-- ===== src/Pipeline/Handed.antt =====
-- The rows of a whole command in single-row or chunked mode, its end included.
use pgrust_drop.Prelude.{
  ℕ, zero, suc, ◌<◌, true, false, List, [], ◌∷◌, ◌++◌, Option, none, some, ◌≡◌, refl, ap, ◌∙◌,
  arith, inl, inr, Bool-cases, length, All, append-nil, Bytes,
}
use pgrust_drop.QueryResult.{ExecStatus, QueryResult, Row, nfields, ntuples, set_command_status}
use pgrust_drop.Message.{Backend, message_id}
use pgrust_drop.Pipeline.{AsyncStatus, PipelineState, chunk_size, is_off}
use pgrust_drop.Pipeline.Queue.{advance, process_queue}
use pgrust_drop.Pipeline.Parse.{admit, apply}
use pgrust_drop.Pipeline.Collect.{Next, next_result}
use pgrust_drop.Pipeline.Session.{receive}
use pgrust_drop.Pipeline.Invariant.{is_ready}
use pgrust_drop.Pipeline.Rows.{all_rows, pending, feed, IsChunk, Chunking, feed-Chunking}

-- The caller collects what is ready, up to a number of results.
unfoldable pub collect_up_to : ℕ → PipelineState → List Next × PipelineState
collect_up_to zero s = ([], s)
collect_up_to (suc n) s = elim (is_ready s.status) [
  | false ↦ ([], s)
  | true ↦ (let (r, s') = next_result s in let (rs, end) = collect_up_to n s' in (r ∷ rs, end))
]

-- The result that ends the rows: it has none of its own.
abbrev pub Ends : Next → Type 0
Ends (Next.result r) = (r.status ≡ ExecStatus.tuples_ok) × (r.rows ≡ [])
Ends _ = ⊥

-- What is left at the end of a command in parts of `k` rows: a shorter part, where the rows do not
-- come out even, and the result that ends them.
abbrev pub Last : ℕ → List Next → Type 0
Last k (r ∷ []) = Ends r
Last k (Next.result p ∷ r ∷ []) = (0 < ntuples p) × (ntuples p < k) × Ends r
Last k _ = ⊥

-- A command that has ended, with its result and the one that is kept for later.
abbrev over : QueryResult → Option QueryResult → PipelineState → PipelineState
over r kept s = record s { status = AsyncStatus.ready; result = some r; saved_result = kept }

receive_end :
    (tag : Bytes) (s : PipelineState) (r : QueryResult) (kept : Option QueryResult)
    → s.status ≡ AsyncStatus.busy
    → s.result ≡ some r
    → s.saved_result ≡ kept
    → receive (Backend.command_complete tag) s ≡ over (set_command_status r tag) kept s
unfolding receive admit apply message_id
receive_end tag s r kept b e v = ground arith

collects_kept :
    (n : ℕ) (r base : QueryResult) (s : PipelineState)
    → (collect_up_to (suc n) (over r (some base) s)).0
      ≡ Next.result r ∷ (collect_up_to n (over base none s)).0
unfolding collect_up_to next_result
collects_kept n r base s = refl

collects_kept_state :
    (n : ℕ) (r base : QueryResult) (s : PipelineState)
    → (collect_up_to (suc n) (over r (some base) s)).1 ≡ (collect_up_to n (over base none s)).1
unfolding collect_up_to next_result
collects_kept_state n r base s = refl

taken :
    (base : QueryResult) (s : PipelineState)
    → base.status ≡ ExecStatus.tuples_ok
    → is_ready (next_result (over base none s)).1.status ≡ false
unfolding next_result advance process_queue
taken base s t = elim (Bool-cases (is_off s.pipeline)) [
  | inl o ↦ rw (t, o) refl
  | inr o ↦ rw (t, o) refl
]

hands_over :
    (base : QueryResult) (s : PipelineState) → (next_result (over base none s)).0 ≡ Next.result base
unfolding next_result
hands_over base s = refl

stops_at : (n : ℕ) (s : PipelineState) → is_ready s.status ≡ false → collect_up_to n s ≡ ([], s)
unfolding collect_up_to
stops_at zero s h = refl
stops_at (suc n) s h = rw (h, collect_up_to) refl

collects_last :
    (n : ℕ) (base : QueryResult) (s : PipelineState)
    → base.status ≡ ExecStatus.tuples_ok
    → (let (rs, end) = collect_up_to (suc n) (over base none s) in
        (rs ≡ Next.result base ∷ []) × (is_ready end.status ≡ false))
unfolding collect_up_to
collects_last n base s t =
    let left = taken base s t in
    let stop = stops_at n ((next_result (over base none s)).1) left in
    (rw stop (ap (λ r. r ∷ []) (hands_over base s)), rw stop left)

module _ (w k : ℕ) (base : QueryResult) (tag : Bytes) where
  -- The command ends.
  abbrev ended : PipelineState → List Next × PipelineState
  ended s = collect_up_to 2 (receive (Backend.command_complete tag) s)

  abbrev EndsWell : PipelineState → Type 0
  EndsWell s =
      (all_rows (ended s).0 ≡ pending s)
      × Last k (ended s).0
      × (is_ready (ended s).1.status ≡ false)

  whole-EndsWell :
      (s : PipelineState)
      → Chunking w k base s
      → s.result ≡ some base
      → s.saved_result ≡ none
      → EndsWell s
  whole-EndsWell s c r v =
      let (rs, quiet) = collects_last 1 (set_command_status base tag) s c.base_status in
      rw (receive_end tag s base none c.running r v, r, v, rs)
        (rw c.base_rows refl, (c.base_status, c.base_rows), quiet)

  part-EndsWell :
      (s : PipelineState) (p : QueryResult)
      → Chunking w k base s
      → s.result ≡ some p
      → s.saved_result ≡ some base
      → 0 < ntuples p
      → ntuples p < k
      → EndsWell s
  part-EndsWell s p c r v some_rows room =
      let (rs, quiet) = collects_last 0 base s c.base_status in
      rw
        (
          receive_end tag s p (some base) c.running r v,
          r,
          v,
          collects_kept 1 (set_command_status p tag) base s,
          collects_kept_state 1 (set_command_status p tag) base s,
          rs,
        )
        (rw c.base_rows (append-nil p.rows), (some_rows, room, (c.base_status, c.base_rows)), quiet)

  Chunking-EndsWell : (s : PipelineState) → Chunking w k base s → EndsWell s
  Chunking-EndsWell s c = elim c.parts [
    | inl (r, v) ↦ whole-EndsWell s c r v
    | inr (p, r, v, _, _, some_rows, room) ↦ part-EndsWell s p c r v some_rows room
  ]

-- A command is running in single-row mode (`k` is 1) or in chunks of `k` rows, with its row
-- description `base` of `w` columns in and no row yet. Any rows of `w` values come in, the caller
-- collects a result whenever one is ready, and the command ends. Then the rows of all results are the
-- rows that came, in order; the results before the end have `k` rows each; at the end come a part of
-- fewer than `k` rows, if any are left, and a result without rows; and none is ready after it.
pub feed_in_parts :
    (w k : ℕ) (base : QueryResult) (tag : Bytes) (rows : List Row) (s : PipelineState)
    → s.status ≡ AsyncStatus.busy
    → chunk_size s.row_mode ≡ some k
    → 0 < k
    → s.result ≡ some base
    → s.saved_result ≡ none
    → base.status ≡ ExecStatus.tuples_ok
    → nfields base ≡ w
    → base.rows ≡ []
    → All (λ row. length row ≡ w) rows
    → (let (ns, s') = feed rows s in
        let (last, end) = collect_up_to 2 (receive (Backend.command_complete tag) s') in
        (all_rows ns ++ all_rows last ≡ rows)
        × All (IsChunk k) ns
        × Last k last
        × (is_ready end.status ≡ false))
feed_in_parts w k base tag rows s b m pos r v t f e h =
    let start : Chunking w k base s = record {
      running = b;
      mode = m;
      parts = inl (r, v);
      base_status = t;
      base_width = f;
      base_rows = e;
      positive = pos;
    } in
    let (whole, parts, ends) = feed-Chunking w k base rows s start h in
    let (left, last, quiet) = Chunking-EndsWell w k base tag _ ends in
    (rw left (whole ∙ rw (r, v) refl), parts, last, quiet)
