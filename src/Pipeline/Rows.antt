-- ===== src/Pipeline/Rows.antt =====
-- Rows handed over in parts (single-row and chunked mode).
use pgrust_drop.Prelude.{
  ℕ, ◌<◌, true, false, List, [], ◌∷◌, ◌++◌, Option, none, some, ◌≡◌, refl, ◌∙◌, arith, ◌⊎◌, inl,
  inr, if◌then◌else◌, leb, length, length-append, All, Bool-cases, append-nil, append_assoc,
}
use pgrust_drop.QueryResult.{ExecStatus, QueryResult, Row, nfields, ntuples, push_row, set_fields}
use pgrust_drop.QueryResult
use pgrust_drop.Message.{Backend, message_id}
use pgrust_drop.Pipeline.{AsyncStatus, RowMode, PipelineState, chunk_size}
use pgrust_drop.Pipeline.Parse.{admit, apply, partial_status}
use pgrust_drop.Pipeline.Collect.{Next, next_result}
use pgrust_drop.Pipeline.Session.{receive}
use pgrust_drop.Pipeline.Invariant.{is_ready}

-- The rows of a result that is handed over.
abbrev pub rows_of : Next → List Row
rows_of (Next.result r) = r.rows
rows_of _ = []

abbrev pub all_rows : List Next → List Row
all_rows [] = []
all_rows (n ∷ ns) = rows_of n ++ all_rows ns

-- The rows of a partial result that is not yet full.
abbrev pub pending_rows : Option QueryResult → Option QueryResult → List Row
pending_rows (some p) (some base) = p.rows
pending_rows _ _ = []

abbrev pub pending : PipelineState → List Row
pending s = pending_rows s.result s.saved_result

-- The server sends the rows, and the caller collects a result whenever one is ready.
pub feed : List Row → PipelineState → List Next × PipelineState
feed [] s = ([], s)
feed (row ∷ rows) s =
    let s' = receive (Backend.data_row row) s in
    elim (is_ready s'.status) [
      | true ↦ (let (n, s'') = next_result s' in let (ns, end) = feed rows s'' in (n ∷ ns, end))
      | false ↦ feed rows s'
    ]

-- A result of `k` rows of a partial row mode.
abbrev pub IsChunk : ℕ → Next → Type 0
IsChunk k (Next.result r) = ntuples r ≡ k
IsChunk k _ = ⊥

-- The partial result that takes the place of `base`.
abbrev first_part : RowMode → QueryResult → QueryResult
first_part mode base = set_fields (QueryResult.new (partial_status mode)) base.fields

partial_status_cases :
    (mode : RowMode) (k : ℕ)
    → chunk_size mode ≡ some k
    → (partial_status mode ≡ ExecStatus.tuples_chunk) ⊎ (k ≡ 1)
partial_status_cases RowMode.all k e = cc
partial_status_cases RowMode.single k e = inr (ground arith)
partial_status_cases (RowMode.chunked n) k e = inl refl

feed_room :
    (row : Row) (rows : List Row) (s : PipelineState)
    → is_ready (receive (Backend.data_row row) s).status ≡ false
    → feed (row ∷ rows) s ≡ feed rows (receive (Backend.data_row row) s)
unfolding feed
feed_room row rows s e = ground arith

feed_full :
    (row : Row) (rows : List Row) (s : PipelineState)
    → is_ready (receive (Backend.data_row row) s).status ≡ true
    → (let (n, s') = next_result (receive (Backend.data_row row) s) in
        feed (row ∷ rows) s ≡ (n ∷ (feed rows s').0, (feed rows s').1))
unfolding feed
feed_full row rows s e = ground arith

handed_over :
    (row : Row) (before later end rows : List Row) {handed part : List Row}
    → handed ≡ before ++ row ∷ []
    → later ++ end ≡ part ++ rows
    → part ≡ []
    → (handed ++ later) ++ end ≡ before ++ row ∷ rows
handed_over row before later end rows {handed} e whole left =
    append_assoc handed later end ∙ rw (whole, left, e) (append_assoc before (row ∷ []) rows)

module _ (w k : ℕ) (base : QueryResult) where
  abbrev pub Partial : Option QueryResult → Option QueryResult → Type 0
  Partial result saved =
      ((result ≡ some base) × (saved ≡ none))
      ⊎ ((p : QueryResult) × (result ≡ some p)
          × (saved ≡ some base)
          × (p.status ≡ ExecStatus.tuples_chunk)
          × (nfields p ≡ w)
          × (0 < ntuples p)
          × (ntuples p < k))

  -- A command whose rows are handed over `k` at a time, and whose columns `base` carries.
  pub record Chunking (s : PipelineState) : Type 0 where
    pub running : s.status ≡ AsyncStatus.busy
    pub mode : chunk_size s.row_mode ≡ some k
    pub parts : Partial s.result s.saved_result
    pub base_status : base.status ≡ ExecStatus.tuples_ok
    pub base_width : nfields base ≡ w
    pub base_rows : base.rows ≡ []
    pub positive : 0 < k

  -- The state behind one more row, in a partial result `p`.
  abbrev filled : QueryResult → Row → PipelineState → PipelineState
  filled p row s = record s {
    result = some (push_row p row);
    saved_result = some base;
    status = if leb k (ntuples (push_row p row)) then AsyncStatus.ready_more else AsyncStatus.busy;
  }

  receive_first :
      (row : Row) (s : PipelineState)
      → Chunking s
      → s.result ≡ some base
      → s.saved_result ≡ none
      → length row ≡ w
      → receive (Backend.data_row row) s ≡ filled (first_part s.row_mode base) row s
  unfolding receive admit apply message_id set_fields
  receive_first row s c r v e = ground arith

  receive_more :
      (row : Row) (s : PipelineState) (p : QueryResult)
      → Chunking s
      → s.result ≡ some p
      → s.saved_result ≡ some base
      → p.status ≡ ExecStatus.tuples_chunk
      → nfields p ≡ w
      → length row ≡ w
      → receive (Backend.data_row row) s ≡ filled p row s
  unfolding receive admit apply message_id
  receive_more row s p c r v t f e = ground arith

  -- The states that a partial result goes through, from `filled`.
  abbrev Goes : List Row → Row → PipelineState → Type 0
  Goes before row s =
      ((is_ready s.status ≡ false) × Chunking s × (pending s ≡ before ++ row ∷ []))
      ⊎ ((is_ready s.status ≡ true)
          × IsChunk k (next_result s).0
          × (rows_of (next_result s).0 ≡ before ++ row ∷ [])
          × Chunking (next_result s).1
          × (pending (next_result s).1 ≡ []))

  -- `filled`, by the status that it comes to.
  abbrev filled_as : AsyncStatus → QueryResult → Row → PipelineState → PipelineState
  filled_as status p row s = record s {
    result = some (push_row p row);
    saved_result = some base;
    status = status;
  }

  again :
      {s : PipelineState}
      → Chunking s
      → (s' : PipelineState) → s'.status ≡ AsyncStatus.busy
      → s'.row_mode ≡ s.row_mode
      → Partial s'.result s'.saved_result
      → Chunking s'
  again c s' b m p = record {
    running = b;
    mode = rw m c.mode;
    parts = p;
    base_status = c.base_status;
    base_width = c.base_width;
    base_rows = c.base_rows;
    positive = c.positive;
  }

  full-Goes :
      (p : QueryResult) (row : Row) (s : PipelineState)
      → Chunking s
      → ntuples (push_row p row) ≡ k
      → Goes p.rows row (filled_as AsyncStatus.ready_more p row s)
  unfolding next_result
  full-Goes p row s c e = inr (refl, e, refl, again c _ refl refl (inl (refl, refl)), refl)

  room-Goes :
      (p : QueryResult) (row : Row) (s : PipelineState)
      → Chunking s
      → p.status ≡ ExecStatus.tuples_chunk
      → nfields p ≡ w
      → ntuples (push_row p row) < k
      → Goes p.rows row (filled_as AsyncStatus.busy p row s)
  room-Goes p row s c t f l =
      let grows = length-append p.rows (row ∷ []) in
      inl (
        refl,
        again c _ refl refl (inr (push_row p row, refl, refl, t, f, omega (arith, grows), l)),
        refl,
      )

  filled-Goes :
      (p : QueryResult) (row : Row) (s : PipelineState)
      → Chunking s
      → nfields p ≡ w
      → ntuples p < k
      → ((p.status ≡ ExecStatus.tuples_chunk) ⊎ (k ≡ 1))
      → Goes p.rows row (filled p row s)
  filled-Goes p row s c f l t =
      let grows = length-append p.rows (row ∷ []) in
      elim (Bool-cases (leb k (ntuples (push_row p row)))) [
        | inl full ↦ rw full (full-Goes p row s c (ground (arith, grows)))
        | inr room ↦ rw room (room-Goes p row s c (ground (arith, grows)) f (ground (arith, grows)))
      ]

  receive-Goes :
      (row : Row) (s : PipelineState)
      → Chunking s
      → length row ≡ w
      → Goes (pending s) row (receive (Backend.data_row row) s)
  unfolding set_fields
  receive-Goes row s c e = elim c.parts [
    | inl (r, v) ↦
        rw (receive_first row s c r v e, r, v)
          (filled-Goes (first_part s.row_mode base) row s c c.base_width c.positive
            (partial_status_cases s.row_mode k c.mode))
    | inr (p, r, v, t, f, _, l) ↦
        rw (receive_more row s p c r v t f e, r, v) (filled-Goes p row s c f l (inl t))
  ]

  -- While the rows of such a command come in: the results handed over have `k` rows each, and their
  -- rows with those of the part that is not full are the rows that came, in their order.
  pub feed-Chunking :
      (rows : List Row) (s : PipelineState)
      → Chunking s
      → All (λ row. length row ≡ w) rows
      → (let (ns, end) = feed rows s in
          (all_rows ns ++ pending end ≡ pending s ++ rows) × All (IsChunk k) ns × Chunking end)
  feed-Chunking [] s c h = unfold feed in (simp append-nil, tt, c)
  feed-Chunking (row ∷ rows) s c h = elim (receive-Goes row s c h.0) [
    | inl (room, c', e) ↦
        let (whole, parts, ends) = feed-Chunking rows _ c' h.1 in
        rw (feed_room row rows s room) (whole ∙ rw (e, append_assoc), parts, ends)
    | inr (full, chunk, e, c', left) ↦
        let (whole, parts, ends) = feed-Chunking rows _ c' h.1 in
        rw (feed_full row rows s full)
          (handed_over row (pending s) _ _ _ e whole left, (chunk, parts), ends)
  ]
