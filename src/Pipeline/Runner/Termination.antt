-- ===== src/Pipeline/Runner/Termination.antt =====
-- The loops of the runner, and the rounds that they take.
use pgrust_drop.Prelude.{
  is_some, ℕ, zero, suc, true, false, some, ◌≡◌, ◌⊎◌, ◌∙◌, refl, arith, Bool-cases, inl, inr,
}
use pgrust_drop.Message.{Result, ok, Backend, message_id}
use pgrust_drop.Pipeline.{AsyncStatus, PipelineState, is_off, is_copy, is_busy}
use pgrust_drop.Pipeline.Collect.{next_result}
use pgrust_drop.Pipeline.Parse.{Admit, admit}
use pgrust_drop.Pipeline.Invariant.{Inv}
use pgrust_drop.Pipeline.Runner.{
  Flow, QueryRunner, has_ready, take_next, take_message, drain, collect, push,
}

drain_settles :
    (r : QueryRunner) → is_off r.state.pipeline ≡ true → has_ready (drain 2 r).state.status ≡ false
unfolding drain take_next next_result
drain_settles r h = ground arith

drain_done : (fuel : ℕ) (r : QueryRunner) → has_ready r.state.status ≡ false → drain fuel r ≡ r
unfolding drain
drain_done zero r h = refl
drain_done (suc fuel) r h = rw h refl

drain_fixed :
    (fuel : ℕ) (r : QueryRunner)
    → has_ready (drain 2 r).state.status ≡ false
    → drain (suc (suc fuel)) r ≡ drain 2 r
unfolding drain
drain_fixed fuel r h = elim (Bool-cases (has_ready r.state.status)) [
  | inr e ↦ rw e refl
  | inl e ↦ elim (Bool-cases (has_ready (take_next r).state.status)) [
    | inr e' ↦ rw (e, e') refl
    | inl e' ↦
        let settled : has_ready (take_next (take_next r)).state.status ≡ false = rw (e, e') at h in
        rw (e, e') (drain_done fuel (take_next (take_next r)) settled)
  ]
]

-- Outside pipeline mode, two rounds of the loop of `collect` leave no result that is ready, and with
-- more fuel the loop ends in the same state.
pub drain_ends :
    (r : QueryRunner)
    → is_off r.state.pipeline ≡ true
    → (has_ready (drain 2 r).state.status ≡ false)
      × ((fuel : ℕ) → drain (suc (suc fuel)) r ≡ drain 2 r)
drain_ends r h = (drain_settles r h, λ fuel. drain_fixed fuel r (drain_settles r h))

-- What `collect` leaves of a ready result: the command runs on, and where the status was not that of
-- a partial result, no result is left.
collect_busy :
    (r : QueryRunner)
    → is_off r.state.pipeline ≡ true
    → has_ready r.state.status ≡ true
    → (is_busy (collect r).state.status ≡ true) × (is_off (collect r).state.pipeline ≡ true)
unfolding collect drain take_next next_result
collect_busy r h k = ground arith

collect_none :
    (r : QueryRunner)
    → is_off r.state.pipeline ≡ true
    → r.state.status ≡ AsyncStatus.ready
    → is_some (collect r).state.result ≡ false
unfolding collect drain take_next next_result
collect_none r h k = ground arith

Admit-cases : (a : Admit) → (a ≡ Admit.process) ⊎ (a ≡ Admit.wait)
Admit-cases Admit.process = inl refl
Admit-cases Admit.wait = inr refl

-- On a busy connection a message waits only behind a result that it has to be collected first.
admit_busy :
    (id : ℕ) (s : PipelineState)
    → is_busy s.status ≡ true
    → ((admit id s).0 ≡ Admit.process)
      ⊎ (((admit id s).0 ≡ Admit.wait)
          × ((admit id s).1.status ≡ AsyncStatus.ready)
          × ((admit id s).1.pipeline ≡ s.pipeline)
          × (is_some s.result ≡ true))
unfolding admit
admit_busy id s h = elim (Admit-cases (admit id s).0) [
  | inl p ↦ inl p
  | inr w ↦ inr (w, ground arith, ground arith, ground arith)
]

push_processes :
    (fuel : ℕ) (m : Backend) (r : QueryRunner)
    → (admit (message_id m) r.state).0 ≡ Admit.process
    → push (suc fuel) m r
      ≡ some (take_message m (record r { state = (admit (message_id m) r.state).1 }))
unfolding push
push_processes fuel m r h = rw (h, push) refl

push_waits :
    (fuel : ℕ) (m : Backend) (r : QueryRunner)
    → (admit (message_id m) r.state).0 ≡ Admit.wait
    → is_copy (admit (message_id m) r.state).1.status ≡ false
    → push (suc fuel) m r
      ≡ push fuel m (collect (record r { state = (admit (message_id m) r.state).1 }))
unfolding push
push_waits fuel m r h c = rw (h, c, push) refl

push_copies :
    (fuel : ℕ) (m : Backend) (r : QueryRunner)
    → (admit (message_id m) r.state).0 ≡ Admit.wait
    → is_copy (admit (message_id m) r.state).1.status ≡ true
    → push (suc fuel) m r
      ≡ some (ok Flow.finished, record r { state = (admit (message_id m) r.state).1 })
unfolding push
push_copies fuel m r h c = rw (h, c, push) refl

-- Where a message waits outside pipeline mode, and no COPY is under way, a result is ready.
wait_ready :
    (id : ℕ) (s : PipelineState)
    → Inv s
    → is_off s.pipeline ≡ true
    → (admit id s).0 ≡ Admit.wait
    → is_copy (admit id s).1.status ≡ false
    → (has_ready (admit id s).1.status ≡ true) × (is_off (admit id s).1.pipeline ≡ true)
unfolding admit
wait_ready id s v h w c = ground arith

abbrev Answer : Type 0
Answer = Result Flow × QueryRunner

module _ (m : Backend) where
  push_fresh :
      (r : QueryRunner)
      → is_busy r.state.status ≡ true
      → is_some r.state.result ≡ false
      → (a : Answer) × ((fuel : ℕ) → push (suc fuel) m r ≡ some a)
  push_fresh r b e = elim (admit_busy (message_id m) r.state b) [
    | inl p ↦ (_, λ fuel. push_processes fuel m r p)
    | inr (_, _, _, some_left) ↦ absurd (cc)
  ]

  push_busy :
      (r : QueryRunner)
      → is_busy r.state.status ≡ true
      → is_off r.state.pipeline ≡ true
      → (a : Answer) × ((fuel : ℕ) → push (suc (suc fuel)) m r ≡ some a)
  push_busy r b h = elim (admit_busy (message_id m) r.state b) [
    | inl p ↦ (_, λ fuel. push_processes (suc fuel) m r p)
    | inr (w, ready, same, _) ↦
        let r' : QueryRunner = record r { state = (admit (message_id m) r.state).1 } in
        let off : is_off r'.state.pipeline ≡ true = rw same h in
        let (busy, _) = collect_busy r' off (rw ready) in
        let (a, ends) = push_fresh (collect r') busy (collect_none r' off ready) in
        (a, λ fuel. push_waits (suc fuel) m r w (rw ready) ∙ ends fuel)
  ]

  -- In any state of a connection that keeps the invariant `Inv` and is not in pipeline mode, `push`
  -- ends: three rounds of its loop give an answer, and more fuel gives the same one.
  pub push_ends :
      (r : QueryRunner)
      → Inv r.state
      → is_off r.state.pipeline ≡ true
      → (a : Answer) × ((fuel : ℕ) → push (suc (suc (suc fuel))) m r ≡ some a)
  push_ends r v h = elim (Admit-cases (admit (message_id m) r.state).0) [
    | inl p ↦ (_, λ fuel. push_processes (suc (suc fuel)) m r p)
    | inr w ↦ elim (Bool-cases (is_copy (admit (message_id m) r.state).1.status)) [
      | inl copying ↦ (_, λ fuel. push_copies (suc (suc fuel)) m r w copying)
      | inr other ↦
          let r' : QueryRunner = record r { state = (admit (message_id m) r.state).1 } in
          let (ready, off) = wait_ready (message_id m) r.state v h w other in
          let (busy, still_off) = collect_busy r' off ready in
          let (a, ends) = push_busy (collect r') busy still_off in
          (a, λ fuel. push_waits (suc (suc fuel)) m r w other ∙ ends fuel)
    ]
  ]
