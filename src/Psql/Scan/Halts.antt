-- ===== src/Psql/Scan/Halts.antt =====
-- crates/rpsql/src/scan.rs: the loop of `scan` ends. A variable is put on top only when it is on no
-- buffer of the stack, so that a list of all the variables that are set bounds the stack.
use mathlib.Core.Path.{subst}
use pgrust_drop.Prelude.{
  ℕ, zero, suc, ◌≤◌, ◌<◌, true, false, List, [], ◌∷◌, Option, none, some, length, is_nil, Bytes,
  ◌≡◌, inl, inr, refl, sym, ap, arith, Bool-cases,
}
use pgrust_drop.Psql.Scan.Work.{
  ScanResult, PromptStatus, ScanState, VariableSource, LexRes, Scanner, Work, Buf, rest, advance,
}
use pgrust_drop.Psql.Scan.Colon.{any_source, var_is_current_source}
use pgrust_drop.Psql.Scan.Initial.{Fired}
use pgrust_drop.Psql.Scan.Run.{step_in, pop, step, run, decode, Scanned, scan}
use pgrust_drop.Psql.Scan.Fits.{Fits}
use pgrust_drop.Psql.Scan.Moves.{Reads, Expands, Moves}
use pgrust_drop.Psql.Scan.Advance.{Advances, step_in-Advances}
use pgrust_drop.Psql.Scan.Measure.{
  Covers, contains, unread, stack_of, unread_falls, weight, weight_least, some_weight, weight_most,
  weight_initial, weight_xqs, same_rest, reads_less, unread_same, reads_unread,
}

-- The loop ends with the fuel, and with any more it comes to the same.
unfoldable pub Halts : VariableSource → Work → Type 0
Halts vars w = (fuel : ℕ) × (r : Work × LexRes) × ((k : ℕ) → fuel ≤ k → run k vars w ≡ some r)

one_more :
    (P : ℕ → Type 0) (fuel : ℕ) → ((k : ℕ) → fuel ≤ k → P (suc k)) → (k : ℕ) → suc fuel ≤ k → P k
one_more P fuel f zero h = absurd (omega arith)
one_more P fuel f (suc k) h = f k (omega arith)

-- A step, and what the loop does behind it.
Halts-step :
    (vars : VariableSource) (w : Work) (r : Option LexRes)
    → (step vars w).1 ≡ r
    → (r ≡ none → Halts vars ((step vars w).0))
    → Halts vars w
unfolding Halts run
Halts-step vars w none e h =
    let (fuel, x, g) = h refl in
    (suc fuel, x, one_more (λ k. run k vars w ≡ some x) fuel (λ k l. rw (e, run) (g k l)))
Halts-step vars w (some r) e h = (
  1,
  ((step vars w).0, r),
  one_more (λ k. run k vars w ≡ some ((step vars w).0, r)) 0 (λ k l. rw (e, run) refl),
)

-- The loop ends from every buffer of the stack on.
unfoldable pub HaltsOn : VariableSource → List Buf → Type 0
HaltsOn vars [] = Unit
HaltsOn vars (b ∷ bs) =
    (s : ScanState) (out : Bytes)
    → Halts vars (record { state = s; top = b; below = bs; out = out })

ends_by_pop :
    (vars : VariableSource) (w : Work) (bs : List Buf)
    → step vars w ≡ pop bs w
    → HaltsOn vars bs
    → Halts vars w
unfolding HaltsOn pop
ends_by_pop vars w [] e h =
    Halts-step vars w (some LexRes.eol) (ap (λ f. f.1) e) (λ q. absurd (grind (arith, q)))
ends_by_pop vars w (b ∷ bs) e h =
    Halts-step vars w none (ap (λ f. f.1) e)
      (λ q. subst (Halts vars) (sym (ap (λ f. f.0) e)) (h w.state w.out))

module _ (vars : VariableSource) (names : List Bytes) (c : Covers names vars) (k : ℕ)
    (fewer : (w : Work) → unread names (stack_of w) < k → HaltsOn vars w.below → Halts vars w) where
  module _ (m : ℕ)
      (lighter : (w : Work)
        → weight w ≤ m
        → unread names (stack_of w) ≤ k
        → HaltsOn vars w.below
        → Halts vars w) where
    read_weight :
        (w w' : Work) (n : ℕ)
        → weight w ≤ suc m
        → Fits n (rest w)
        → w'.top ≡ (advance n w).top
        → weight w' ≤ m
    read_weight w w' n h f t =
        omega (arith, h, weight_least w', weight_most w, reads_less w w' n f t)

    put_unread :
        (w w' : Work) (n : ℕ) (name value : Bytes)
        → unread names (stack_of w) ≤ k
        → w'.top ≡ record { data_ = value; pos = 0; varname = some name }
        → w'.below ≡ (advance n w).top ∷ w.below
        → contains name names ≡ true
        → var_is_current_source name w ≡ false
        → unread names (stack_of w') < k
    unfolding any_source
    put_unread w w' n name value u t b m new =
        let stack = (advance n w).top ∷ w.below in
        rw (t, b)
          (omega (
            arith,
            u,
            unread_falls names name value stack m new,
            unread_same names (advance n w).top w.top w.below refl,
          ))

    -- Behind the name that is read.
    name_read :
        (w : Work) (n : ℕ)
        → weight w ≤ suc m
        → unread names (stack_of w) ≤ k
        → HaltsOn vars w.below
        → Fits n (rest w)
        → HaltsOn vars ((advance n w).top ∷ w.below)
    unfolding HaltsOn
    name_read w n h u below f s out =
        let w' : Work = record (advance n w) { state = s; out = out } in
        lighter w' (read_weight w w' n h f refl)
          (omega (arith, u, reads_unread names w w' n refl refl)) below

    advanced :
        (w w' : Work)
        → weight w ≤ suc m
        → unread names (stack_of w) ≤ k
        → HaltsOn vars w.below
        → Advances vars w w'
        → Halts vars w'
    unfolding Advances Moves Reads Expands Covers
    advanced w w' h u below (inl (inl (n, f, t, b))) =
        lighter w' (read_weight w w' n h f t) (omega (arith, u, reads_unread names w w' n t b))
          (subst (HaltsOn vars) (sym b) below)
    advanced w w' h u below (inl (inr (n, name, value, f, t, b, set, new))) =
        fewer w' (put_unread w w' n name value u t b (c name value set) new)
          (subst (HaltsOn vars) (sym b) (name_read w n h u below f))
    advanced w w' h u below (inr (t, b, s, s')) =
        lighter w'
          (omega (arith, weight_initial w' s, weight_xqs w s', ap length (same_rest w w' t), h))
          (rw (t, b) u) (subst (HaltsOn vars) (sym b) below)

  -- By induction on the weight.
  ends_by_weight :
      (m : ℕ) (w : Work)
      → weight w ≤ m
      → unread names (stack_of w) ≤ k
      → HaltsOn vars w.below
      → Halts vars w
  unfolding step
  ends_by_weight zero w h u below = elim (Bool-cases (is_nil (rest w))) [
    | inl e ↦ ends_by_pop vars w w.below (rw e refl) below
    | inr e ↦ absurd (omega (arith, h, some_weight w e))
  ]
  ends_by_weight (suc m) w h u below = elim (Bool-cases (is_nil (rest w))) [
    | inl e ↦ ends_by_pop vars w w.below (rw e refl) below
    | inr e ↦
        let same : step vars w ≡ step_in w.state.start_state vars w = rw e refl in
        Halts-step vars w ((step vars w).1) refl (λ q.
          subst (λ (f : Fired). Halts vars (f.0)) (sym same)
            (advanced m (ends_by_weight m) w _ h u below (step_in-Advances vars w _ refl e)))
  ]

-- By induction on the variables that are left.
ends_by_variables :
    (vars : VariableSource) (names : List Bytes)
    → Covers names vars
    → (k : ℕ) (w : Work) → unread names (stack_of w) < k
    → HaltsOn vars w.below
    → Halts vars w
ends_by_variables vars names c zero w u below = absurd (omega arith)
ends_by_variables vars names c (suc k) w u below =
    ends_by_weight vars names c k (ends_by_variables vars names c k) (weight w) w (omega arith)
      (omega arith) below

-- By induction on the stack.
ends_by_stack :
    (vars : VariableSource) (names : List Bytes)
    → Covers names vars
    → (bs : List Buf) → HaltsOn vars bs
unfolding HaltsOn
ends_by_stack vars names c [] = tt
ends_by_stack vars names c (b ∷ bs) = λ s out.
    let w : Work = record { state = s; top = b; below = bs; out = out } in
    ends_by_variables vars names c (suc (unread names (stack_of w))) w (omega arith)
      (ends_by_stack vars names c bs)

-- The lexer ends: on a scanner with a buffer, whatever its state and whatever is in the statement
-- so far, there is an amount of fuel with which `scan` comes to a result, and with more fuel it comes
-- to the same one. The variables that are set are among finitely many; their values are any bytes,
-- and may name one another and themselves.
pub scan-ends :
    (vars : VariableSource) (names : List Bytes)
    → Covers names vars
    → (s : Scanner) (b : Buf) (bs : List Buf) → s.stack ≡ b ∷ bs
    → (query_buf : Bytes)
    → (fuel : ℕ) × (s' : Scanner) × (query_buf' : Bytes) × (r : ScanResult × PromptStatus)
      × ((k : ℕ) → fuel ≤ k → scan k s query_buf vars ≡ Scanned.scanned s' query_buf' r)
unfolding Halts scan HaltsOn
scan-ends vars names c s b bs h query_buf =
    let (fuel, r, g) = ends_by_stack vars names c (b ∷ bs) s.state query_buf in
    let (w', res) = r in
    let s' : Scanner = record { state = w'.state; stack = w'.top ∷ w'.below } in
    (fuel, s', w'.out, decode res w'.state w'.out, λ k l. rw (h, g k l) refl)
