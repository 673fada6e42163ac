-- ===== src/Psql/Scan/Advance.antt =====
-- crates/rpsql/src/scan.rs: what any step on a buffer that is not read whole does to the buffers.
use pgrust_drop.Prelude.{
  ℕ, ◌≤◌, true, false, not, ◌&&◌, Option, none, some, ◌==◌, if◌then◌else◌, is_nil, ◌≡◌, ◌⊎◌, inl,
  inr, refl, arith, either,
}
use pgrust_drop.Psql.Scan.Chars.{peek, count_while, is_space, is_newline}
use pgrust_drop.Psql.Scan.Match.{match_quotecontinue}
use pgrust_drop.Psql.Scan.Work.{StartState, VariableSource, Work, rest, echo, skip, enter}
use pgrust_drop.Psql.Scan.Quoted.{begins, step_xqs}
use pgrust_drop.Psql.Scan.Initial.{
  on, suppress, is_letter, enter_if, open_comment, initial_dollar, prefix_of, initial_unicode,
  initial_quote, step_initial,
}
use pgrust_drop.Psql.Scan.Run.{step_in}
use pgrust_drop.Psql.Scan.Fits.{
  Fits, split, split_option, Fits-count_while, Fits-begins, peek_inside, Given, Given-some,
  Fits-match_quotecontinue,
}
use pgrust_drop.Psql.Scan.Copies.{Copies, step_in-Copies}
use pgrust_drop.Psql.Scan.Moves.{
  Reads, Moves, FiredMoves, reads, one, skips, initial_dollar-Moves, initial_control-Moves,
}

-- A prefix is one byte long, or two with the quote.
IsPrefix : Option StartState × ℕ → Type 0
IsPrefix p = (1 ≤ p.1) × (p.1 ≤ 2)

prefix_of-IsPrefix : (c : ℕ) → Given IsPrefix (prefix_of c)
unfolding prefix_of IsPrefix
prefix_of-IsPrefix c =
    let G = Given IsPrefix in
    either G (is_letter b'b' c) {x = some (some StartState.xb, 2)} (omega arith, omega arith)
      (either G (is_letter b'x' c) {x = some (some StartState.xh, 2)} (omega arith, omega arith)
        (either G (is_letter b'n' c) {x = some (none, 1)} (omega arith, omega arith)
          (either G (is_letter b'e' c) {x = some (some StartState.xe, 2)} {y = none}
            (omega arith, omega arith) tt)))

Given-map :
    {B : Type 0} (P Q : B → Type 0) (o : Option B) → ((b : B) → P b → Q b) → Given P o → Given Q o
Given-map P Q none f g = tt
Given-map P Q (some b) f g = f b g

quoted_prefix :
    (c next : ℕ)
    → Given
        (λ p. IsPrefix p × ((next == b'\'') ≡ true))
        (if next == b'\'' then prefix_of c else none)
quoted_prefix c next =
    let Q : Option StartState × ℕ → Type 0 = λ p. IsPrefix p × ((next == b'\'') ≡ true) in
    split (Given Q) (next == b'\'')
      (λ e. Given-map IsPrefix Q (prefix_of c) (λ p h. (h, e)) (prefix_of-IsPrefix c)) (λ e. tt)

module _ (vars : VariableSource) (w : Work) (some_left : is_nil (rest w) ≡ false) where
  initial_unicode-Moves : Moves vars w (initial_unicode w)
  unfolding initial_unicode
  initial_unicode-Moves =
      let M = Moves vars w in
      split M (peek (rest w) 2 == b'\'')
        (λ e.
          reads vars w some_left _ 3
            (omega arith, omega (arith, peek_inside (rest w) 2 b'\'' refl e)))
        (λ e.
          split M (peek (rest w) 2 == b'"')
            (λ e.
              reads vars w some_left _ 3
                (omega arith, omega (arith, peek_inside (rest w) 2 b'"' refl e)))
            (λ e. one vars w some_left w.state))

  suppress-Moves : (n : ℕ) → Fits n (rest w) → Moves vars w (suppress n w)
  unfolding skip
  suppress-Moves n f =
      either (Moves vars w) (is_nil w.out) (skips vars w some_left w.state n w.out f)
        (reads vars w some_left w.state n f)

  entered : (s : Option StartState) (n : ℕ) → Fits n (rest w) → Moves vars w (echo n (enter_if s w))
  entered none n f = reads vars w some_left w.state n f
  entered (some s) n f = reads vars w some_left ((enter s w).state) n f

  prefix_within :
      (p : Option StartState × ℕ)
      → IsPrefix p × ((peek (rest w) 1 == b'\'') ≡ true)
      → Fits (p.1) (rest w)
  unfolding IsPrefix
  prefix_within p h =
      let (a, b) = h.0 in (a, omega (arith, b, peek_inside (rest w) 1 b'\'' refl (h.1)))

  initial_quote-Moves : FiredMoves vars w (initial_quote vars w)
  unfolding initial_quote FiredMoves
  initial_quote-Moves =
      let c = peek (rest w) 0 in
      let next = peek (rest w) 1 in
      let M = FiredMoves vars w in
      split_option M (if next == b'\'' then prefix_of c else none)
        {f = λ p. on (echo (p.1) (enter_if (p.0) w))}
        (λ g.
          split M (is_letter b'u' c && next == b'&') {x = on (initial_unicode w)}
            (λ e. initial_unicode-Moves)
            (λ e.
              split M (c == b'\'') (λ e. one vars w some_left _)
                (λ e.
                  split M (c == b'"') (λ e. one vars w some_left _)
                    (λ e.
                      split M (c == b'$') {x = on (initial_dollar w)}
                        (λ e. initial_dollar-Moves vars w some_left)
                        (λ e. initial_control-Moves vars w some_left)))))
        (λ p g. entered (p.0) (p.1) (prefix_within p (Given-some _ _ (quoted_prefix c next) g)))

  step_initial-Moves : FiredMoves vars w (step_initial vars w)
  unfolding step_initial FiredMoves is_newline
  step_initial-Moves =
      let M = FiredMoves vars w in
      split M (is_space (peek (rest w) 0)) {x = on (suppress (count_while is_space (rest w)) w)}
        (λ e. suppress-Moves _ (Fits-count_while is_space (rest w) some_left e))
        (λ e.
          split M (begins (rest w) b'-' b'-')
            {x = on (suppress (count_while (λ c. not (is_newline c)) (rest w)) w)}
            (λ e.
              suppress-Moves _
                (Fits-count_while (λ c. not (is_newline c)) (rest w) some_left (ground (arith, e))))
            (λ e.
              split M (begins (rest w) b'/' b'*') {x = on (echo 2 (open_comment w))}
                (λ e. reads vars w some_left _ 2 (Fits-begins (rest w) b'/' b'*' refl e))
                (λ e. initial_quote-Moves)))

-- A step reads, or puts a variable's value on top, or goes on as outside quotes with the same text.
unfoldable pub Advances : VariableSource → Work → Work → Type 0
Advances vars w w' =
    Moves vars w w'
    ⊎ ((w'.top ≡ w.top)
        × (w'.below ≡ w.below)
        × (w'.state.start_state ≡ StartState.initial)
        × (w.state.start_state ≡ StartState.xqs))

Copies-Moves : (vars : VariableSource) (w w' : Work) → Copies w w' → Moves vars w w'
unfolding Copies Moves Reads
Copies-Moves vars w w' (n, f, t, b, o) = inl (n, f, t, b)

step_xqs-Advances :
    (vars : VariableSource) (w : Work)
    → w.state.start_state ≡ StartState.xqs
    → is_nil (rest w) ≡ false
    → Advances vars w (step_xqs w)
unfolding Advances step_xqs
step_xqs-Advances vars w h some_left =
    split_option (Advances vars w) (match_quotecontinue (rest w)) (λ g. inr (refl, refl, refl, h))
      (λ n g. inl (
        reads vars w some_left _ n
          (Given-some (λ n. Fits n (rest w)) _ (Fits-match_quotecontinue (rest w)) g)))

pub step_in-Advances :
    (vars : VariableSource) (w : Work) (s : StartState)
    → w.state.start_state ≡ s
    → is_nil (rest w) ≡ false
    → Advances vars w ((step_in s vars w).0)
unfolding Advances FiredMoves step_in
step_in-Advances vars w StartState.initial h e = inl (step_initial-Moves vars w e)
step_in-Advances vars w StartState.xqs h e = step_xqs-Advances vars w h e
step_in-Advances vars w s h e =
    inl (Copies-Moves vars w _ ((step_in-Copies w e s vars (grind arith) (grind arith)).0))
